-- ===== src/Prelude/Bits.antt =====
-- `bit_or` of disjoint fields is a sum, and `bit_xor` undoes itself, at every width.
use Prim.Native.Nat.{
  ℕ, zero, suc, ◌+◌, ◌-◌, ◌*◌, ◌/◌, ◌%◌, ◌≤◌, ◌<◌, max, bit_or, bit_xor, digits, differ,
  bit_or-bitwise, bit_xor-bitwise,
}
use mathlib.Core.Path.{◌≡◌, refl, ◌∙◌, ap}
use mathlib.Core.Bool.{Bool, true, ◌&&◌}
use native.Mathlib.Omega.{arith}
use native.Mathlib.Decide.{ℕ_discrete}

-- A test that passes at every number below a bound, found by running it.
unfoldable pub holds_below : (ℕ → Bool) → ℕ → Bool
holds_below test zero = true
holds_below test (suc k) = holds_below test k && test k

pub holds_below_sound :
    (test : ℕ → Bool) (bound i : ℕ) → i < bound → holds_below test bound ≡ true → test i ≡ true
unfolding holds_below
holds_below_sound test zero i under passed = absurd (omega arith)
holds_below_sound test (suc k) i under passed = elim (ℕ_discrete i k) [
  | yes e ↦ rw e (ground arith)
  | no ne ↦ holds_below_sound test k i (omega arith) (ground arith)
]

-- A digitwise operation does not depend on its fuel, if the fuel covers the first number.
module _ (f : ℕ → ℕ → ℕ) where
  abbrev run : ℕ → ℕ → ℕ → ℕ
  run fuel v w = digits (λ b. b) f fuel v w

  one_more : (fuel v w : ℕ) → v ≤ fuel → run (suc fuel) v w ≡ run fuel v w
  one_more zero zero w covered = refl
  one_more (suc fuel) zero w covered = refl
  one_more (suc less) (suc v) w covered =
      omega (arith, one_more less (suc v / 2) (w / 2) (omega arith))
  one_more zero (suc v) w covered = absurd (omega (arith, covered))

  run_from : (extra v w fuel : ℕ) → fuel ≡ v + extra → run fuel v w ≡ run v v w
  run_from zero v w fuel e = ap (λ fuel. run fuel v w) (omega (arith, e))
  run_from (suc extra) v w fuel e =
      let more : fuel ≡ suc (v + extra) = omega (arith, e) in
      ap (λ fuel. run fuel v w) more
      ∙ one_more (v + extra) v w (omega arith)
      ∙ run_from extra v w (v + extra) refl

  run_half : (v w : ℕ) → run v (suc v / 2) (w / 2) ≡ run (suc v / 2) (suc v / 2) (w / 2)
  run_half v w = run_from (v - suc v / 2) (suc v / 2) (w / 2) v (omega arith)

zero-bit_or : (b : ℕ) → bit_or 0 b ≡ b
zero-bit_or b = bit_or-bitwise 0 b

bit_or_step : (v w : ℕ) → bit_or v w ≡ max (v % 2) (w % 2) + bit_or (v / 2) (w / 2) * 2
bit_or_step zero w = omega (arith, zero-bit_or w, zero-bit_or (w / 2))
bit_or_step (suc v) w =
    let whole = bit_or-bitwise (suc v) w in
    let halves = bit_or-bitwise (suc v / 2) (w / 2) in
    omega (arith, whole, halves, run_half max v w)

zero-bit_xor : (b : ℕ) → bit_xor 0 b ≡ b
zero-bit_xor b = bit_xor-bitwise 0 b

bit_xor_step : (a b : ℕ) → bit_xor a b ≡ bit_xor (a / 2) (b / 2) * 2 + differ (a % 2) (b % 2)
bit_xor_step zero b = omega (arith, zero-bit_xor b, zero-bit_xor (b / 2))
bit_xor_step (suc a) b =
    omega
      (arith, bit_xor-bitwise (suc a) b, bit_xor-bitwise (suc a / 2) (b / 2), run_half differ a b)

bit_or-zero_fuel : (n a : ℕ) → a ≤ n → bit_or a 0 ≡ a
bit_or-zero_fuel n zero h = zero-bit_or 0
bit_or-zero_fuel zero (suc a) h = absurd (omega arith)
bit_or-zero_fuel (suc n) (suc a) h =
    omega (arith, bit_or_step (suc a) 0, bit_or-zero_fuel n (suc a / 2) (omega arith))

-- A field of k bits under a multiple of 2 ^ k.
or_below_1 : (a x y : ℕ) → a ≡ x → y < 1 → bit_or a y ≡ x + y
or_below_1 a x y e h =
    let z : y ≡ 0 = omega arith in rw (z, e) (omega (arith, bit_or-zero_fuel x x))

abbrev Disjoint : ℕ → Type 0
Disjoint k = (a x y : ℕ) → a ≡ x * k → y < k → bit_or a y ≡ x * k + y

or_1 : Disjoint 1
or_1 a x y e h = or_below_1 a (x * 1) y e h

or_2 : Disjoint 2
or_2 a x y e h = omega (arith, bit_or_step a y, or_1 (a / 2) x (y / 2) (omega arith) (omega arith))

or_4 : Disjoint 4
or_4 a x y e h = omega (arith, bit_or_step a y, or_2 (a / 2) x (y / 2) (omega arith) (omega arith))

or_8 : Disjoint 8
or_8 a x y e h = omega (arith, bit_or_step a y, or_4 (a / 2) x (y / 2) (omega arith) (omega arith))

or_16 : Disjoint 16
or_16 a x y e h = omega (arith, bit_or_step a y, or_8 (a / 2) x (y / 2) (omega arith) (omega arith))

or_32 : Disjoint 32
or_32 a x y e h =
    omega (arith, bit_or_step a y, or_16 (a / 2) x (y / 2) (omega arith) (omega arith))

or_64 : Disjoint 64
or_64 a x y e h =
    omega (arith, bit_or_step a y, or_32 (a / 2) x (y / 2) (omega arith) (omega arith))

pub bit_or_below_4 : (x y : ℕ) → y < 4 → bit_or (x * 4) y ≡ x * 4 + y
bit_or_below_4 x y h = or_4 (x * 4) x y refl h

pub bit_or_below_16 : (x y : ℕ) → y < 16 → bit_or (x * 16) y ≡ x * 16 + y
bit_or_below_16 x y h = or_16 (x * 16) x y refl h

pub bit_or_below_64 : (x y : ℕ) → y < 64 → bit_or (x * 64) y ≡ x * 64 + y
bit_or_below_64 x y h = or_64 (x * 64) x y refl h

differ_twice : (a b : ℕ) → a < 2 → b < 2 → differ (differ a b) b ≡ a
differ_twice zero zero h k = refl
differ_twice zero (suc zero) h k = refl
differ_twice (suc zero) zero h k = refl
differ_twice (suc zero) (suc zero) h k = refl
differ_twice a (suc (suc b)) h k = absurd (omega arith)
differ_twice (suc (suc a)) b h k = absurd (omega arith)

differ-lt : (a b : ℕ) → a < 2 → b < 2 → differ a b < 2
differ-lt zero b h k = k
differ-lt (suc zero) zero h k = h
differ-lt (suc zero) (suc zero) h k = omega arith
differ-lt (suc zero) (suc (suc b)) h k = absurd (omega arith)
differ-lt (suc (suc a)) b h k = absurd (omega arith)

xor_twice_fuel : (n a b : ℕ) → a ≤ n → b ≤ n → bit_xor (bit_xor a b) b ≡ a
xor_twice_fuel zero zero zero p q = refl
xor_twice_fuel zero (suc a) b p q = absurd (omega arith)
xor_twice_fuel zero zero (suc b) p q = absurd (omega arith)
xor_twice_fuel (suc n) a b p q =
    let half = bit_xor (a / 2) (b / 2) in
    let low : differ (a % 2) (b % 2) < 2 = differ-lt (a % 2) (b % 2) (omega arith) (omega arith) in
    let hi : bit_xor a b / 2 ≡ half = omega (arith, bit_xor_step a b) in
    let lo : bit_xor a b % 2 ≡ differ (a % 2) (b % 2) = omega (arith, bit_xor_step a b) in
    bit_xor_step (bit_xor a b) b
    ∙ rw (hi, lo, differ_twice (a % 2) (b % 2) (omega arith) (omega arith))
        (omega (arith, xor_twice_fuel n (a / 2) (b / 2) (omega arith) (omega arith)))

pub bit_xor_twice : (a b : ℕ) → bit_xor (bit_xor a b) b ≡ a
bit_xor_twice a b = xor_twice_fuel (a + b) a b (omega arith) (omega arith)

abbrev XorBelow : ℕ → Type 0
XorBelow k = (a b : ℕ) → a < k → b < k → bit_xor a b < k

xor_2 : XorBelow 2
xor_2 zero zero h k = omega (arith, zero-bit_xor 0)
xor_2 zero (suc zero) h k = omega (arith, zero-bit_xor 1)
xor_2 (suc zero) zero h k = omega (arith, bit_xor_step 1 0, zero-bit_xor 0)
xor_2 (suc zero) (suc zero) h k = omega (arith, bit_xor_step 1 1, zero-bit_xor 0)
xor_2 (suc (suc a)) b h k = absurd (omega arith)
xor_2 a (suc (suc b)) h k = absurd (omega arith)

xor_double : (n m : ℕ) → m ≡ n + n → XorBelow n → XorBelow m
xor_double n m e below a b h k = omega (
  arith,
  bit_xor_step a b,
  below (a / 2) (b / 2) (omega arith) (omega arith),
  differ-lt (a % 2) (b % 2) (omega arith) (omega arith),
)

xor_16 : XorBelow 16
xor_16 = xor_double 8 16 refl (xor_double 4 8 refl (xor_double 2 4 refl xor_2))

-- Bytes stay bytes.
pub bit_xor-lt_256 : (a b : ℕ) → a < 256 → b < 256 → bit_xor a b < 256
bit_xor-lt_256 =
    xor_double 128 256 refl
      (xor_double 64 128 refl (xor_double 32 64 refl (xor_double 16 32 refl xor_16)))
