-- ===== src/Base64/Digits.antt =====
-- What base64 is: three bytes are four numbers below 64, and how the tables spell those.
use hystack.Prelude.{
  ℕ, ◌+◌, ◌*◌, ◌/◌, ◌%◌, ◌≤◌, ◌<◌, ◌≡◌, ◌≢◌, refl, Bool, true, false, not, ◌&&◌, List, [], ◌∷◌,
  ◌++◌, map, some, none, arith, ◌==◌, length, get_or, ap, ap₂, All,
}
use Prim.Native.Nat.{bit_or}
use native.Mathlib.Decide.{ℕ_discrete}
use hystack.Prelude.Bits.{
  holds_below, holds_below_sound, bit_or_below_4, bit_or_below_16, bit_or_below_64,
}
use hystack.Base64.{url_basis, bin_basis, decode_basis, digits_of, decode_groups}

unfoldable pub sextets : List ℕ → List ℕ
sextets [] = []
sextets (a ∷ []) = a / 4 ∷ a % 4 * 16 ∷ []
sextets (a ∷ b ∷ []) = a / 4 ∷ (a % 4 * 16 + b / 16) ∷ b % 16 * 4 ∷ []
sextets (a ∷ b ∷ c ∷ s) = a / 4 ∷ (a % 4 * 16 + b / 16) ∷ (b % 16 * 4 + c / 64) ∷ c % 64 ∷ sextets s

unfoldable pub unpack : List ℕ → List ℕ
unpack (a ∷ b ∷ c ∷ d ∷ s) =
    (a * 4 + b / 16) % 256 ∷ (b * 16 + c / 4) % 256 ∷ (c * 64 + d) % 256 ∷ unpack s
unpack (a ∷ b ∷ c ∷ []) = (a * 4 + b / 16) % 256 ∷ (b * 16 + c / 4) % 256 ∷ []
unpack (a ∷ b ∷ []) = (a * 4 + b / 16) % 256 ∷ []
unpack (a ∷ []) = []
unpack [] = []

abbrev pub IsByte : ℕ → Type 0
IsByte x = x < 256

pub unpack-sextets : (xs : List ℕ) → All IsByte xs → unpack (sextets xs) ≡ xs
unfolding unpack sextets
unpack-sextets [] h = refl
unpack-sextets (a ∷ []) h = ap (λ x. x ∷ []) (omega arith)
unpack-sextets (a ∷ b ∷ []) h = ap₂ (λ x y. x ∷ y ∷ []) (omega arith) (omega arith)
unpack-sextets (a ∷ b ∷ c ∷ s) h = ground (arith, unpack-sextets s)

pub length-sextets : (xs : List ℕ) → length (sextets xs) % 4 ≢ 1
unfolding sextets
length-sextets [] = omega arith
length-sextets (a ∷ []) = omega arith
length-sextets (a ∷ b ∷ []) = omega arith
length-sextets (a ∷ b ∷ c ∷ s) = omega (arith, length-sextets s)

-- `ch` spells `v` by a digit that the decoder reads back.
pub record Spells (ch : ℕ → ℕ) (v : ℕ) : Type 0 where
  pub value : get_or decode_basis (ch v) 77 ≡ v
  pub not_pad : (ch v == b'=') ≡ false
  pub below : v < 64

module _ (ch : ℕ → ℕ) where
  -- The digits up to the padding.
  pub digits_of-map :
      (vs pad : List ℕ)
      → All (Spells ch) vs
      → digits_of decode_basis pad ≡ some []
      → digits_of decode_basis (map ch vs ++ pad) ≡ some (map ch vs)
  unfolding digits_of
  digits_of-map [] pad h e = e
  digits_of-map (v ∷ vs) pad h e =
      let b = h.0.below in
      let no77 : (v == 77) ≡ false = ground arith in
      rw (h.0.not_pad, h.0.value, no77, digits_of-map vs pad h.1 e)

  -- One digit that is none stops the decoder.
  pub digits_of-bad :
      (vs : List ℕ) (w : ℕ) (rest : List ℕ)
      → All (Spells ch) vs
      → get_or decode_basis w 77 ≡ 77
      → (w == b'=') ≡ false
      → digits_of decode_basis (map ch vs ++ w ∷ rest) ≡ none
  unfolding digits_of
  digits_of-bad [] w rest h e p = rw (p, e)
  digits_of-bad (v ∷ vs) w rest h e p =
      let b = h.0.below in
      let no77 : (v == 77) ≡ false = ground arith in
      rw (h.0.not_pad, h.0.value, no77, digits_of-bad vs w rest h.1 e p)

  pub digits_of-none :
      (vs rest : List ℕ)
      → All (Spells ch) vs
      → digits_of decode_basis rest ≡ none
      → digits_of decode_basis (map ch vs ++ rest) ≡ none
  unfolding digits_of
  digits_of-none [] rest h e = e
  digits_of-none (v ∷ vs) rest h e =
      let b = h.0.below in
      let no77 : (v == 77) ≡ false = ground arith in
      rw (h.0.not_pad, h.0.value, no77, digits_of-none vs rest h.1 e)

  byte0 :
      (a b : ℕ)
      → Spells ch a
      → Spells ch b
      → bit_or (get_or decode_basis (ch a) 77 * 4) (get_or decode_basis (ch b) 77 / 16) % 256
        ≡ (a * 4 + b / 16) % 256
  byte0 a b p q =
      let h = q.below in
      rw (p.value, q.value) (ap (λ x. x % 256) (bit_or_below_4 a (b / 16) (omega arith)))

  byte1 :
      (b c : ℕ)
      → Spells ch b
      → Spells ch c
      → bit_or (get_or decode_basis (ch b) 77 * 16) (get_or decode_basis (ch c) 77 / 4) % 256
        ≡ (b * 16 + c / 4) % 256
  byte1 b c p q =
      let h = q.below in
      rw (p.value, q.value) (ap (λ x. x % 256) (bit_or_below_16 b (c / 4) (omega arith)))

  byte2 :
      (c d : ℕ)
      → Spells ch c
      → Spells ch d
      → bit_or (get_or decode_basis (ch c) 77 * 64) (get_or decode_basis (ch d) 77) % 256
        ≡ (c * 64 + d) % 256
  byte2 c d p q = rw (p.value, q.value) (ap (λ x. x % 256) (bit_or_below_64 c d q.below))

  pub decode_groups-map :
      (vs : List ℕ) → All (Spells ch) vs → decode_groups decode_basis (map ch vs) ≡ unpack vs
  unfolding decode_groups unpack
  decode_groups-map [] h = refl
  decode_groups-map (a ∷ []) h = refl
  decode_groups-map (a ∷ b ∷ []) h = ap (λ x. x ∷ []) (byte0 a b h.0 h.1.0)
  decode_groups-map (a ∷ b ∷ c ∷ []) h =
      ap₂ (λ x y. x ∷ y ∷ []) (byte0 a b h.0 h.1.0) (byte1 b c h.1.0 h.1.1.0)
  decode_groups-map (a ∷ b ∷ c ∷ d ∷ s) h = ap₂ ◌∷◌ (byte0 a b h.0 h.1.0) (
      ap₂ ◌∷◌ (byte1 b c h.1.0 h.1.1.0)
        (ap₂ ◌∷◌ (byte2 c d h.1.1.0 h.1.1.1.0) (decode_groups-map s h.1.1.1.1)))

abbrev spelled : List ℕ → ℕ → Bool
spelled basis v = (get_or decode_basis (get_or basis v 0) 77 == v) && not (get_or basis v 0 == b'=')

url_table : holds_below (spelled url_basis) 62 ≡ true
unfolding holds_below url_basis decode_basis
url_table = refl

bin_table : holds_below (spelled bin_basis) 64 ≡ true
unfolding holds_below bin_basis decode_basis
bin_table = refl

abbrev pub url : ℕ → ℕ
url v = get_or url_basis v 0

abbrev pub bin : ℕ → ℕ
bin v = get_or bin_basis v 0

-- The decoder reads every digit of the byte encoder, and all but the last two of the string
-- encoder, `-` and `_`.
pub Spells-bin : (v : ℕ) → v < 64 → Spells bin v
Spells-bin v h =
    let t = holds_below_sound (spelled bin_basis) 64 v h bin_table in
    record { value = ground arith; not_pad = ground arith; below = h }

pub Spells-url : (v : ℕ) → v < 62 → Spells url v
Spells-url v h =
    let t = holds_below_sound (spelled url_basis) 62 v h url_table in
    record { value = ground arith; not_pad = ground arith; below = omega arith }

abbrev Unread : ℕ → Type 0
Unread v = (get_or decode_basis (url v) 77 ≡ 77) × ((url v == b'=') ≡ false)

url-Unread_62 : Unread 62
unfolding url_basis decode_basis
url-Unread_62 = (refl, refl)

url-Unread_63 : Unread 63
unfolding url_basis decode_basis
url-Unread_63 = (refl, refl)

pub url_unread :
    (v : ℕ) → 62 ≤ v → v < 64 → (get_or decode_basis (url v) 77 ≡ 77) × ((url v == b'=') ≡ false)
url_unread v lo hi = elim (ℕ_discrete v 62) [
  | yes e ↦ rw e url-Unread_62
  | no ne ↦ let e : v ≡ 63 = omega arith in rw e url-Unread_63
]
