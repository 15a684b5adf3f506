-- ===== src/Base64/Encode.antt =====
-- Both encoders spell the sextets of their input, and where the string encoder reads in front of
-- its table.
use Prim.Native.Nat.{bit_and, bit_or}
use hystack.Prelude.{
  ℕ, ◌+◌, ◌*◌, ◌/◌, ◌%◌, ◌<◌, ◌≡◌, refl, Bool, true, false, ◌&&◌, List, [], ◌∷◌, ◌++◌, map, some,
  none, arith, ◌==◌, get_elem?, get_elem?-eq-get_or, if◌then◌else◌, ◌>>=◌, ◌∙◌, All, ==_iff, ltb,
  inl, inr, Bool-cases,
}
use hystack.Prelude.Bits.{holds_below, holds_below_sound, bit_or_below_4, bit_or_below_16}
use hystack.Base64.{url_basis, template_base64_encode, encode_bytes}
use hystack.Base64.Digits.{sextets, IsByte, url, bin}

abbrev pub padding : List ℕ → List ℕ
padding [] = []
padding (a ∷ []) = b'=' ∷ b'=' ∷ []
padding (a ∷ b ∷ []) = b'=' ∷ []
padding (a ∷ b ∷ c ∷ s) = padding s

-- The masks of the byte encoder, over every byte.
mask_30 : holds_below (λ x. bit_and (x * 16 % 256) 0x30 == x % 4 * 16) 256 ≡ true
unfolding holds_below
mask_30 = refl

mask_3c : holds_below (λ x. bit_and (x * 4 % 256) 0x3c == x % 16 * 4) 256 ≡ true
unfolding holds_below
mask_3c = refl

mask_3f : holds_below (λ x. bit_and x 0x3f == x % 64) 256 ≡ true
unfolding holds_below
mask_3f = refl

mask_0f : holds_below (λ x. bit_and x 0x0f == x) 16 ≡ true
unfolding holds_below
mask_0f = refl

mask_03 : holds_below (λ x. bit_and x 0x03 == x) 4 ≡ true
unfolding holds_below
mask_03 = refl

module _ (x : ℕ) (h : x < 256) where
  low2 : bit_and (x * 16 % 256) 0x30 ≡ x % 4 * 16
  low2 = (==_iff _ _).0 (holds_below_sound _ 256 x h mask_30)

  low4 : bit_and (x * 4 % 256) 0x3c ≡ x % 16 * 4
  low4 = (==_iff _ _).0 (holds_below_sound _ 256 x h mask_3c)

  low6 : bit_and x 0x3f ≡ x % 64
  low6 = (==_iff _ _).0 (holds_below_sound _ 256 x h mask_3f)

  high6 : bit_and (x / 4) 0x3f ≡ x / 4
  high6 = (==_iff _ _).0 (holds_below_sound _ 256 (x / 4) (omega arith) mask_3f) ∙ omega arith

  high4 : bit_and (x / 16) 0x0f ≡ x / 16
  high4 = (==_iff _ _).0 (holds_below_sound _ 16 (x / 16) (omega arith) mask_0f)

  high2 : bit_and (x / 64) 0x03 ≡ x / 64
  high2 = (==_iff _ _).0 (holds_below_sound _ 4 (x / 64) (omega arith) mask_03)

middle : (a b : ℕ) → b < 256 → bit_or (a % 4 * 16) (b / 16) ≡ a % 4 * 16 + b / 16
middle a b h = bit_or_below_16 (a % 4) (b / 16) (omega arith)

third : (b c : ℕ) → c < 256 → bit_or (b % 16 * 4) (c / 64) ≡ b % 16 * 4 + c / 64
third b c h = bit_or_below_4 (b % 16) (c / 64) (omega arith)

-- The byte encoder spells the sextets of its bytes, and pads to a multiple of four.
pub encode_bytes-sextets :
    (xs : List ℕ) → All IsByte xs → encode_bytes xs ≡ map bin (sextets xs) ++ padding xs
unfolding encode_bytes sextets
encode_bytes-sextets [] h = refl
encode_bytes-sextets (a ∷ []) h = rw (high6 a h.0, low2 a h.0)
encode_bytes-sextets (a ∷ b ∷ []) h =
    rw (high6 a h.0, low2 a h.0, high4 b h.1.0, low4 b h.1.0, middle a b h.1.0)
encode_bytes-sextets (a ∷ b ∷ c ∷ s) h = rw (
  high6 a h.0,
  low2 a h.0,
  high4 b h.1.0,
  low4 b h.1.0,
  high2 c h.1.1.0,
  low6 c h.1.1.0,
  middle a b h.1.0,
  third b c h.1.1.0,
  encode_bytes-sextets s h.1.1.1,
)

-- No second or third byte of a group of three has its high bit set.
abbrev pub plain : List ℕ → Bool
plain [] = true
plain (a ∷ []) = true
plain (a ∷ b ∷ []) = ltb b 128
plain (a ∷ b ∷ c ∷ s) = ltb b 128 && (ltb c 128 && plain s)

elem : (i : ℕ) → i < 64 → get_elem? url_basis i ≡ some (url i)
unfolding url_basis
elem i h = get_elem?-eq-get_or url_basis i 0 h

first : (a : ℕ) → a < 256 → a / 4 % 64 ≡ a / 4
first a h = omega arith

quarter : (a : ℕ) → a < 256 → a / 4 < 64
quarter a h = omega arith

second_lt : (a b : ℕ) → b < 256 → a % 4 * 16 + b / 16 < 64
second_lt a b h = omega arith

third_lt : (b c : ℕ) → c < 256 → b % 16 * 4 + c / 64 < 64
third_lt b c h = omega arith

after_rest :
    (t : Bool) (d0 d1 d2 d3 : ℕ) (d : List ℕ)
    → ((if t then some d else none) >>= λ r. some (d0 ∷ d1 ∷ d2 ∷ d3 ∷ r))
      ≡ (if t then some (d0 ∷ d1 ∷ d2 ∷ d3 ∷ d) else none)
after_rest true d0 d1 d2 d3 d = refl
after_rest false d0 d1 d2 d3 d = refl

-- The string encoder without padding: it spells the sextets of its bytes if all second and third
-- bytes of the groups are below 128, and else reads outside its table.
pub template_base64_encode-sextets :
    (xs : List ℕ)
    → All IsByte xs
    → template_base64_encode url_basis false xs
      ≡ (if plain xs then some (map url (sextets xs)) else none)
unfolding template_base64_encode sextets
template_base64_encode-sextets [] h = refl
template_base64_encode-sextets (a ∷ []) h =
    rw (first a h.0, elem (a / 4) (quarter a h.0), elem (a % 4 * 16) (omega arith))
template_base64_encode-sextets (a ∷ b ∷ []) h =
    rw (first a h.0, elem (a / 4) (quarter a h.0))
      (elim (Bool-cases (ltb b 128)) [
        | inr e ↦ rw e
        | inl e ↦ rw (
          e,
          middle a b h.1.0,
          elem (a % 4 * 16 + b / 16) (second_lt a b h.1.0),
          elem (b % 16 * 4) (omega arith),
        )
      ])
template_base64_encode-sextets (a ∷ b ∷ c ∷ s) h =
    rw (first a h.0, elem (a / 4) (quarter a h.0))
      (elim (Bool-cases (ltb b 128)) [
        | inr e ↦ rw e
        | inl e ↦
            rw (e, middle a b h.1.0, elem (a % 4 * 16 + b / 16) (second_lt a b h.1.0))
              (elim (Bool-cases (ltb c 128)) [
                | inr f ↦ rw f
                | inl f ↦
                    rw
                      (
                        f,
                        third b c h.1.1.0,
                        elem (b % 16 * 4 + c / 64) (third_lt b c h.1.1.0),
                        elem (c % 64) (omega arith),
                        template_base64_encode-sextets s h.1.1.1,
                      )
                      (after_rest (plain s) _ _ _ _ _)
              ])
      ])
