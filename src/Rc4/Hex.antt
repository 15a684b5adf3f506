-- ===== src/Rc4/Hex.antt =====
-- Hexadecimal text and back.
use hystack.Prelude.{ℕ, ◌+◌, ◌*◌, ◌/◌, ◌%◌, ◌<◌, ◌≡◌, refl, List, [], ◌∷◌, arith, ap, All, length}
use hystack.Rc4.{to_hex, of_hex, conv_rc4_char_to_hex, conv_rc4_hex_to_char}

abbrev pub IsByte : ℕ → Type 0
IsByte c = c < 256

of_hex-to_hex :
    (h l : ℕ) → h < 16 → l < 16 → (of_hex (to_hex h) * 16 + of_hex (to_hex l)) % 256 ≡ h * 16 + l
unfolding of_hex to_hex
of_hex-to_hex h l p q = ground arith

-- The hexadecimal text of any bytes is read back as those bytes.
pub hex_to_char-char_to_hex :
    (chs : List ℕ) → All IsByte chs → conv_rc4_hex_to_char (conv_rc4_char_to_hex chs) ≡ chs
unfolding conv_rc4_hex_to_char conv_rc4_char_to_hex
hex_to_char-char_to_hex [] h = refl
hex_to_char-char_to_hex (c ∷ chs) h =
    let b = h.0 in
    rw
      (of_hex-to_hex (c / 16) (c % 16) (omega arith) (omega arith), hex_to_char-char_to_hex chs h.1)
      (ap (λ x. x ∷ chs) (omega arith))

-- It has two digits for each byte, `0` to `9` or `A` to `F`.
pub IsDigit : ℕ → Type 0
IsDigit d = (47 < d) × (d < 71)

pub length-char_to_hex :
    (chs : List ℕ) → length (conv_rc4_char_to_hex chs) ≡ length chs + length chs
unfolding conv_rc4_char_to_hex
length-char_to_hex [] = omega arith
length-char_to_hex (c ∷ chs) = omega (arith, length-char_to_hex chs)
