-- ===== src/CoreString/Tests.antt =====
-- Some strings, and the theorems at them.
use hystack.Prelude.{ℕ, ◌<◌, ◌≡◌, ◌↔◌, refl, none, some, List, [], ◌∷◌, map, take, arith}
use hystack.Prelude.Int.{pos, negsuc, ◌-ℤ◌}
use hystack.Base64.{codes}
use hystack.CoreString.{fold_case, str_case_cmp, digit_of, hex_loop, has_prefix, hex_toi}
use hystack.CoreString.Compare.{AgreeUpToCase, str_case_cmp_zero}
use hystack.CoreString.Hex.{spell, value, hex_toi-spell}

compare_headers : str_case_cmp (codes "Host") (codes "hOsu") ≡ negsuc 0
unfolding str_case_cmp fold_case ◌-ℤ◌
compare_headers = refl

-- A number above 2 ^ 31 - 1 is an overflow, and a start behind the end is out of range.
overflow : hex_toi (codes "80000000") 0 8 ≡ none
unfolding hex_toi hex_loop digit_of has_prefix
overflow = refl

behind_end : hex_toi (codes "0x1") 2 8 ≡ none
unfolding hex_toi hex_loop digit_of has_prefix
behind_end = refl

str_case_cmp_zero_example :
    (str_case_cmp (codes "Ab") (codes "aB") ≡ pos 0) ↔ AgreeUpToCase (codes "Ab") (codes "aB")
str_case_cmp_zero_example =
    str_case_cmp_zero (codes "Ab") (codes "aB") (omega arith, (omega arith, tt))
      (omega arith, (omega arith, tt))

abbrev digits : List ℕ
digits = 1 ∷ 15 ∷ []

small : value 0 (take 4 digits) < 2147483648
unfolding value
small = omega arith

hex_toi-spell_example :
    (hex_toi (map spell digits) 0 4 ≡ some (value 0 (take 4 digits)))
    × (hex_toi (48 ∷ 120 ∷ map spell digits) 0 4 ≡ some (value 0 (take 4 digits)))
hex_toi-spell_example = hex_toi-spell digits 4 (omega arith, (omega arith, tt)) small
