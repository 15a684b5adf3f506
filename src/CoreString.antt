-- ===== src/CoreString.antt =====
-- src/core/core_string.cpp. A string is the list of its characters before the null character, and
-- an `unsigned char` is a number below 256.
pub mod Compare
pub mod Hex
mod Tests
use Prim.Native.Nat.{bit_or}
use hystack.Prelude.{
  ℕ, zero, suc, ◌+◌, ◌-◌, ◌*◌, ◌^◌, Bool, true, false, ◌&&◌, ◌||◌, Option, none, some, List, [],
  ◌∷◌, ltb, leb, ◌==◌, if◌then◌else◌, length, drop,
}
use hystack.Prelude.Int.{ℤ, pos, ◌-ℤ◌}

-- `(c >= 'A' && c <= 'Z') ? (c | 0x20) : c`
pub fold_case : ℕ → ℕ
fold_case c = if leb 65 c && leb c 90 then bit_or c 0x20 else c

-- The results are `int`s, read from `unsigned int`s below 256.
pub str_case_cmp : List ℕ → List ℕ → ℤ
str_case_cmp [] [] = pos 0
str_case_cmp [] (d ∷ s2) = pos 0 -ℤ pos (fold_case d)
str_case_cmp (c ∷ s1) [] = pos (fold_case c) -ℤ pos 0
str_case_cmp (c ∷ s1) (d ∷ s2) =
    let rest = str_case_cmp s1 s2 in
    if fold_case c == fold_case d then rest else pos (fold_case c) -ℤ pos (fold_case d)

pub str_case_cmp_null : List ℕ → List ℕ → ℕ → ℤ
str_case_cmp_null s1 s2 zero = pos 0
str_case_cmp_null [] [] (suc n) = pos 0
str_case_cmp_null [] (d ∷ s2) (suc n) = pos 0 -ℤ pos (fold_case d)
str_case_cmp_null (c ∷ s1) [] (suc n) = pos (fold_case c) -ℤ pos 0
str_case_cmp_null (c ∷ s1) (d ∷ s2) (suc n) =
    let rest = str_case_cmp_null s1 s2 n in
    if fold_case c == fold_case d then rest else pos (fold_case c) -ℤ pos (fold_case d)

-- The test of the loop, and what the digit counts.
pub digit_of : ℕ → Option ℕ
digit_of c =
    if leb 48 c && leb c 57
    then some (c - 48)
    else if leb 97 c && leb c 102
    then some (10 + c - 97)
    else if leb 65 c && leb c 70
    then some (10 + c - 65)
    else none

-- The loop, with the digits that `len` leaves; `none` is an overflow of `int`.
pub hex_loop : List ℕ → ℕ → ℕ → Option ℕ
hex_loop [] left n = some n
hex_loop (c ∷ s) left n = elim (digit_of c) [
  | none ↦ some n
  | some d ↦ elim left [
    | zero ↦ some n
    | suc left' ↦
        let rest = hex_loop s left' (16 * n + d) in if ltb (16 * n + d) (2 ^ 31) then rest else none
  ]
]

-- Whether the string begins with `0x` or `0X`.
pub has_prefix : List ℕ → Bool
has_prefix (z ∷ x ∷ s) = (z == 48) && ((x == 120) || (x == 88))
has_prefix (z ∷ []) = false
has_prefix [] = false

-- At a start behind the null character the reading is out of range.
pub hex_toi : List ℕ → ℕ → ℕ → Option ℕ
hex_toi s start len =
    let i = (if has_prefix s then 2 else 0) + start in
    if ltb (length s) i then none else hex_loop (drop i s) len 0
