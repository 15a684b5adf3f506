-- ===== src/CoreString/Hex.antt =====
-- hex_toi reads back what is spelled in hexadecimal digits.
use hystack.Prelude.{
  ℕ, zero, suc, ◌+◌, ◌*◌, ◌^◌, ◌<◌, ◌≤◌, ◌≡◌, refl, true, false, some, List, [], ◌∷◌, map, take,
  length, arith, ltb, if◌then◌else◌, All,
}
use hystack.CoreString.{digit_of, hex_loop, has_prefix, hex_toi}

-- A digit, in lower case.
unfoldable pub spell : ℕ → ℕ
spell d = if ltb d 10 then 48 + d else 87 + d

-- The number that digits stand for, behind another.
unfoldable pub value : ℕ → List ℕ → ℕ
value n [] = n
value n (d ∷ ds) = value (16 * n + d) ds

digit_of-spell : (d : ℕ) → d < 16 → digit_of (spell d) ≡ some d
unfolding digit_of spell
digit_of-spell d p = ground arith

value-grows : (n : ℕ) (ds : List ℕ) → n ≤ value n ds
unfolding value
value-grows n [] = omega arith
value-grows n (d ∷ ds) = omega (arith, value-grows (16 * n + d) ds)

hex_loop-spell :
    (ds : List ℕ) (len n : ℕ)
    → All (λ d. d < 16) ds
    → value n (take len ds) < 2 ^ 31
    → hex_loop (map spell ds) len n ≡ some (value n (take len ds))
unfolding hex_loop value
hex_loop-spell [] zero n a p = refl
hex_loop-spell [] (suc len) n a p = refl
hex_loop-spell (d ∷ ds) zero n (h, a) p = rw (hex_loop, digit_of-spell d h) refl
hex_loop-spell (d ∷ ds) (suc len) n (h, a) p =
    let fits : ltb (16 * n + d) (2 ^ 31) ≡ true =
      ground (arith, p, value-grows (16 * n + d) (take len ds)) in
    rw (hex_loop, digit_of-spell d h, fits) (hex_loop-spell ds len (16 * n + d) a p)

no_prefix : (ds : List ℕ) → All (λ d. d < 16) ds → has_prefix (map spell ds) ≡ false
unfolding has_prefix spell
no_prefix [] a = refl
no_prefix (d ∷ []) a = refl
no_prefix (d ∷ e ∷ ds) (p, (q, a)) = ground (arith, p, q)

-- Of digits spelled in lower case, hex_toi reads the first `len` as their number, if that is an
-- `int`; a prefix 0x changes nothing.
pub hex_toi-spell :
    (ds : List ℕ) (len : ℕ)
    → All (λ d. d < 16) ds
    → value 0 (take len ds) < 2 ^ 31
    → (hex_toi (map spell ds) 0 len ≡ some (value 0 (take len ds)))
      × (hex_toi (48 ∷ 120 ∷ map spell ds) 0 len ≡ some (value 0 (take len ds)))
unfolding hex_toi has_prefix
hex_toi-spell ds len a p =
    let inside : ltb (length (map spell ds)) 0 ≡ false = ground arith in
    let inside' : ltb (length (48 ∷ 120 ∷ map spell ds)) 2 ≡ false = ground arith in
    (
      rw (hex_toi, no_prefix ds a, inside) (hex_loop-spell ds len 0 a p),
      rw (hex_toi, inside') (hex_loop-spell ds len 0 a p),
    )
