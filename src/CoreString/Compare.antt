-- ===== src/CoreString/Compare.antt =====
-- The comparisons find strings equal that are so up to the case of letters.
use hystack.Prelude.{
  ℕ, zero, suc, ◌+◌, ◌≤◌, ◌<◌, ◌⊎◌, ◌||◌, sym, ◌≡◌, refl, ap, true, List, [], ◌∷◌, take, arith, not,
  ◌==◌, All, Bool-cases, inl, inr, ◌↔◌, leb, ◌&&◌, ==_iff,
}
use hystack.Prelude.Int.{pos, ◌-ℤ◌}
use Prim.Native.Nat.{bit_or}
use hystack.Prelude.Bits.{holds_below, holds_below_sound}
use hystack.CoreString.{fold_case, str_case_cmp, str_case_cmp_null}

-- Comparing at most n characters is comparing the first n.
pub str_case_cmp_null-take :
    (s1 s2 : List ℕ) (n : ℕ) → str_case_cmp_null s1 s2 n ≡ str_case_cmp (take n s1) (take n s2)
unfolding str_case_cmp str_case_cmp_null
str_case_cmp_null-take s1 s2 zero = refl
str_case_cmp_null-take [] [] (suc n) = refl
str_case_cmp_null-take [] (d ∷ s2) (suc n) = refl
str_case_cmp_null-take (c ∷ s1) [] (suc n) = refl
str_case_cmp_null-take (c ∷ s1) (d ∷ s2) (suc n) = rw (str_case_cmp_null-take s1 s2 n) refl

-- The same character, or the two cases of a letter from A to Z.
abbrev pub IsSameLetter : ℕ → ℕ → Type 0
IsSameLetter c d =
    (c ≡ d) ⊎ (((65 ≤ c) × (c ≤ 90) × (d ≡ c + 32)) ⊎ ((65 ≤ d) × (d ≤ 90) × (c ≡ d + 32)))

abbrev pub AgreeUpToCase : List ℕ → List ℕ → Type 0
AgreeUpToCase [] [] = Unit
AgreeUpToCase [] (d ∷ s2) = ⊥
AgreeUpToCase (c ∷ s1) [] = ⊥
AgreeUpToCase (c ∷ s1) (d ∷ s2) = IsSameLetter c d × AgreeUpToCase s1 s2

folded : holds_below (λ c. not (leb 65 c && leb c 90) || (bit_or c 0x20 == c + 32)) 91 ≡ true
unfolding holds_below
folded = refl

-- The two branches of `fold_case`.
fold_case-cases :
    (c : ℕ)
    → ((65 ≤ c) × (c ≤ 90) × (fold_case c ≡ c + 32)) ⊎ (((c < 65) ⊎ (90 < c)) × (fold_case c ≡ c))
unfolding fold_case
fold_case-cases c = elim (Bool-cases (leb 65 c && leb c 90)) [
  | inl e ↦
      let below : c < 91 = ground (arith, e) in
      let t =
        holds_below_sound (λ c. not (leb 65 c && leb c 90) || (bit_or c 0x20 == c + 32)) 91 c below
          folded in
      inl (ground (arith, e), ground (arith, e), rw e (ground (arith, t, e)))
  | inr e ↦ inr (ground (arith, e), rw e refl)
]

fold_case-pos : (c : ℕ) → 0 < c → 0 < fold_case c
fold_case-pos c p = elim (fold_case-cases c) [
  | inl (low, high, e) ↦ omega (arith, e)
  | inr (other, e) ↦ omega (arith, e, p)
]

fold_case-same : (c d : ℕ) → (fold_case c ≡ fold_case d) ↔ IsSameLetter c d
fold_case-same c d = (to, from)
  where
    to : fold_case c ≡ fold_case d → IsSameLetter c d
    to e = elim (fold_case-cases c) [
      | inl (low, high, f) ↦ elim (fold_case-cases d) [
        | inl (low', high', g) ↦ inl (omega (arith, e, f, g))
        | inr (other, g) ↦ inr (inl (low, high, omega (arith, e, f, g)))
      ]
      | inr (other, f) ↦ elim (fold_case-cases d) [
        | inl (low', high', g) ↦ inr (inr (low', high', omega (arith, e, f, g)))
        | inr (other', g) ↦ inl (omega (arith, e, f, g))
      ]
    ]

    -- A capital letter and the small one.
    capital : (a b : ℕ) → 65 ≤ a → a ≤ 90 → b ≡ a + 32 → fold_case a ≡ fold_case b
    capital a b low high e = elim (fold_case-cases a) [
      | inr (other, f) ↦ absurd (omega (arith, other))
      | inl (_, _, f) ↦ elim (fold_case-cases b) [
        | inl (_, high', g) ↦ absurd (omega arith)
        | inr (other, g) ↦ omega (arith, f, g)
      ]
    ]

    from : IsSameLetter c d → fold_case c ≡ fold_case d
    from (inl e) = ap fold_case e
    from (inr (inl (low, high, e))) = capital c d low high e
    from (inr (inr (low, high, e))) = sym (capital d c low high e)

sub_zero : (a b : ℕ) → pos a -ℤ pos b ≡ pos 0 → a ≡ b
unfolding ◌-ℤ◌
sub_zero a b e = ground (arith, e)

-- Two strings without null characters compare as 0 just when they are as long and agree, character by
-- character, up to the case of the letters from A to Z.
pub str_case_cmp_zero :
    (s1 s2 : List ℕ)
    → All (λ c. 0 < c) s1
    → All (λ c. 0 < c) s2
    → (str_case_cmp s1 s2 ≡ pos 0) ↔ AgreeUpToCase s1 s2
unfolding str_case_cmp
str_case_cmp_zero [] [] a b = (λ e. tt, λ e. refl)
str_case_cmp_zero [] (d ∷ s2) a (p, b) =
    (λ e. omega (arith, sub_zero 0 (fold_case d) e, fold_case-pos d p), λ e. absurd e)
str_case_cmp_zero (c ∷ s1) [] (p, a) b =
    (λ e. omega (arith, sub_zero (fold_case c) 0 e, fold_case-pos c p), λ e. absurd e)
str_case_cmp_zero (c ∷ s1) (d ∷ s2) (p, a) (q, b) =
    let (to, from) = str_case_cmp_zero s1 s2 a b in
    let (head_to, head_from) = fold_case-same c d in
    elim (Bool-cases (fold_case c == fold_case d)) [
      | inl e ↦ rw (str_case_cmp, e) (λ z. (head_to ((==_iff _ _).0 e), to z), λ z. from z.1)
      | inr e ↦
          rw (str_case_cmp, e)
            (
              λ z. absurd (ground (arith, e, sub_zero (fold_case c) (fold_case d) z)),
              λ z. absurd (ground (arith, e, head_from z.0)),
            )
    ]
