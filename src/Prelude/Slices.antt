-- ===== src/Prelude/Slices.antt =====
-- Arrays that `memcpy` moves blocks between.
use Prim.Native.Nat.{ℕ, zero, suc, ◌+◌, ◌-◌, ◌≤◌, ◌<◌}
use mathlib.Core.Path.{◌≡◌, refl, ap, ap₂, ◌∙◌}
use mathlib.Core.Bool.{◌&&◌}
use mathlib.Core.List.{List, [], ◌∷◌, ◌++◌}
use mathlib.Core.Option.{Option, none, some}
use native.Mathlib.Nat.{zero-add, suc-add}
use native.Mathlib.Omega.{arith}
use hystack.Prelude.Tests.{leb, le→leb, if◌then◌else◌}
use hystack.Prelude.Lists.{
  length, get_or, take, drop, tabulate, length-append, length-take, length-drop, take-all,
}

module _ {ℓ} {A : Type ℓ} where
  pub tabulate_ext :
      (n : ℕ) (f g : ℕ → A) → ((i : ℕ) → i < n → f i ≡ g i) → tabulate n f ≡ tabulate n g
  tabulate_ext zero f g h = refl
  tabulate_ext (suc n) f g h =
      ap₂ ◌∷◌ (h 0 (omega arith))
        (tabulate_ext n (λ i. f (suc i)) (λ i. g (suc i)) (λ i p. h (suc i) (omega arith)))

  pub tabulate-add :
      (m n : ℕ) (f : ℕ → A) → tabulate (m + n) f ≡ tabulate m f ++ tabulate n (λ i. f (m + i))
  tabulate-add zero n f = simp zero-add
  tabulate-add (suc m) n f = simp suc-add (ap (λ l. f 0 ∷ l) (tabulate-add m n (λ i. f (suc i))))

  pub length-tabulate : (n : ℕ) (f : ℕ → A) → length (tabulate n f) ≡ n
  length-tabulate zero f = refl
  length-tabulate (suc n) f = ap suc (length-tabulate n (λ i. f (suc i)))

  pub take-tabulate :
      (xs : List A) (n : ℕ) (d : A) → n ≤ length xs → take n xs ≡ tabulate n (λ i. get_or xs i d)
  take-tabulate xs zero d h = refl
  take-tabulate [] (suc n) d h = absurd (omega arith)
  take-tabulate (x ∷ xs) (suc n) d h = ap (λ l. x ∷ l) (take-tabulate xs n d (omega arith))

  -- The contents of `dst` after a `memcpy` of `xs` to `dst + off`.
  abbrev pub splice : List A → ℕ → List A → List A
  splice dst off xs = take off dst ++ (xs ++ drop (off + length xs) dst)

  -- `memcpy(dst + off, src + start, n)`: a read or a write out of range is a fault.
  unfoldable pub memcpy : List A → ℕ → List A → ℕ → ℕ → Option (List A)
  memcpy dst off src start n =
      if leb (off + n) (length dst) && leb (start + n) (length src)
      then some (splice dst off (take n (drop start src)))
      else none

  get_or-append_left :
      (xs ys : List A) (i : ℕ) (d : A) → i < length xs → get_or (xs ++ ys) i d ≡ get_or xs i d
  get_or-append_left [] ys i d h = absurd (omega arith)
  get_or-append_left (x ∷ xs) ys zero d h = refl
  get_or-append_left (x ∷ xs) ys (suc i) d h = get_or-append_left xs ys i d (omega arith)

  get_or-append_right :
      (xs ys : List A) (i k : ℕ) (d : A) → i ≡ length xs + k → get_or (xs ++ ys) i d ≡ get_or ys k d
  get_or-append_right [] ys i k d e = ap (λ j. get_or ys j d) (omega arith)
  get_or-append_right (x ∷ xs) ys zero k d e = absurd (omega arith)
  get_or-append_right (x ∷ xs) ys (suc i) k d e = get_or-append_right xs ys i k d (omega arith)

  pub get_or-take :
      (n : ℕ) (xs : List A) (i : ℕ) (d : A) → i < n → get_or (take n xs) i d ≡ get_or xs i d
  get_or-take zero xs i d h = absurd (omega arith)
  get_or-take (suc n) [] i d h = refl
  get_or-take (suc n) (x ∷ xs) zero d h = refl
  get_or-take (suc n) (x ∷ xs) (suc i) d h = get_or-take n xs i d (omega arith)

  pub get_or-drop :
      (n : ℕ) (xs : List A) (i : ℕ) (d : A) → get_or (drop n xs) i d ≡ get_or xs (n + i) d
  get_or-drop zero xs i d = simp zero-add
  get_or-drop (suc n) [] i d = refl
  get_or-drop (suc n) (x ∷ xs) i d = simp suc-add (get_or-drop n xs i d)

  module _ (dst : List A) (off : ℕ) (xs : List A) (d : A)
      (fits : off + length xs ≤ length dst) where
    pub length-splice : length (splice dst off xs) ≡ length dst
    length-splice = omega (
      arith,
      length-append (take off dst) (xs ++ drop (off + length xs) dst),
      length-append xs (drop (off + length xs) dst),
      length-take off dst,
      length-drop (off + length xs) dst,
    )

    -- What a copy leaves alone, and what it writes.
    pub splice_before : (i : ℕ) → i < off → get_or (splice dst off xs) i d ≡ get_or dst i d
    splice_before i h =
        get_or-append_left (take off dst) _ i d (omega (arith, length-take off dst))
        ∙ get_or-take off dst i d h

    pub splice_inside :
        (i k : ℕ) → i ≡ off + k → k < length xs → get_or (splice dst off xs) i d ≡ get_or xs k d
    splice_inside i k e h =
        get_or-append_right (take off dst) _ i k d (omega (arith, length-take off dst))
        ∙ get_or-append_left xs _ k d h

    pub splice_after :
        (i : ℕ) → off + length xs ≤ i → get_or (splice dst off xs) i d ≡ get_or dst i d
    splice_after i h =
        get_or-append_right (take off dst) _ i (i - off) d (omega (arith, length-take off dst))
        ∙ (get_or-append_right xs _ (i - off) (i - off - length xs) d (omega arith)
            ∙ (get_or-drop (off + length xs) dst (i - off - length xs) d
                ∙ ap (λ j. get_or dst j d) (omega arith)))

  -- In range, a copy is a splice.
  pub memcpy_lem :
      (dst : List A) (off : ℕ) (src : List A) (start n : ℕ)
      → off + n ≤ length dst
      → start + n ≤ length src
      → memcpy dst off src start n ≡ some (splice dst off (take n (drop start src)))
  unfolding memcpy
  memcpy_lem dst off src start n h k = rw (le→leb _ _ h, le→leb _ _ k)

  pub take_of_tabulate : (n m : ℕ) (f : ℕ → A) → n ≤ m → take n (tabulate m f) ≡ tabulate n f
  take_of_tabulate zero m f h = refl
  take_of_tabulate (suc n) zero f h = absurd (omega arith)
  take_of_tabulate (suc n) (suc m) f h =
      ap (λ l. f 0 ∷ l) (take_of_tabulate n m (λ i. f (suc i)) (omega arith))

  -- A block read out of an array.
  pub block-tabulate :
      (xs : List A) (off n : ℕ) (d : A)
      → off + n ≤ length xs
      → take n (drop off xs) ≡ tabulate n (λ i. get_or xs (off + i) d)
  block-tabulate xs off n d h =
      take-tabulate (drop off xs) n d (omega (arith, length-drop off xs))
      ∙ tabulate_ext n _ _ (λ i _. get_or-drop off xs i d)

  -- A whole source copied to the front.
  pub splice_front :
      (dst xs : List A) → splice dst 0 (take (length xs) (drop 0 xs)) ≡ xs ++ drop (length xs) dst
  splice_front dst xs = rw take-all (ap (λ k. xs ++ drop k dst) (zero-add (length xs)))
