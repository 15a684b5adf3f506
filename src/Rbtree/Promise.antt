-- ===== src/Rbtree/Promise.antt =====
-- src/kits/event/event_rbtree.cpp: what rbtree_insert promises to a caller who sees the nodes in
-- order.
use hystack.Prelude.{
  ℕ, zero, suc, ◌+◌, ◌*◌, ◌^◌, ◌≤◌, ◌<◌, true, false, List, ◌∷◌, some, ◌≡◌, ap, arith, length,
  length-append,
}
use native.Mathlib.Numerals.{towards_suc}
use native.Mathlib.Decide.{dec_lt}
use hystack.Rbtree.{Node, Heap, rbtree_insert}
use hystack.Rbtree.Shape.{Tree, leaf, node, in_order, depth}
use hystack.Rbtree.Colors.{is_red}
use hystack.Rbtree.Descent.{inserted}
use hystack.Rbtree.Grow.{Keeps, new_base, rbtree_insert-inserted}
use hystack.Rbtree.Order.{placed, IsSorted, in_order-inserted, placed-IsSorted}
use hystack.Rbtree.Shades.{IsFair, shade, black_height, inserted-IsFair}

-- A search tree with the colors of a red-black tree.
pub record IsTidy (t : Tree) : Type 0 where
  pub sorted : IsSorted (in_order t)
  pub fair : IsFair t
  pub black : is_red t ≡ false

pub inserted-IsTidy : (a key : ℕ) (t : Tree) → IsTidy t → IsTidy (inserted a key t)
inserted-IsTidy a key t tidy =
    let (fair, black) = inserted-IsFair a key t tidy.black tidy.fair in
    record {
      sorted =
          rw (in_order-inserted a key t tidy.sorted)
            (placed-IsSorted a key (in_order t) tidy.sorted);
      fair = fair;
      black = black;
    }

depth-le-height : (t : Tree) → IsFair t → depth t + shade (is_red t) ≤ 2 * black_height t + 1
depth-le-height leaf fair = omega arith
depth-le-height (node l a k c r) (same, l-ok, r-ok, fair-l, fair-r) =
    ground (arith, depth-le-height l fair-l, depth-le-height r fair-r)

two-pow-add-one : (n : ℕ) → 2 ^ (n + 1) ≡ 2 * 2 ^ n
two-pow-add-one n = simp towards_suc (omega arith)

add_one : (n : ℕ) → suc n ≡ n + 1
add_one n = omega arith

add-zero : (n : ℕ) → n + 0 ≡ n
add-zero n = omega arith

height-le-size : (t : Tree) → IsFair t → 2 ^ black_height t ≤ length (in_order t) + 1
height-le-size leaf fair = omega arith
height-le-size (node l a k true r) (same, l-ok, r-ok, fair-l, fair-r) = omega (
  arith,
  height-le-size l fair-l,
  ap (λ (n : ℕ). 2 ^ n) (add-zero (black_height l)),
  length-append (in_order l) ((a, k) ∷ in_order r),
)
height-le-size (node l a k false r) (same, l-ok, r-ok, fair-l, fair-r) = omega (
  arith,
  height-le-size l fair-l,
  height-le-size r fair-r,
  ap (λ (n : ℕ). 2 ^ n) same,
  two-pow-add-one (black_height l),
  length-append (in_order l) ((a, k) ∷ in_order r),
)

pow_pos : (n : ℕ) → 1 ≤ 2 ^ n
pow_pos zero = omega arith
pow_pos (suc n) = omega (arith, pow_pos n, two-pow-add-one n, ap (λ (m : ℕ). 2 ^ m) (add_one n))

pow_mono : (m n : ℕ) → m ≤ n → 2 ^ m ≤ 2 ^ n
pow_mono zero n le = omega (arith, pow_pos n)
pow_mono (suc m) zero le = absurd (omega arith)
pow_mono (suc m) (suc n) le = omega (
  arith,
  pow_mono m n (omega arith),
  two-pow-add-one m,
  two-pow-add-one n,
  ap (λ (k : ℕ). 2 ^ k) (add_one m),
  ap (λ (k : ℕ). 2 ^ k) (add_one n),
)

-- A tidy tree is no deeper than twice the logarithm of the number of its nodes.
pub depth-le-log :
    (b : ℕ) (t : Tree) → IsTidy t → length (in_order t) + 1 < 2 ^ suc b → depth t ≤ 2 * b
depth-le-log b t tidy few = elim (dec_lt b (black_height t)) [
  | yes high ↦
      absurd
        (omega (arith, height-le-size t tidy.fair, pow_mono (suc b) (black_height t) (omega arith)))
  | no low ↦ ground (arith, depth-le-height t tidy.fair, tidy.black)
]

-- Let the memory hold a tidy tree, a black sentinel, the node `n` at `a` and other nodes, all at
-- different addresses, and let the fuel exceed twice a number `b` with fewer than 2 ^ (b + 1) - 1 nodes in the tree. Then `rbtree_insert` of `a`
-- ends, and the memory holds a tidy tree in which `a` stands before the first node with a greater
-- key and all other nodes are in the order that they had, the sentinel, and the other nodes.
pub rbtree_insert-placed :
    (s base fuel b a : ℕ) (n ns : Node) (others : List (ℕ × Node)) (h : Heap) (t : Tree)
    → ns.red ≡ false
    → IsTidy t
    → length (in_order t) + 1 < 2 ^ suc b
    → 2 * b < fuel
    → Keeps s base ns ((a, n) ∷ others) h t
    → (h' : Heap) × (t' : Tree) × (rbtree_insert s fuel a h ≡ some (tt, h'))
      × Keeps s (new_base base t) ns others h' t'
      × IsTidy t'
      × (in_order t' ≡ placed a n.key (in_order t))
rbtree_insert-placed s base fuel b a n ns others h t black tidy few enough H =
    let (h', run, H') =
      rbtree_insert-inserted s base fuel a n ns others h t black tidy.black
        (omega (arith, depth-le-log b t tidy few)) H in
    (
      h',
      inserted a n.key t,
      run,
      H',
      inserted-IsTidy a n.key t tidy,
      in_order-inserted a n.key t tidy.sorted,
    )
