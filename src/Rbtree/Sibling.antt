-- ===== src/Rbtree/Sibling.antt =====
-- src/kits/event/event_rbtree.cpp: a turn of the loop of rbtree_delete at a black sibling.
use hystack.Prelude.{
  ℕ, suc, ◌+◌, Bool, true, false, ◌&&◌, List, ◌≡◌, refl, ap, ◌∙◌, arith, sym, inl, inr, Bool-cases,
}
use mathlib.Core.Path.{subst}
use hystack.Rbtree.{Node, Side, left, right, other}
use hystack.Rbtree.Delete.{settle, fixup}
use hystack.Rbtree.Shape.{Tree, leaf, node, Frame, mk, plug, addr, in_order}
use hystack.Rbtree.Owns.{Part}
use hystack.Rbtree.Zipper.{zip}
use hystack.Rbtree.Colors.{is_red, paint, near}
use hystack.Rbtree.Balance.{mk-near}
use hystack.Rbtree.Order.{in_order-plug}
use hystack.Rbtree.Shades.{IsFair, shade, black_height, up_red, Suits}
use hystack.Rbtree.Beside.{Anchored, beside}
use hystack.Rbtree.Settle.{settle_up-Spec}
use hystack.Rbtree.Mend.{Mends, Goes, go_far, go_near, order_up}

pub paint-black : (t : Tree) → is_red t ≡ false → paint false t ≡ t
paint-black leaf e = refl
paint-black (node l a k c r) e = rw e

-- The parts of the tree after a turn in which both children of the sibling are black.
pub up_parts :
    (d : Side) (t : Tree) (a ka : ℕ) (ca : Bool) (n2 : Tree) (b kb : ℕ) (n3 : Tree)
    → IsFair t
    → IsFair n2
    → IsFair n3
    → is_red n2 ≡ false
    → is_red n3 ≡ false
    → black_height n2 ≡ black_height t
    → black_height n3 ≡ black_height t
    → let t' = mk d t a ka ca (mk d n2 b kb true n3) in
      IsFair (paint false t') × (black_height t' ≡ black_height t + shade ca) × (is_red t' ≡ ca)
up_parts left t a ka ca n2 b kb n3 ft f2 f3 b2 b3 h2 h3 = ground arith
up_parts right t a ka ca n2 b kb n3 ft f2 f3 b2 b3 h2 h3 = ground arith

pub swap_add : (m n : ℕ) → m + 1 + n ≡ m + n + 1
swap_add m n = omega arith

-- The parts of a sibling.
pub parts_of :
    (d : Side) (n2 : Tree) (b kb : ℕ) (c : Bool) (n3 : Tree) (n : ℕ)
    → IsFair (mk d n2 b kb c n3)
    → black_height (mk d n2 b kb c n3) ≡ n
    → IsFair n2
      × IsFair n3
      × (black_height n2 + shade c ≡ n)
      × (black_height n3 + shade c ≡ n)
      × ((c && is_red n2) ≡ false)
      × ((c && is_red n3) ≡ false)
parts_of left n2 b kb c n3 n fair h = ground arith
parts_of right n2 b kb c n3 n fair h = ground arith

module _ (s base : ℕ) (ns : Node) (js : List Part) (black : ns.red ≡ false) (fuel : ℕ) (d : Side)
    (t : Tree) (a ka : ℕ) (ca : Bool) (b kb : ℕ) (fs : List Frame) (anchored : Anchored ns a t)
    (fair-t : IsFair t) (up : (ca && up_red fs) ≡ false)
    (suits : Suits (black_height t + 1 + shade ca) fs) where
  abbrev tree_up : Tree → Tree → Tree
  tree_up n2 n3 = mk d t a ka ca (mk d n2 b kb true n3)

  go_up :
      (n2 n3 : Tree)
      → is_red n2 ≡ false
      → is_red n3 ≡ false
      → Mends s base ns js black
          (fixup s (suc fuel) a)
          (zip s base ns js (tree_up n2 n3) fs)
          (in_order (plug (tree_up n2 n3) fs))
      → Goes s base ns js black
          (settle s d (addr s t) b)
          (beside s base ns js d t a ka ca n2 b kb false n3 fs)
          (suc fuel)
          (in_order (plug (mk d t a ka ca (mk d n2 b kb false n3)) fs))
  go_up n2 n3 b2 b3 rest = record {
    next = a;
    mid = zip s base ns js (tree_up n2 n3) fs;
    spec = settle_up-Spec s base ns js black d t a ka ca anchored n2 b kb n3 fs b2 b3;
    rest =
        subst
          (λ (nodes : List (ℕ × ℕ)).
            Mends s base ns js black (fixup s (suc fuel) a) (zip s base ns js (tree_up n2 n3) fs)
              nodes)
          (in_order-plug (tree_up n2 n3) (mk d t a ka ca (mk d n2 b kb false n3)) fs
            (order_up d t a ka ca n2 b kb n3))
          rest;
  }

  -- One turn at a black sibling.
  pub go_beside :
      (n2 n3 : Tree)
      → IsFair n2
      → IsFair n3
      → black_height n2 ≡ black_height t
      → black_height n3 ≡ black_height t
      → (is_red n2 ≡ false
          → is_red n3 ≡ false
          → Mends s base ns js black
              (fixup s (suc fuel) a)
              (zip s base ns js (tree_up n2 n3) fs)
              (in_order (plug (tree_up n2 n3) fs)))
      → Goes s base ns js black
          (settle s d (addr s t) b)
          (beside s base ns js d t a ka ca n2 b kb false n3 fs)
          (suc fuel)
          (in_order (plug (mk d t a ka ca (mk d n2 b kb false n3)) fs))
  go_beside n2 n3 f2 f3 h2 h3 rest = elim (Bool-cases (is_red n3)) [
    | inl red ↦
        go_far s base ns js black fuel d t a ka ca b kb fs anchored fair-t up suits n2 n3 f2 f3 h2
          h3 red
    | inr b3 ↦ by_near n2 f2 h2 b3 rest
  ]
    where
      by_near :
          (n2 : Tree)
          → IsFair n2
          → black_height n2 ≡ black_height t
          → is_red n3 ≡ false
          → (is_red n2 ≡ false
              → is_red n3 ≡ false
              → Mends s base ns js black
                  (fixup s (suc fuel) a)
                  (zip s base ns js (tree_up n2 n3) fs)
                  (in_order (plug (tree_up n2 n3) fs)))
          → Goes s base ns js black
              (settle s d (addr s t) b)
              (beside s base ns js d t a ka ca n2 b kb false n3 fs)
              (suc fuel)
              (in_order (plug (mk d t a ka ca (mk d n2 b kb false n3)) fs))
      by_near leaf f2 h2 b3 rest = go_up leaf n3 refl b3 (rest refl b3)
      by_near (node l e ke false r) f2 h2 b3 rest =
          go_up (node l e ke false r) n3 refl b3 (rest refl b3)
      by_near (node l e ke true r) f2 h2 b3 rest =
          let same = mk-near d l e ke true r in
          subst
            (λ (u : Tree).
              Goes s base ns js black (settle s d (addr s t) b)
                (beside s base ns js d t a ka ca u b kb false n3 fs) (suc fuel)
                (in_order (plug (mk d t a ka ca (mk d u b kb false n3)) fs)))
            (sym same)
            (go_near s base ns js black fuel d t a ka ca b kb fs anchored fair-t up suits
              (near d l r) e ke (near (other d) l r) n3 (subst IsFair same f2) f3
              (ap black_height (sym same) ∙ h2) h3 b3)
