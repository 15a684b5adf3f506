-- ===== src/Rbtree/Beside.antt =====
-- src/kits/event/event_rbtree.cpp: the steps of the loop of rbtree_delete, at a tree `t` on the side
-- `d` of the node `a` whose other child is the node `b`.
use hystack.Prelude.{ℕ, Bool, List, ◌∷◌, some, ◌≡◌, refl, ap, ◌∙◌, arith, sym}
use mathlib.Core.Path.{subst}
use hystack.Rbtree.{Node, Heap, Side, left, right, other}
use hystack.Rbtree.Shape.{Tree, leaf, node, Frame, mk, addr, up, side_cell}
use hystack.Rbtree.Owns.{Part, State, Holds}
use hystack.Rbtree.Rotate.{before}
use hystack.Rbtree.Zipper.{zip, move_up, move_down, Stands-mk, mk-Stands, addr-mk, count-mk}
use hystack.Rbtree.Colors.{root_cell}

-- A read of the root of `t` shows the parent `q`, also where `t` is empty.
abbrev pub Anchored : Node → ℕ → Tree → Type 0
Anchored ns q leaf = ns.parent ≡ q
Anchored ns q (node l a k c r) = Unit

pub Anchored-parent :
    (s : ℕ) (ns : Node) (q : ℕ) (t : Tree) → Anchored ns q t → (root_cell s ns q t).parent ≡ q
Anchored-parent s ns q leaf anchored = anchored
Anchored-parent s ns q (node l a k c r) anchored = refl

pub mk-other :
    (d : Side) (t : Tree) (a k : ℕ) (c : Bool) (u : Tree) → mk (other d) t a k c u ≡ mk d u a k c t
mk-other left t a k c u = refl
mk-other right t a k c u = refl

module _ (s base : ℕ) (ns : Node) (js : List Part) where
  -- The tree with its parent and its sibling.
  abbrev pub beside : Side → Tree → ℕ → ℕ → Bool → Tree → ℕ → ℕ → Bool → Tree → List Frame → State
  beside d t a ka ca n2 b kb cb n3 fs =
      zip s base ns js t
        (record { side = d; at = a; key = ka; red = ca; sib = mk d n2 b kb cb n3 } ∷ fs)

  module _ (h : Heap) (d : Side) (t : Tree) (a ka : ℕ) (ca : Bool) where
    -- The sibling and the tree change places.
    pub cross :
        (w : Tree) (fs : List Frame)
        → Holds s base h
            (zip s base ns js t (record { side = d; at = a; key = ka; red = ca; sib = w } ∷ fs))
        → Holds s base h (
            zip s base ns js w
              (record { side = other d; at = a; key = ka; red = ca; sib = t } ∷ fs))
    cross w fs H = move_down s base ns js h (other d) w a ka ca t fs (
        subst (λ (u : Tree). Holds s base h (zip s base ns js u fs)) (sym (mk-other d w a ka ca t))
          (move_up s base ns js h t (record { side = d; at = a; key = ka; red = ca; sib = w }) fs
            H))

    module _ (n2 : Tree) (b kb : ℕ) (cb : Bool) (n3 : Tree) (fs : List Frame) where
      pub enter_beside :
          Holds s base h (beside d t a ka ca n2 b kb cb n3 fs)
          → Holds s base h (before s base d a b ka kb ca cb t n2 n3 fs ns js)
      enter_beside H =
          let (t-Is, ((a-Is, w-Is, fs-Is), rest)) = H.owned in
          let (b-Is, n2-Is, n3-Is) = Stands-mk s base h.cell a n2 b kb cb n3 d w-Is in
          record {
            root_is = H.root_is;
            owned = (
              a-Is
                  ∙ ap (λ (p : ℕ). some (side_cell d (addr s t) ka (up base fs) ca p))
                      (addr-mk s d n2 b kb cb n3),
              (b-Is, (t-Is, (n2-Is, (n3-Is, (fs-Is, rest))))),
            );
            apart = λ x. omega (arith, count-mk x d n2 b kb cb n3, H.apart x);
          }

      pub leave_beside_it :
          Holds s base h (before s base d a b ka kb ca cb t n2 n3 fs ns js)
          → Holds s base h (beside d t a ka ca n2 b kb cb n3 fs)
      leave_beside_it H =
          let (a-Is, (b-Is, (t-Is, (n2-Is, (n3-Is, (fs-Is, rest)))))) = H.owned in
          record {
            root_is = H.root_is;
            owned = (
              t-Is,
              (
                (
                  a-Is
                      ∙ ap (λ (p : ℕ). some (side_cell d (addr s t) ka (up base fs) ca p))
                          (sym (addr-mk s d n2 b kb cb n3)),
                  mk-Stands s base h.cell a n2 b kb cb n3 d (b-Is, n2-Is, n3-Is),
                  fs-Is,
                ),
                rest,
              ),
            );
            apart = λ x. omega (arith, count-mk x d n2 b kb cb n3, H.apart x);
          }
