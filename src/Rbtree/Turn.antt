-- ===== src/Rbtree/Turn.antt =====
-- src/kits/event/event_rbtree.cpp: one turn of the loop of rbtree_delete.
use hystack.Prelude.{
  ℕ, suc, ◌+◌, ◌≤◌, Bool, true, false, List, [], ◌∷◌, ◌==◌, if◌then◌else◌, ◌≡◌, refl, ◌∙◌, arith,
}
use hystack.Rbtree.{Node, Side, left, right, ◌>>=◌}
use hystack.Rbtree.Delete.{lift_red, settle, fixup_step, fixup}
use hystack.Rbtree.Shape.{
  Tree, leaf, node, Frame, plug, addr, up, top, side_cell, hit, count, count_path,
}
use hystack.Rbtree.Owns.{Part, State, Spec}
use hystack.Rbtree.Rules.{
  bind-Spec, known-Spec, result-Spec, then-Spec, else-Spec, get_root-Spec, eq_self,
}
use hystack.Rbtree.Rotate.{child_far, load_head-Spec}
use hystack.Rbtree.Zipper.{zip, move_top}
use hystack.Rbtree.Colors.{IsNode, is_red, paint, root_cell-red, load_root-Spec, paint-Spec}
use hystack.Rbtree.Balance.{red-IsNode, addr-paint}
use hystack.Rbtree.Beside.{Anchored, Anchored-parent}
use hystack.Rbtree.Rotate.{top-on-path}
use hystack.Rbtree.Balance.{addr-ne}

pub not_root :
    (s : ℕ) (t : Tree) (f : Frame) (fs : List Frame)
    → ((x : ℕ) → count x t + count_path x (f ∷ fs) + hit x s ≤ 1)
    → (addr s t == top (addr s t) (f ∷ fs)) ≡ false
not_root s leaf f fs apart = ground (arith, top-on-path s f fs, apart s)
not_root s (node l a k c r) f fs apart = ground (arith, top-on-path a f fs, apart a)

eq_sym : (x y : ℕ) → (x == y) ≡ (y == x)
eq_sym x y = ground arith

-- The side of a tree under its parent.
side_here :
    (d : Side) (p k q far : ℕ) (c : Bool)
    → (p == far) ≡ false
    → (if p == (side_cell d p k q c far).left then left else right) ≡ d
side_here left p k q far c ne = ground arith
side_here right p k q far c ne = ground arith

module _ (s base : ℕ) (ns : Node) (js : List Part) (black : ns.red ≡ false) where
  pub fixup_root-Spec :
      (fuel : ℕ) (t : Tree)
      → IsNode t
      → Spec s base
          (fixup s (suc fuel) (addr s t))
          (zip s base ns js t [])
          tt
          (zip s base ns js (paint false t) [])
  unfolding fixup
  fixup_root-Spec fuel t is = bind-Spec _ get_root-Spec (
      then-Spec (addr s t == addr s t) _ _ (eq_self (addr s t))
        (result-Spec (paint-Spec 0 base t false is refl) (λ h H. rw (addr-paint s false t) H)))

  module _ (t : Tree) (f : Frame) (fs : List Frame) (anchored : Anchored ns f.at t) where
    pub fixup_red-Spec :
        (fuel : ℕ)
        → is_red t ≡ true
        → Spec s base
            (fixup s (suc fuel) (addr s t))
            (zip s base ns js t (f ∷ fs))
            tt
            (zip s base ns js (plug (paint false t) (f ∷ fs)) [])
    unfolding fixup
    fixup_red-Spec fuel red =
        known-Spec (λ h H. not_root s t f fs (λ x. omega (arith, H.apart x)))
          (λ below. bind-Spec _ get_root-Spec (
            else-Spec (addr s t == top f.at fs) _ _ below (
              bind-Spec _ (load_root-Spec 0 f.at t refl 2 ns refl) (
                rw (root_cell-red s ns f.at t black) (
                  then-Spec (is_red t) _ _ red (
                    result-Spec (paint-Spec 0 f.at t false (red-IsNode t red) refl) (λ h H.
                      move_top s base ns js h (paint false t) (f ∷ fs)
                        (rw (addr-paint s false t) H))))))))

    pub fixup_black-Spec :
        (fuel next : ℕ) {Q R : State}
        → is_red t ≡ false
        → Spec s base (fixup_step s (addr s t)) (zip s base ns js t (f ∷ fs)) next Q
        → Spec s base (fixup s fuel next) Q tt R
        → Spec s base (fixup s (suc fuel) (addr s t)) (zip s base ns js t (f ∷ fs)) tt R
    unfolding fixup
    fixup_black-Spec fuel next t-black turn rest =
        known-Spec (λ h H. not_root s t f fs (λ x. omega (arith, H.apart x)))
          (λ below. bind-Spec _ get_root-Spec (
            else-Spec (addr s t == top f.at fs) _ _ below (
              bind-Spec _ (load_root-Spec 0 f.at t refl 2 ns refl) (
                rw (root_cell-red s ns f.at t black)
                  (else-Spec (is_red t) _ _ t-black (bind-Spec _ turn rest))))))

    pub step_into-Spec :
        (next : ℕ) {Q : State}
        → IsNode f.sib
        → Spec s base
            (do w ← lift_red s f.side (addr s t) (addr s f.sib); settle s f.side (addr s t) w)
            (zip s base ns js t (f ∷ fs))
            next
            Q
        → Spec s base (fixup_step s (addr s t)) (zip s base ns js t (f ∷ fs)) next Q
    unfolding fixup_step
    step_into-Spec next is rest =
        known-Spec
          (λ h H.
            eq_sym (addr s t) (addr s f.sib)
            ∙ addr-ne s f.sib t is (omega (arith, H.apart (addr s f.sib))))
          (λ ne. bind-Spec _ (load_root-Spec 0 f.at t refl 2 ns refl) (
            rw (Anchored-parent s ns f.at t anchored) (
              bind-Spec _ (load_head-Spec 1 (addr s t) f fs refl) (
                rw
                  (
                    side_here f.side (addr s t) f.key (up base fs) (addr s f.sib) f.red ne,
                    child_far f.side (addr s t) f.key (up base fs) (addr s f.sib) f.red,
                  )
                  rest))))
