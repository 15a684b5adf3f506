-- ===== src/Rbtree/Insert.antt =====
-- src/kits/event/event_rbtree.cpp: rbtree_insert from its loop on.
use hystack.Prelude.{
  ℕ, zero, suc, ◌+◌, ◌≤◌, ◌<◌, Bool, true, false, List, [], ◌∷◌, ◌==◌, if◌then◌else◌, ◌≡◌, refl,
  arith, inl, inr, Bool-cases, length,
}
use hystack.Rbtree.{Node, Side, left, right, M, ◌>>=◌, pure, rebalance_step, rebalance}
use hystack.Rbtree.Shape.{
  Tree, leaf, node, Frame, mk, plug, addr, up, top, side_cell, count, count_path,
}
use hystack.Rbtree.Owns.{Part, State, Spec}
use hystack.Rbtree.Rules.{
  bind-Spec, known-Spec, result-Spec, then-Spec, else-Spec, pure-Spec, get_root-Spec, eq_self,
}
use hystack.Rbtree.Rotate.{top-on-path, load_head-Spec}
use hystack.Rbtree.Zipper.{zip, move_top}
use hystack.Rbtree.Colors.{
  IsNode, is_red, paint, straight, recolored, raised, balanced, balanced-black, balanced-recolored,
  balanced-turned, load_root-Spec,
}
use hystack.Rbtree.Balance.{red_step, black_step, mk-IsNode, root_cell-parent, straight-IsNode}

-- The root is black, if the path leads to it from below.
abbrev pub BlackTop : List Frame → Type 0
BlackTop [] = Unit
BlackTop (p ∷ []) = p.red ≡ false
BlackTop (p ∷ g ∷ fs) = BlackTop (g ∷ fs)

pub BlackTop-tail : (g : Frame) (fs : List Frame) → BlackTop (g ∷ fs) → BlackTop fs
BlackTop-tail g [] b = tt
BlackTop-tail g (f ∷ fs) b = b

-- A node below the root is not the root.
pub below_root :
    (s : ℕ) (t : Tree) (f : Frame) (fs : List Frame)
    → IsNode t
    → ((x : ℕ) → count x t + count_path x (f ∷ fs) ≤ 1)
    → (addr s t == top (addr s t) (f ∷ fs)) ≡ false
below_root s leaf f fs is apart = absurd is
below_root s (node l a k c r) f fs is apart = ground (arith, top-on-path a f fs, apart a)

pub red_lem : (side : Side) (near k q far : ℕ) (c : Bool) → (side_cell side near k q c far).red ≡ c
red_lem left near k q far c = refl
red_lem right near k q far c = refl

module _ (s base : ℕ) (ns : Node) (js : List Part) (black : ns.red ≡ false) where
  -- The loop up to the test of the parent's color.
  enter :
      (fuel : ℕ) (t : Tree) (f : Frame) (fs : List Frame) {Q : State}
      → IsNode t
      → Spec s base
          (if f.red
            then (do node' ← rebalance_step s (addr s t) f.at; rebalance s fuel node')
            else pure tt)
          (zip s base ns js t (f ∷ fs))
          tt
          Q
      → Spec s base (rebalance s (suc fuel) (addr s t)) (zip s base ns js t (f ∷ fs)) tt Q
  unfolding rebalance
  enter fuel t f fs is rest =
      known-Spec (λ h H. below_root s t f fs is (λ x. omega (arith, H.apart x)))
        (λ apart. bind-Spec _ get_root-Spec (
          bind-Spec _ (load_root-Spec 0 f.at t refl 2 ns refl) (
            rw (apart, root_cell-parent s ns f.at t is)
              (bind-Spec _ (load_head-Spec 1 (addr s t) f fs refl)
                (rw (red_lem f.side (addr s t) f.key (up base fs) (addr s f.sib) f.red) rest)))))

  at_root :
      (fuel : ℕ) (t : Tree)
      → Spec s base
          (rebalance s (suc fuel) (addr s t))
          (zip s base ns js t [])
          tt
          (zip s base ns js t [])
  unfolding rebalance
  at_root fuel t = bind-Spec _ get_root-Spec (
      bind-Spec _ (load_root-Spec 0 base t refl 2 ns refl)
        (then-Spec (addr s t == addr s t) (pure tt) _ (eq_self (addr s t)) pure-Spec))

  -- Under a black node the loop ends.
  stop :
      (fuel : ℕ) (t : Tree) (f : Frame) (fs : List Frame)
      → 0 < fuel
      → IsNode t
      → f.red ≡ false
      → Spec s base
          (rebalance s fuel (addr s t))
          (zip s base ns js t (f ∷ fs))
          tt
          (zip s base ns js (plug t (f ∷ fs)) [])
  stop zero t f fs some-left is f-black = absurd (omega arith)
  stop (suc fuel) t f fs some-left is f-black = enter fuel t f fs is (
      else-Spec f.red _ (pure tt) f-black
        (result-Spec pure-Spec (λ h. move_top s base ns js h t (f ∷ fs))))

  pub rebalance-Spec :
      (fuel : ℕ) (t : Tree) (fs : List Frame)
      → length fs < fuel
      → IsNode t
      → BlackTop fs
      → Spec s base
          (rebalance s fuel (addr s t))
          (zip s base ns js t fs)
          tt
          (zip s base ns js (balanced t fs) [])
  rebalance-Spec zero t fs le is b = absurd (omega arith)
  rebalance-Spec (suc fuel) t [] le is b = at_root fuel t
  rebalance-Spec (suc fuel) t (p ∷ []) le is b = stop (suc fuel) t p [] (omega arith) is b
  rebalance-Spec (suc fuel) t (p ∷ g ∷ fs) le is b = elim (Bool-cases p.red) [
    | inr p-black ↦
        to (balanced-black t p g fs p-black) (stop (suc fuel) t p (g ∷ fs) (omega arith) is p-black)
    | inl p-red ↦ elim (Bool-cases (is_red g.sib)) [
      | inl red ↦ to (balanced-recolored t p g fs p-red red) (
          enter fuel t p (g ∷ fs) is (
            then-Spec p.red _ (pure tt) p-red (
              bind-Spec _ (red_step s base ns js t p g fs black red) (
                rebalance-Spec fuel (recolored t p g) fs (omega arith)
                  (mk-IsNode g.side (mk p.side t p.at p.key false p.sib) g.at g.key true
                    (paint false g.sib))
                  (BlackTop-tail g fs b)))))
      | inr uncle-black ↦ to (balanced-turned t p g fs p-red uncle-black) (
          enter fuel t p (g ∷ fs) is (
            then-Spec p.red _ (pure tt) p-red (
              bind-Spec _ (black_step s base ns js t p g fs black uncle-black is) (
                stop fuel (straight g.side p.side t p).0
                  (raised g.side (straight g.side p.side t p) g) fs (omega arith)
                  (straight-IsNode g.side p.side t p is) refl))))
    ]
  ]
    where
      to :
          {m : M (Unit {0})} {P : State} {T U : Tree}
          → T ≡ U
          → Spec s base m P tt (zip s base ns js U [])
          → Spec s base m P tt (zip s base ns js T [])
      to e body = rw e body
