-- ===== src/Rbtree/Balance.antt =====
-- src/kits/event/event_rbtree.cpp: the loop of rbtree_insert.
use hystack.Prelude.{
  ℕ, ◌+◌, ◌≤◌, Bool, true, false, List, ◌∷◌, ◌==◌, if◌then◌else◌, ◌≡◌, ◌≢◌, refl, arith, sym,
}
use mathlib.Core.Path.{subst}
use hystack.Rbtree.{
  Node, Side, left, right, other, ◌>>=◌, ◌>>◌, pure, turn_up, straighten, rebalance_step, recolor,
}
use hystack.Rbtree.Shape.{Tree, leaf, node, Frame, mk, addr, up, side_cell, hit, count}
use hystack.Rbtree.Owns.{Part, State, Holds, Spec}
use hystack.Rbtree.Rules.{
  bind-Spec, known-Spec, weaken-Spec, result-Spec, pure-Spec, load-Spec, modify-Spec, eq_self,
}
use hystack.Rbtree.Rotate.{parent_lem, child_near, child_far, load_head-Spec, rotate-Spec}
use hystack.Rbtree.Zipper.{
  zip, open_two, close_two, move_up, enter_rotation, leave_below, leave_beside, addr-mk,
  side_cell-other,
}
use hystack.Rbtree.Colors.{
  IsNode, is_red, paint, near, bend, straight, recolored, raised, straight-side, root_cell,
  root_cell-red, load_root-Spec, paint-Spec,
}

pub other-other : (d : Side) → other (other d) ≡ d
other-other left = refl
other-other right = refl

pub mk-near :
    (d : Side) (l : Tree) (a k : ℕ) (c : Bool) (r : Tree)
    → node l a k c r ≡ mk d (near d l r) a k c (near (other d) l r)
mk-near left l a k c r = refl
mk-near right l a k c r = refl

pub with_red :
    (c' : Bool) (side : Side) (near k q far : ℕ) (c : Bool)
    → record (side_cell side near k q c far) { red = c' } ≡ side_cell side near k q c' far
with_red c' left near k q far c = refl
with_red c' right near k q far c = refl

pub root_cell-parent :
    (s : ℕ) (ns : Node) (q : ℕ) (t : Tree) → IsNode t → (root_cell s ns q t).parent ≡ q
root_cell-parent s ns q leaf is = absurd is
root_cell-parent s ns q (node l a k c r) is = refl

-- The addresses of two trees differ, if one is not empty.
pub addr-ne :
    (s : ℕ) (t u : Tree)
    → IsNode t
    → count (addr s t) t + count (addr s t) u + hit (addr s t) s ≤ 1
    → (addr s t == addr s u) ≡ false
addr-ne s leaf u is le = absurd is
addr-ne s (node l a k c r) leaf is le = ground arith
addr-ne s (node l a k c r) (node l' a' k' c' r') is le = ground arith

pub addr-paint : (s : ℕ) (c : Bool) (t : Tree) → addr s (paint c t) ≡ addr s t
addr-paint s c leaf = refl
addr-paint s c (node l a k old r) = refl

pub red-IsNode : (t : Tree) → is_red t ≡ true → IsNode t
red-IsNode leaf e = cc
red-IsNode (node l a k c r) e = tt

pub mk-IsNode :
    (side : Side) (t : Tree) (a k : ℕ) (c : Bool) (u : Tree) → IsNode (mk side t a k c u)
mk-IsNode left t a k c u = tt
mk-IsNode right t a k c u = tt

pub straight-IsNode :
    (d own : Side) (t : Tree) (p : Frame) → IsNode t → IsNode (straight d own t p).0
straight-IsNode d own leaf p is = absurd is
straight-IsNode left left (node l a k c r) p is = tt
straight-IsNode left right (node l a k c r) p is = tt
straight-IsNode right left (node l a k c r) p is = tt
straight-IsNode right right (node l a k c r) p is = tt

pub addr-ne-at : (s p : ℕ) (t : Tree) → count p t + hit p p + hit p s ≤ 1 → addr s t ≢ p
addr-ne-at s p leaf le e = ground arith
addr-ne-at s p (node l a k c r) le e = ground arith

own_side :
    (own : Side) (p k q far : ℕ) (c : Bool)
    → far ≢ p
    → (if p == (side_cell own p k q c far).left then left else right) ≡ own
own_side left p k q far c ne = ground arith
own_side right p k q far c ne = ground arith

module _ (s base : ℕ) (ns : Node) (js : List Part) where
  module _ (d : Side) (l r : Tree) (a k : ℕ) (c : Bool) (pa pk : ℕ) (pc : Bool) (psib : Tree)
      (g : Frame) (fs : List Frame) where
    abbrev below : Side → Frame
    below side = record { side = side; at = pa; key = pk; red = pc; sib = psib }

    abbrev child_node : Tree
    child_node = node l a k c r

    keep-Spec :
        Spec s base
          (straighten s d a)
          (zip s base ns js child_node (below d ∷ g ∷ fs))
          a
          (zip s base ns js child_node (below d ∷ g ∷ fs))
    unfolding straighten
    keep-Spec =
        known-Spec (λ h H. addr-ne s child_node psib tt (omega (arith, H.apart a)))
          (λ apart. bind-Spec _ (load_root-Spec 0 pa child_node refl 2 ns refl) (
            bind-Spec _ (load_head-Spec 1 a (below d) (g ∷ fs) refl)
              (rw (child_far d a pk g.at (addr s psib) pc, apart) pure-Spec)))

    bend-Spec :
        Spec s base (straighten s d a) (zip s base ns js child_node (below (other d) ∷ g ∷ fs)) pa (
          zip s base ns js
            (bend d child_node (below (other d))).0
            ((bend d child_node (below (other d))).1 ∷ g ∷ fs))
    unfolding straighten
    bend-Spec = bind-Spec _ (load_root-Spec 0 pa child_node refl 2 ns refl) (
        bind-Spec _ (load_head-Spec 1 a (below (other d)) (g ∷ fs) refl) (
          rw (child_near (other d) a pk g.at (addr s psib) pc, eq_self a)
            (bind-Spec _
              (weaken-Spec
                (λ h H.
                  enter_rotation s base ns js h d pa pk pc a k c psib (near d l r)
                    (near (other d) l r) (g ∷ fs)
                    (subst (λ t. Holds s base h (zip s base ns js t (below (other d) ∷ g ∷ fs)))
                      (mk-near d l a k c r) H))
                (result-Spec
                  (rotate-Spec s base d pa a pk k pc c psib (near d l r) (near (other d) l r)
                    (g ∷ fs) ns js)
                  (λ h.
                    leave_below s base ns js h d pa pk pc a k c psib (near d l r)
                      (near (other d) l r) (g ∷ fs))))
              pure-Spec)))

  straighten-Spec :
      (d own : Side) (t : Tree) (pa pk : ℕ) (pc : Bool) (psib : Tree) (g : Frame) (fs : List Frame)
      → IsNode t
      → let p : Frame = record { side = own; at = pa; key = pk; red = pc; sib = psib } in
        let turned = straight d own t p in
        Spec s base
          (straighten s d (addr s t))
          (zip s base ns js t (p ∷ g ∷ fs))
          (addr s turned.0)
          (zip s base ns js turned.0 (turned.1 ∷ g ∷ fs))
  straighten-Spec d own leaf pa pk pc psib g fs is = absurd is
  straighten-Spec left left (node l a k c r) pa pk pc psib g fs is =
      keep-Spec left l r a k c pa pk pc psib g fs
  straighten-Spec right right (node l a k c r) pa pk pc psib g fs is =
      keep-Spec right l r a k c pa pk pc psib g fs
  straighten-Spec left right (node l a k c r) pa pk pc psib g fs is =
      bend-Spec left l r a k c pa pk pc psib g fs
  straighten-Spec right left (node l a k c r) pa pk pc psib g fs is =
      bend-Spec right l r a k c pa pk pc psib g fs

  turn_up-Spec :
      (d : Side) (t : Tree) (pa pk : ℕ) (pc : Bool) (psib : Tree) (ga gk : ℕ) (gc : Bool)
      (gsib : Tree) (fs : List Frame)
      → IsNode t
      → let p : Frame = record { side = d; at = pa; key = pk; red = pc; sib = psib } in
        let g : Frame = record { side = d; at = ga; key = gk; red = gc; sib = gsib } in
        Spec s base
          (turn_up s d (addr s t))
          (zip s base ns js t (p ∷ g ∷ fs))
          tt
          (zip s base ns js t (raised d (t, p) g ∷ fs))
  unfolding turn_up
  turn_up-Spec d t pa pk pc psib ga gk gc gsib fs is =
      weaken-Spec (λ h. open_two s base ns js h t _ _ fs)
        (bind-Spec _ (load_root-Spec 4 pa t refl 6 ns refl) (
          rw (root_cell-parent s ns pa t is) (
            bind-Spec _ (modify-Spec 1 refl _ (with_red false d (addr s t) pk ga (addr s psib) pc))
              (bind-Spec _ (load-Spec 1 refl) (
                rw (parent_lem d (addr s t) pk ga (addr s psib) false) (
                  bind-Spec _
                    (modify-Spec 0 refl _ (with_red true d pa gk (up base fs) (addr s gsib) gc))
                    (result-Spec
                      (rw
                        (
                          side_cell-other d (addr s gsib) gk (up base fs) pa true,
                          side_cell-other d (addr s psib) pk ga (addr s t) false,
                        )
                        at
                        (rotate-Spec s base (other d) ga pa gk pk true false gsib psib t fs ns js))
                      (λ h H.
                        subst
                          (λ (side : Side). Holds s base h (
                            zip s base ns js t (
                              record {
                                side = side;
                                at = pa;
                                key = pk;
                                red = false;
                                sib = mk (other d) gsib ga gk true psib;
                              }
                              ∷ fs)))
                          (other-other d)
                          (leave_beside s base ns js h (other d) ga gk true pa pk false gsib psib t
                            fs H)))))))))

  module _ (t : Tree) (p g : Frame) (fs : List Frame) (black : ns.red ≡ false) where
    -- Both cases, by the color of the uncle.
    step-Spec :
        {a : ℕ} {Q : State}
        → Spec s base
            (if is_red g.sib
              then (recolor p.at (addr s g.sib) g.at >> pure g.at)
              else (do node' ← straighten s g.side (addr s t); turn_up s g.side node'; pure node'))
            (zip s base ns js t (p ∷ g ∷ fs))
            a
            Q
        → Spec s base (rebalance_step s (addr s t) p.at) (zip s base ns js t (p ∷ g ∷ fs)) a Q
    unfolding rebalance_step
    step-Spec rest =
        known-Spec (λ h H. addr-ne-at s p.at g.sib (omega (arith, H.apart p.at)))
          (λ ne.
            weaken-Spec (λ h. open_two s base ns js h t p g fs)
              (bind-Spec _ (load-Spec 1 refl) (
                rw (parent_lem p.side (addr s t) p.key g.at (addr s p.sib) p.red) (
                  bind-Spec _ (load-Spec 0 refl) (
                    rw
                      (
                        own_side g.side p.at g.key (up base fs) (addr s g.sib) g.red ne,
                        child_far g.side p.at g.key (up base fs) (addr s g.sib) g.red,
                      )
                      (bind-Spec _ (load_root-Spec 2 g.at g.sib refl 6 ns refl) (
                        rw (root_cell-red s ns g.at g.sib black)
                          (weaken-Spec (λ h. close_two s base ns js h t p g fs) rest))))))))

    recolor-Spec :
        IsNode g.sib
        → Spec s base
            (recolor p.at (addr s g.sib) g.at)
            (zip s base ns js t (p ∷ g ∷ fs))
            tt
            (zip s base ns js (recolored t p g) fs)
    unfolding recolor
    recolor-Spec is =
        weaken-Spec (λ h. open_two s base ns js h t p g fs)
          (bind-Spec _
            (modify-Spec 1 refl _
              (with_red false p.side (addr s t) p.key g.at (addr s p.sib) p.red))
            (bind-Spec _ (paint-Spec 2 g.at g.sib false is refl) (
              result-Spec
                (modify-Spec 0 refl _
                  (with_red true g.side p.at g.key (up base fs) (addr s g.sib) g.red))
                (λ h H.
                  let p' : Frame = record p { red = false } in
                  let g' : Frame = record g { red = true; sib = paint false g.sib } in
                  move_up s base ns js h (mk p.side t p.at p.key false p.sib) g' fs (
                    move_up s base ns js h t p' (g' ∷ fs)
                      (close_two s base ns js h t p' g' fs (rw (addr-paint s false g.sib) H)))))))

    pub red_step :
        is_red g.sib ≡ true
        → Spec s base
            (rebalance_step s (addr s t) p.at)
            (zip s base ns js t (p ∷ g ∷ fs))
            (addr s (recolored t p g))
            (zip s base ns js (recolored t p g) fs)
    red_step red =
        subst
          (λ (a : ℕ).
            Spec s base (rebalance_step s (addr s t) p.at) (zip s base ns js t (p ∷ g ∷ fs)) a
              (zip s base ns js (recolored t p g) fs))
          (sym (
            addr-mk s g.side (mk p.side t p.at p.key false p.sib) g.at g.key true
              (paint false g.sib)))
          (step-Spec (rw red (bind-Spec _ (recolor-Spec (red-IsNode g.sib red)) pure-Spec)))

    pub black_step :
        is_red g.sib ≡ false
        → IsNode t
        → let turned = straight g.side p.side t p in
          Spec s base
            (rebalance_step s (addr s t) p.at)
            (zip s base ns js t (p ∷ g ∷ fs))
            (addr s turned.0)
            (zip s base ns js turned.0 (raised g.side turned g ∷ fs))
    black_step red is =
        let turned = straight g.side p.side t p in
        step-Spec (
          rw red (
            bind-Spec _ (straighten-Spec g.side p.side t p.at p.key p.red p.sib g fs is) (
              bind-Spec _
                (subst
                  (λ (side : Side).
                    Spec s base (turn_up s g.side (addr s turned.0))
                      (zip s base ns js turned.0 (record turned.1 { side = side } ∷ g ∷ fs)) tt
                      (zip s base ns js turned.0 (raised g.side turned g ∷ fs)))
                  (sym (straight-side g.side p.side t p is))
                  (turn_up-Spec g.side turned.0 turned.1.at turned.1.key turned.1.red turned.1.sib
                    g.at g.key g.red g.sib fs (straight-IsNode g.side p.side t p is)))
                pure-Spec)))
