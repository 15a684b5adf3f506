-- ===== src/Rbtree/Descent.antt =====
-- src/kits/event/event_rbtree.cpp: rbtree_insert_value, and rbtree_insert as a whole.
use hystack.Prelude.{
  ℕ, zero, suc, ◌≤◌, Bool, true, false, List, [], ◌∷◌, ◌==◌, if◌then◌else◌, ◌≡◌, refl, arith, inl,
  inr, Bool-cases, ltb,
}
use mathlib.Core.Path.{subst}
use hystack.Rbtree.{
  Node, Side, left, right, with_child, M, ◌>>◌, load, modify, set_child, rbtree_insert_value,
}
use hystack.Rbtree.Shape.{Tree, leaf, node, Frame, mk, addr, up, side_cell, depth}
use hystack.Rbtree.Owns.{Part, cell_at, State, total, Spec}
use hystack.Rbtree.Rules.{
  bind-Spec, known-Spec, weaken-Spec, result-Spec, then-Spec, else-Spec, load-Spec, modify-Spec,
  eq_self,
}
use hystack.Rbtree.Rotate.{modify_head-Spec, with_child_near, child_near}
use hystack.Rbtree.Zipper.{zip, move_down, addr-mk}
use hystack.Rbtree.Colors.{IsNode, paint, balanced, root_cell, load_root-Spec}

-- The path from the root to the place of a new key, which comes after the equal ones.
abbrev pub descent : ℕ → Tree → List Frame → List Frame
descent key leaf fs = fs
descent key (node l a k c r) fs =
    if ltb key k
    then descent key l (record { side = left; at = a; key = k; red = c; sib = r } ∷ fs)
    else descent key r (record { side = right; at = a; key = k; red = c; sib = l } ∷ fs)

-- The tree after an insertion.
abbrev pub inserted : ℕ → ℕ → Tree → Tree
inserted a key t = paint false (balanced (node leaf a key true leaf) (descent key t []))

root_cell-mk :
    (s : ℕ) (ns : Node) (q : ℕ) (side : Side) (t : Tree) (a k : ℕ) (c : Bool) (u : Tree)
    → root_cell s ns q (mk side t a k c u) ≡ side_cell side (addr s t) k q c (addr s u)
root_cell-mk s ns q left t a k c u = refl
root_cell-mk s ns q right t a k c u = refl

key_lem : (side : Side) (near k q far : ℕ) (c : Bool) → (side_cell side near k q c far).key ≡ k
key_lem left near k q far c = refl
key_lem right near k q far c = refl

module _ (s base : ℕ) (ns : Node) (js : List Part) (a : ℕ) (n : Node) where
  abbrev sprout : Tree
  sprout = node leaf a n.key true leaf

  plant :
      (f : Frame) (fs : List Frame)
      → Spec s base
          (set_child f.side f.at a
            >> modify a (λ m. record m { parent = f.at; left = s; right = s; red = true }))
          (zip s base ns (cell_at a n ∷ js) leaf (f ∷ fs))
          tt
          (zip s base ns js sprout (f ∷ fs))
  plant f fs =
      bind-Spec _
        (modify_head-Spec 1 s f fs refl (with_child f.side a) a f.red
          (with_child_near f.side a s f.key (up base fs) (addr s f.sib) f.red))
        (result-Spec (modify-Spec 3 refl _ refl) (λ h H.
          let (none-Is, (fs-Is, (s-Is, (a-Is, rest)))) = H.owned in
          record {
            root_is = H.root_is;
            owned = ((a-Is, tt, tt), (fs-Is, (s-Is, rest)));
            apart = λ x. omega (arith, H.apart x);
          }))

  abbrev hang_under : Side → ℕ → M (Unit {0})
  hang_under d b = do
    set_child d b a
    modify a (λ m. record m { parent = b; left = s; right = s; red = true })

  -- One turn of the loop, at the node `b` whose child on the side of the new key is `u`.
  turn-Spec :
      (fuel : ℕ) (d : Side) (u : Tree) (b kb : ℕ) (c : Bool) (v : Tree) (fs : List Frame)
      {Q : State}
      → (if ltb n.key kb then left else right) ≡ d
      → Spec s base
          (if addr s u == s then hang_under d b else rbtree_insert_value s fuel (addr s u) a)
          (zip s base ns
            (cell_at a n ∷ js)
            u
            (record { side = d; at = b; key = kb; red = c; sib = v } ∷ fs))
          tt
          Q
      → Spec s base
          (rbtree_insert_value s (suc fuel) b a)
          (zip s base ns (cell_at a n ∷ js) (mk d u b kb c v) fs)
          tt
          Q
  unfolding rbtree_insert_value
  turn-Spec fuel d u b kb c v fs e rest = bind-Spec _ (load-Spec 3 refl) (
      bind-Spec _
        (subst
          (λ (p : ℕ).
            let P = zip s base ns (cell_at a n ∷ js) (mk d u b kb c v) fs in
            Spec s base (load p) P (root_cell s ns (up base fs) (mk d u b kb c v)) P)
          (addr-mk s d u b kb c v) (load_root-Spec 0 (up base fs) (mk d u b kb c v) refl 2 ns refl))
        (rw
          (
            root_cell-mk s ns (up base fs) d u b kb c v,
            key_lem d (addr s u) kb (up base fs) (addr s v) c,
            e,
            child_near d (addr s u) kb (up base fs) (addr s v) c,
          )
          (weaken-Spec (λ h. move_down s base ns (cell_at a n ∷ js) h d u b kb c v fs) rest)))

  -- A child is the sentinel exactly when its subtree is empty.
  onward :
      (fuel : ℕ) (d : Side) (u : Tree) (b kb : ℕ) (c : Bool) (v : Tree) (fs : List Frame)
      → let f : Frame = record { side = d; at = b; key = kb; red = c; sib = v } in
        let P = zip s base ns (cell_at a n ∷ js) u (f ∷ fs) in
        let Q = zip s base ns js sprout (descent n.key u (f ∷ fs)) in
        (IsNode u → Spec s base (rbtree_insert_value s fuel (addr s u) a) P tt Q)
        → Spec s base
            (if addr s u == s then hang_under d b else rbtree_insert_value s fuel (addr s u) a)
            P
            tt
            Q
  onward fuel d leaf b kb c v fs rest =
      then-Spec (s == s) (hang_under d b) (rbtree_insert_value s fuel s a) (eq_self s)
        (plant (record { side = d; at = b; key = kb; red = c; sib = v }) fs)
  onward fuel d (node l x k red r) b kb c v fs rest =
      known-Spec (λ h H. x-ne-s (H.apart x))
        (λ ne. else-Spec (x == s) (hang_under d b) (rbtree_insert_value s fuel x a) ne (rest tt))
    where
      x-ne-s :
          total x
              (zip s base ns
                (cell_at a n ∷ js)
                (node l x k red r)
                (record { side = d; at = b; key = kb; red = c; sib = v } ∷ fs)).1
            ≤ 1
          → (x == s) ≡ false
      x-ne-s le = ground arith

  pub value-Spec :
      (fuel : ℕ) (t : Tree) (fs : List Frame)
      → depth t ≤ fuel
      → IsNode t
      → Spec s base
          (rbtree_insert_value s fuel (addr s t) a)
          (zip s base ns (cell_at a n ∷ js) t fs)
          tt
          (zip s base ns js sprout (descent n.key t fs))
  value-Spec fuel leaf fs le is = absurd is
  value-Spec zero (node l b kb c r) fs le is = absurd (omega arith)
  value-Spec (suc fuel) (node l b kb c r) fs le is = elim (Bool-cases (ltb n.key kb)) [
    | inl less ↦ rw less (
        turn-Spec fuel left l b kb c r fs (rw less)
          (onward fuel left l b kb c r fs (value-Spec fuel l _ (omega arith))))
    | inr more ↦ rw more (
        turn-Spec fuel right r b kb c l fs (rw more)
          (onward fuel right r b kb c l fs (value-Spec fuel r _ (omega arith))))
  ]
