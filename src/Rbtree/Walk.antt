-- ===== src/Rbtree/Walk.antt =====
-- src/kits/event/event_rbtree.cpp: rbtree_min and rbtree_next.
use hystack.Prelude.{
  ℕ, zero, suc, ◌≤◌, ◌<◌, Bool, false, List, [], ◌∷◌, ◌++◌, ◌==◌, some, ◌≡◌, refl, arith, ap, ◌∙◌,
  append_assoc, length,
}
use hystack.Rbtree.{Node, Heap, Side, left, right, ◌>>=◌, load, rbtree_min, climb, rbtree_next}
use hystack.Rbtree.Shape.{Tree, leaf, node, Frame, mk, addr, count, in_order, depth}
use hystack.Rbtree.Owns.{Part, total, Stands, Holds}
use hystack.Rbtree.Rules.{eq_self}
use hystack.Rbtree.Zipper.{zip, move_up, addr-mk}
use hystack.Rbtree.Colors.{IsNode}
use hystack.Rbtree.Balance.{addr-ne, mk-IsNode}
use hystack.Rbtree.Insert.{below_root}

-- The address of the first node, and 0 if there is none.
abbrev pub first : List (ℕ × ℕ) → ℕ
first [] = 0
first ((a, k) ∷ others) = a

-- The nodes behind a place, in order.
abbrev pub behind : List Frame → List (ℕ × ℕ)
behind [] = []
behind (f ∷ fs) = elim f.side [
  | left ↦ (f.at, f.key) ∷ in_order f.sib ++ behind fs
  | right ↦ behind fs
]

pub first-append :
    (l : Tree) (a k : ℕ) (c : Bool) (r : Tree) (ys : List (ℕ × ℕ))
    → first (in_order (node l a k c r) ++ ys) ≡ first (in_order (node l a k c r))
first-append leaf a k c r ys = refl
first-append (node l b kb cb m) a k c r ys = rw (
  append_assoc (in_order (node l b kb cb m)) ((a, k) ∷ in_order r) ys,
  first-append l b kb cb m (((a, k) ∷ in_order r) ++ ys),
  first-append l b kb cb m ((a, k) ∷ in_order r),
)

module _ (s base : ℕ) (h : Heap) where
  pub rbtree_min-first :
      (fuel q : ℕ) (l : Tree) (a k : ℕ) (c : Bool) (r : Tree)
      → count s (node l a k c r) ≡ 0
      → depth (node l a k c r) ≤ fuel
      → Stands s base h.cell q (node l a k c r)
      → rbtree_min s fuel a h ≡ some (first (in_order (node l a k c r)), h)
  unfolding rbtree_min load ◌>>=◌
  rbtree_min-first zero q l a k c r apart enough st = absurd (omega arith)
  rbtree_min-first (suc fuel) q leaf a k c r apart enough st = rw (load, st.0, eq_self s)
  rbtree_min-first (suc fuel) q (node l b kb cb m) a k c r apart enough st =
      rw (load, st.0, b-ne-s apart, first-append l b kb cb m ((a, k) ∷ in_order r))
        (rbtree_min-first fuel a l b kb cb m (ground arith) (ground arith) st.1)
    where
      b-ne-s : count s (node (node l b kb cb m) a k c r) ≡ 0 → (b == s) ≡ false
      b-ne-s apart = ground arith

module _ (s base : ℕ) (ns : Node) (js : List Part) (h : Heap) where
  climb-frame :
      (fuel : ℕ) (side : Side) (t : Tree) (pa pk : ℕ) (pc : Bool) (psib : Tree) (fs : List Frame)
      → let f : Frame = record { side = side; at = pa; key = pk; red = pc; sib = psib } in
        IsNode t
        → Holds s base h (zip s base ns js t (f ∷ fs))
        → climb s fuel pa h ≡ some (first (behind fs), h)
        → climb s (suc fuel) (addr s t) h ≡ some (first (behind (f ∷ fs)), h)
  unfolding climb load ◌>>=◌
  climb-frame fuel side leaf pa pk pc psib fs is H rest = absurd is
  climb-frame fuel left (node l a k c r) pa pk pc psib fs is H rest =
      let e =
        ap (λ (r : ℕ). a == r) H.root_is
        ∙ below_root s (node l a k c r)
            (record { side = left; at = pa; key = pk; red = pc; sib = psib }) fs tt
            (λ x. omega (arith, H.apart x)) in
      rw (load, H.owned.0.0, e, H.owned.1.0.0, eq_self a)
  climb-frame fuel right (node l a k c r) pa pk pc psib fs is H rest =
      let e =
        ap (λ (r : ℕ). a == r) H.root_is
        ∙ below_root s (node l a k c r)
            (record { side = right; at = pa; key = pk; red = pc; sib = psib }) fs tt
            (λ x. omega (arith, H.apart x)) in
      let e' = addr-ne s (node l a k c r) psib tt (omega (arith, H.apart a)) in
      rw (load, H.owned.0.0, e, H.owned.1.0.0, e') rest

  pub climb-behind :
      (fuel : ℕ) (t : Tree) (fs : List Frame)
      → length fs < fuel
      → IsNode t
      → Holds s base h (zip s base ns js t fs)
      → climb s fuel (addr s t) h ≡ some (first (behind fs), h)
  unfolding climb load ◌>>=◌
  climb-behind zero t fs enough is H = absurd (omega arith)
  climb-behind (suc fuel) leaf fs enough is H = absurd is
  climb-behind (suc fuel) (node l a k c r) [] enough is H =
      rw (load, H.owned.0.0, H.root_is, eq_self a)
  climb-behind (suc fuel) (node l a k c r) (f ∷ fs) enough is H =
      let t = node l a k c r in
      climb-frame fuel f.side t f.at f.key f.red f.sib fs is H (
        rw (addr-mk s f.side t f.at f.key f.red f.sib) at (
          climb-behind fuel (mk f.side t f.at f.key f.red f.sib) fs (omega arith)
            (mk-IsNode f.side t f.at f.key f.red f.sib) (move_up s base ns js h t f fs H)))

  -- The successor in order, and 0 behind the last node.
  pub rbtree_next-first :
      (fuel : ℕ) (l : Tree) (a k : ℕ) (c : Bool) (r : Tree) (fs : List Frame)
      → length fs < fuel
      → depth r ≤ fuel
      → Holds s base h (zip s base ns js (node l a k c r) fs)
      → rbtree_next s fuel a h ≡ some (first (in_order r ++ behind fs), h)
  unfolding rbtree_next load ◌>>=◌
  rbtree_next-first fuel l a k c leaf fs enough low H =
      rw (load, H.owned.0.0, eq_self s) (climb-behind fuel (node l a k c leaf) fs enough tt H)
  rbtree_next-first fuel l a k c (node u b kb cb v) fs enough low H =
      rw (load, H.owned.0.0, b-ne-s (H.apart b), first-append u b kb cb v (behind fs))
        (rbtree_min-first s base h fuel a u b kb cb v (s-apart (H.apart s)) low H.owned.0.2)
    where
      b-ne-s :
          total b (zip s base ns js (node l a k c (node u b kb cb v)) fs).1 ≤ 1 → (b == s) ≡ false
      b-ne-s le = ground arith

      s-apart :
          total s (zip s base ns js (node l a k c (node u b kb cb v)) fs).1 ≤ 1
          → count s (node u b kb cb v) ≡ 0
      s-apart le = ground arith
