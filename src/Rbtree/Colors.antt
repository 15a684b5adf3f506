-- ===== src/Rbtree/Colors.antt =====
-- src/kits/event/event_rbtree.cpp: the balancing after an insertion, as a function on trees, and
-- rules for the colors and roots that it reads.
use hystack.Prelude.{
  ℕ, Bool, true, false, List, [], ◌∷◌, if◌then◌else◌, some, ◌≡◌, refl, arith, get_elem?, set,
}
use hystack.Rbtree.{Node, Heap, Side, left, right, other, load, set_red}
use hystack.Rbtree.Shape.{Tree, leaf, node, Frame, mk, plug, addr, side_cell}
use hystack.Rbtree.Owns.{Part, cell_at, tree, Stands, Spec, All-get}
use hystack.Rbtree.Rotate.{modify_root-Spec}

abbrev pub IsNode : Tree → Type 0
IsNode leaf = ⊥
IsNode (node l a k c r) = Unit

abbrev pub is_red : Tree → Bool
is_red leaf = false
is_red (node l a k c r) = c

abbrev pub paint : Bool → Tree → Tree
paint c leaf = leaf
paint c (node l a k old r) = node l a k c r

abbrev pub near : Side → Tree → Tree → Tree
near left l r = l
near right l r = r

-- The child on the side `d` turns above its parent `p`, whose subtree it is on the other side.
abbrev pub bend : Side → Tree → Frame → Tree × Frame
bend d leaf p = (leaf, p)
bend d (node l a k c r) p = (
  mk d p.sib p.at p.key p.red (near d l r),
  record { side = d; at = a; key = k; red = c; sib = near (other d) l r },
)

abbrev pub straight : Side → Side → Tree → Frame → Tree × Frame
straight left left t p = (t, record p { side = left })
straight left right t p = bend left t p
straight right left t p = bend right t p
straight right right t p = (t, record p { side = right })

pub straight-side :
    (d own : Side) (t : Tree) (p : Frame) → IsNode t → (straight d own t p).1.side ≡ d
straight-side d own leaf p is = absurd is
straight-side left left (node l a k c r) p is = refl
straight-side left right (node l a k c r) p is = refl
straight-side right left (node l a k c r) p is = refl
straight-side right right (node l a k c r) p is = refl

-- The grandparent after the exchange of colors.
abbrev pub recolored : Tree → Frame → Frame → Tree
recolored t p g = mk g.side (mk p.side t p.at p.key false p.sib) g.at g.key true (paint false g.sib)

-- The tree and its parent after the rotation of the grandparent.
abbrev pub raised : Side → Tree × Frame → Frame → Frame
raised d (t, p) g = record {
  side = d;
  at = p.at;
  key = p.key;
  red = false;
  sib = mk (other d) g.sib g.at g.key true p.sib;
}

-- The whole tree after the balancing, with a red node above a path.
abbrev pub balanced : Tree → List Frame → Tree
balanced t [] = t
balanced t (p ∷ []) = plug t (p ∷ [])
balanced t (p ∷ g ∷ fs) =
    if p.red
    then (if is_red g.sib
        then balanced (recolored t p g) fs
        else (let turned = straight g.side p.side t p in
            plug turned.0 (raised g.side turned g ∷ fs)))
    else plug t (p ∷ g ∷ fs)

-- One turn of the function.
module _ (t : Tree) (p g : Frame) (fs : List Frame) where
  pub balanced-black : p.red ≡ false → balanced t (p ∷ g ∷ fs) ≡ plug t (p ∷ g ∷ fs)
  balanced-black e = ground arith

  pub balanced-recolored :
      p.red ≡ true → is_red g.sib ≡ true → balanced t (p ∷ g ∷ fs) ≡ balanced (recolored t p g) fs
  balanced-recolored e e' = ground arith

  pub balanced-turned :
      p.red ≡ true
      → is_red g.sib ≡ false
      → let turned = straight g.side p.side t p in
        balanced t (p ∷ g ∷ fs) ≡ plug turned.0 (raised g.side turned g ∷ fs)
  balanced-turned e e' = ground arith

-- The node that a read of the root of a tree finds.
abbrev pub root_cell : ℕ → Node → ℕ → Tree → Node
root_cell s ns q leaf = ns
root_cell s ns q (node l a k c r) = side_cell left (addr s l) k q c (addr s r)

pub root_cell-red :
    (s : ℕ) (ns : Node) (q : ℕ) (t : Tree) → ns.red ≡ false → (root_cell s ns q t).red ≡ is_red t
root_cell-red s ns q leaf black = black
root_cell-red s ns q (node l a k c r) black = refl

module _ {s base r : ℕ} {parts : List Part} (i q : ℕ) (t : Tree)
    (here : get_elem? parts i ≡ some (tree q t)) where
  pub load_root-Spec :
      (j : ℕ) (ns : Node)
      → get_elem? parts j ≡ some (cell_at s ns)
      → Spec s base (load (addr s t)) (r, parts) (root_cell s ns q t) (r, parts)
  unfolding load
  load_root-Spec j ns there = record {
    run = λ h H. (
      h,
      loaded h t (All-get s base h.cell parts i (tree q t) here H.owned)
          (All-get s base h.cell parts j (cell_at s ns) there H.owned),
      H,
    );
  }
    where
      loaded :
          (h : Heap) (u : Tree)
          → Stands s base h.cell q u
          → h.cell s ≡ some ns
          → load (addr s u) h ≡ some (root_cell s ns q u, h)
      loaded h leaf st s-Is = rw (load, s-Is)
      loaded h (node l a k c r) st s-Is = rw (load, st.0)

module _ {s base r : ℕ} {parts : List Part} (i q : ℕ) where
  pub paint-Spec :
      (t : Tree) (c : Bool)
      → IsNode t
      → get_elem? parts i ≡ some (tree q t)
      → Spec s base (set_red c (addr s t)) (r, parts) tt (r, set parts i (tree q (paint c t)))
  paint-Spec leaf c is here = absurd is
  paint-Spec (node l a k old t) c is here = modify_root-Spec i q q l a k old c t _ here refl
