-- ===== src/Rbtree/Moved.antt =====
-- src/kits/event/event_rbtree.cpp: rbtree_delete where another node moves into the place.
use hystack.Prelude.{
  ℕ, ◌+◌, Bool, false, List, [], ◌∷◌, ◌++◌, ◌==◌, if◌then◌else◌, ◌≡◌, refl, arith,
}
use hystack.Rbtree.{Node, Heap, left, load, set_parent, with_child}
use hystack.Rbtree.Delete.{unlink, move_subst}
use hystack.Rbtree.Shape.{Tree, Frame, mk, plug, addr, up, top, count_path}
use hystack.Rbtree.Owns.{Part, cell_at, tree, path, State, Holds, Spec}
use hystack.Rbtree.Rules.{bind-Spec, known-Spec, else-Spec, load-Spec, modify-Spec}
use hystack.Rbtree.Rotate.{
  modify_head-Spec, load_head-Spec, side_of_lem, with_child_near, adopt-Spec, replace-Spec,
}
use hystack.Rbtree.Zipper.{zip, move_up, move_down}
use hystack.Rbtree.Balance.{addr-ne-at}

pub count_path-append :
    (x : ℕ) (fs gs : List Frame) → count_path x (fs ++ gs) ≡ count_path x fs + count_path x gs
count_path-append x [] gs = omega arith
count_path-append x (f ∷ fs) gs = omega (arith, count_path-append x fs gs)

module _ (s base : ℕ) (ns : Node) (js : List Part) (h : Heap) where
  pub move_part_up :
      (t : Tree) (fs gs : List Frame)
      → Holds s base h (zip s base ns js t (fs ++ gs))
      → Holds s base h (zip s base ns js (plug t fs) gs)
  move_part_up t [] gs H = H
  move_part_up t (f ∷ fs) gs H =
      move_part_up (mk f.side t f.at f.key f.red f.sib) fs gs
        (move_up s base ns js h t f (fs ++ gs) H)

  pub move_part_down :
      (t : Tree) (fs gs : List Frame)
      → Holds s base h (zip s base ns js (plug t fs) gs)
      → Holds s base h (zip s base ns js t (fs ++ gs))
  move_part_down t [] gs H = H
  move_part_down t (f ∷ fs) gs H =
      move_down s base ns js h f.side t f.at f.key f.red f.sib (fs ++ gs)
        (move_part_down (mk f.side t f.at f.key f.red f.sib) fs gs H)

-- The node at `a` with the children `l` and `r`, which is under `fs`.
abbrev pub between : ℕ → ℕ → Tree → ℕ → Bool → Tree → List Frame → Node
between s base l k c r fs = record {
  key = k;
  left = addr s l;
  right = addr s r;
  parent = up base fs;
  red = c;
}

module _ (s base : ℕ) (js : List Part) (a k : ℕ) (c : Bool) (l : Tree) (fs : List Frame) (m km : ℕ)
    (cm : Bool) where
  -- The node `nm` by itself, at `m`, and the node at `a` whose place it takes.
  abbrev pub apart_from : Node → ℕ → Tree → Node → State
  apart_from nm x r ns = (
    top a fs,
    cell_at m nm
        ∷ cell_at a (between s base l k c r fs)
        ∷ tree a l
        ∷ tree x r
        ∷ path a fs
        ∷ cell_at s ns
        ∷ js,
  )

  abbrev pub in_place_of : Tree → Node → State
  in_place_of r ns = (
    top m fs,
    cell_at m (between s base l km c r fs)
        ∷ cell_at a (between s base l k c r fs)
        ∷ tree m l
        ∷ tree m r
        ∷ path m fs
        ∷ cell_at s ns
        ∷ js,
  )

  pub move_subst-Spec :
      {P : State} (temp p q y x : ℕ) (r : Tree) (ns : Node)
      → let nm : Node = record { key = km; left = p; right = q; parent = y; red = cm } in
        Spec s base (load m) P nm P
        → Spec s base (set_parent temp (if y == a then m else y)) P tt (apart_from nm x r ns)
        → Spec s base (move_subst s a m temp) P tt (in_place_of r ns)
  unfolding move_subst
  move_subst-Spec temp p q y x r ns loads sets = bind-Spec _ loads (
      bind-Spec _ sets (
        bind-Spec _ (load-Spec 1 refl) (
          bind-Spec _ (modify-Spec 0 refl _ refl) (
            bind-Spec _
              (replace-Spec 4 1 5 left a m fs _ ns (omega arith) (omega arith) (omega arith) refl
                refl refl refl)
              (bind-Spec _ (load-Spec 0 refl) (
                bind-Spec _ (adopt-Spec 2 5 a m l ns (omega arith) refl refl) (
                  bind-Spec _ (load-Spec 0 refl)
                    (adopt-Spec 3 5 x m r ns (omega arith) refl refl))))))))

  -- Up to the test whether another node moves.
  pub cut-Spec :
      (p q : ℕ) (u : Tree) (f : Frame) (gs : List Frame) (ns : Node) {Q : State}
      → let nm : Node = record { key = km; left = p; right = q; parent = f.at; red = cm } in
        (m == a) ≡ false
        → Spec s base
            (move_subst s a m (addr s u))
            (top f.at gs, cell_at m nm ∷ tree m u ∷ path (addr s u) (f ∷ gs) ∷ cell_at s ns ∷ js)
            tt
            Q
        → Spec s base
            (unlink s a m (addr s u))
            (top f.at gs, cell_at m nm ∷ tree m u ∷ path m (f ∷ gs) ∷ cell_at s ns ∷ js)
            tt
            Q
  unfolding unlink
  cut-Spec p q u f gs ns differs rest =
      known-Spec (λ h H. addr-ne-at s m f.sib (omega (arith, H.apart m)))
        (λ ne. bind-Spec _ (load-Spec 0 refl) (
          bind-Spec _ (load_head-Spec 2 m f gs refl) (
            rw (side_of_lem left f.side m f.key (up base gs) (addr s f.sib) f.red ne) (
              bind-Spec _
                (modify_head-Spec 2 m f gs refl (with_child f.side (addr s u)) (addr s u) f.red
                  (with_child_near f.side (addr s u) m f.key (up base gs) (addr s f.sib) f.red))
                (else-Spec (m == a) _ _ differs rest)))))
