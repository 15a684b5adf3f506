-- ===== src/Rbtree/Unlink.antt =====
-- src/kits/event/event_rbtree.cpp: rbtree_delete up to its loop, on a node with one child at most.
use hystack.Prelude.{ℕ, Bool, List, ◌∷◌, ◌==◌, ◌≡◌, refl, arith}
use hystack.Rbtree.{Node, left, set_parent, with_child}
use hystack.Rbtree.Delete.{unlink}
use hystack.Rbtree.Shape.{Tree, leaf, node, Frame, addr, up, top}
use hystack.Rbtree.Owns.{Part, cell_at, tree, path, Spec}
use hystack.Rbtree.Rules.{
  bind-Spec, known-Spec, result-Spec, then-Spec, load-Spec, modify-Spec, eq_self,
}
use hystack.Rbtree.Rotate.{
  modify_root-Spec, modify_head-Spec, load_head-Spec, side_of_lem, with_child_near,
}
use hystack.Rbtree.Balance.{addr-ne-at}
use hystack.Rbtree.Beside.{Anchored}

-- A node that was taken out.
abbrev pub forgotten : Bool → Node
forgotten c = record { key = 0; left = 0; right = 0; parent = 0; red = c }

-- The sentinel after the parent of `t` was written.
abbrev pub written : ℕ → Tree → Node → Node
written q leaf ns = record ns { parent = q }
written q (node l a k c r) ns = ns

pub written-red : (q : ℕ) (t : Tree) (ns : Node) → (written q t ns).red ≡ ns.red
written-red q leaf ns = refl
written-red q (node l a k c r) ns = refl

pub written-Anchored : (q : ℕ) (t : Tree) (ns : Node) → Anchored (written q t ns) q t
written-Anchored q leaf ns = refl
written-Anchored q (node l a k c r) ns = tt

module _ (s base : ℕ) (js : List Part) (a : ℕ) where
  -- `set_parent temp`, where `temp` may be the sentinel.
  pub set_any_parent-Spec :
      {r : ℕ} (n ns : Node) (x q : ℕ) (u : Tree) (p : ℕ) (fs : List Frame)
      → Spec s base
          (set_parent (addr s u) q)
          (r, cell_at a n ∷ tree x u ∷ path p fs ∷ cell_at s ns ∷ js)
          tt
          (r, cell_at a n ∷ tree q u ∷ path p fs ∷ cell_at s (written q u ns) ∷ js)
  set_any_parent-Spec n ns x q leaf p fs = result-Spec (modify-Spec 3 refl _ refl) (λ h H. record {
    root_is = H.root_is;
    owned = H.owned;
    apart = λ y. omega (arith, H.apart y);
  })
  set_any_parent-Spec n ns x q (node l b kb cb t) p fs =
      modify_root-Spec 1 x q l b kb cb cb t _ refl refl

  -- A node `na` with the child `u` alone leaves its place under `f`.
  pub unlink-Spec :
      (k p q : ℕ) (c : Bool) (ns : Node) (u : Tree) (f : Frame) (fs : List Frame)
      → let na : Node = record { key = k; left = p; right = q; parent = f.at; red = c } in
        Spec s base
          (unlink s a a (addr s u))
          (top f.at fs, cell_at a na ∷ tree a u ∷ path a (f ∷ fs) ∷ cell_at s ns ∷ js)
          tt
          (
            top f.at fs,
            cell_at a na
                ∷ tree f.at u
                ∷ path (addr s u) (f ∷ fs)
                ∷ cell_at s (written f.at u ns)
                ∷ js,
          )
  unfolding unlink
  unlink-Spec k p q c ns u f fs =
      let na : Node = record { key = k; left = p; right = q; parent = f.at; red = c } in
      known-Spec (λ h H. addr-ne-at s a f.sib (omega (arith, H.apart a)))
        (λ ne. bind-Spec _ (load-Spec 0 refl) (
          (bind-Spec _ (load_head-Spec 2 a f fs refl) (
            rw (side_of_lem left f.side a f.key (up base fs) (addr s f.sib) f.red ne) (
              bind-Spec _
                (modify_head-Spec 2 a f fs refl (with_child f.side (addr s u)) (addr s u) f.red
                  (with_child_near f.side (addr s u) a f.key (up base fs) (addr s f.sib) f.red))
                (then-Spec (a == a) _ _ (eq_self a)
                  (set_any_parent-Spec na ns a f.at u (addr s u) (f ∷ fs))))))))
