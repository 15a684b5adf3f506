-- ===== src/Rbtree/Grow.antt =====
-- src/kits/event/event_rbtree.cpp: rbtree_insert as a whole.
use hystack.Prelude.{
  ℕ, ◌+◌, ◌≤◌, ◌<◌, true, false, List, [], ◌∷◌, ◌==◌, Option, some, ◌≡◌, refl, arith, All, length,
}
use hystack.Rbtree.{Node, Heap, left, right, rbtree_insert}
use hystack.Rbtree.Shape.{Tree, leaf, node, Frame, mk, plug, addr, hit, count, depth}
use hystack.Rbtree.Owns.{Part, cell_at, Is, Holds, Spec}
use hystack.Rbtree.Rules.{
  bind-Spec, known-Spec, result-Spec, then-Spec, else-Spec, get_root-Spec, set_root-Spec,
  modify-Spec, eq_self,
}
use hystack.Rbtree.Zipper.{zip}
use hystack.Rbtree.Colors.{IsNode, is_red, balanced, recolored, raised, straight, paint-Spec}
use hystack.Rbtree.Balance.{mk-IsNode, straight-IsNode, addr-paint}
use hystack.Rbtree.Insert.{BlackTop, rebalance-Spec}
use hystack.Rbtree.Descent.{descent, inserted, value-Spec}

addr-ne-s :
    (s : ℕ) (t : Tree)
    → IsNode t
    → count (addr s t) t + hit (addr s t) s ≤ 1
    → (addr s t == s) ≡ false
addr-ne-s s leaf is le = absurd is
addr-ne-s s (node l a k c r) is le = ground arith

pub IsNode-plug : (t : Tree) (fs : List Frame) → IsNode t → IsNode (plug t fs)
IsNode-plug t [] is = is
IsNode-plug t (f ∷ fs) is =
    IsNode-plug (mk f.side t f.at f.key f.red f.sib) fs (mk-IsNode f.side t f.at f.key f.red f.sib)

balanced-IsNode : (t : Tree) (fs : List Frame) → IsNode t → IsNode (balanced t fs)
balanced-IsNode t [] is = is
balanced-IsNode t (p ∷ []) is = IsNode-plug t (p ∷ []) is
balanced-IsNode t (p ∷ g ∷ fs) is = ground (
  arith,
  IsNode-plug t (p ∷ g ∷ fs),
  balanced-IsNode (recolored t p g) fs (mk-IsNode g.side _ g.at g.key true _),
  IsNode-plug (straight g.side p.side t p).0 (raised g.side (straight g.side p.side t p) g ∷ fs)
      (straight-IsNode g.side p.side t p is),
)

length-descent :
    (key : ℕ) (t : Tree) (fs : List Frame) → length (descent key t fs) ≤ depth t + length fs
length-descent key leaf fs = omega arith
length-descent key (node l a k c r) fs = ground (
  arith,
  length-descent key l (record { side = left; at = a; key = k; red = c; sib = r } ∷ fs),
  length-descent key r (record { side = right; at = a; key = k; red = c; sib = l } ∷ fs),
)

descent-BlackTop :
    (key : ℕ) (t : Tree) (f : Frame) (fs : List Frame)
    → BlackTop (f ∷ fs)
    → BlackTop (descent key t (f ∷ fs))
descent-BlackTop key leaf f fs b = b
descent-BlackTop key (node l a k c r) f fs b = ground (
  arith,
  descent-BlackTop key l (record { side = left; at = a; key = k; red = c; sib = r }) (f ∷ fs) b,
  descent-BlackTop key r (record { side = right; at = a; key = k; red = c; sib = l }) (f ∷ fs) b,
)

pub descent-top : (key : ℕ) (t : Tree) → is_red t ≡ false → BlackTop (descent key t [])
descent-top key leaf e = tt
descent-top key (node l b k c r) e = ground (
  arith,
  descent-BlackTop key l (record { side = left; at = b; key = k; red = c; sib = r }) [] e,
  descent-BlackTop key r (record { side = right; at = b; key = k; red = c; sib = l }) [] e,
)

-- The parent that the root has after an insertion.
abbrev pub new_base : ℕ → Tree → ℕ
new_base base leaf = 0
new_base base (node l a k c r) = base

module _ (s base fuel a : ℕ) (t : Tree) (n ns : Node) (js : List Part) (black : ns.red ≡ false)
    (root_black : is_red t ≡ false) (enough : depth t < fuel) where
  grow-Spec :
      IsNode t
      → Spec s base
          (rbtree_insert s fuel a)
          (zip s base ns (cell_at a n ∷ js) t [])
          tt
          (zip s base ns js (inserted a n.key t) [])
  unfolding rbtree_insert
  grow-Spec is =
      known-Spec (λ h H. addr-ne-s s t is (omega (arith, H.apart (addr s t))))
        (λ ne. bind-Spec _ get_root-Spec (
          else-Spec (addr s t == s) _ _ ne (
            bind-Spec _ (value-Spec s base ns js a n fuel t [] (omega arith) is) (
              bind-Spec _
                (rebalance-Spec s base ns js black fuel (node leaf a n.key true leaf)
                  (descent n.key t []) (omega (arith, length-descent n.key t [])) tt
                  (descent-top n.key t root_black))
                (bind-Spec _ get_root-Spec (
                  result-Spec
                    (paint-Spec 0 base (balanced (node leaf a n.key true leaf) (descent n.key t []))
                      false (balanced-IsNode _ (descent n.key t []) tt) refl)
                    (λ h H.
                      rw
                        (addr-paint s false
                          (balanced (node leaf a n.key true leaf) (descent n.key t [])))
                        H)))))))

module _ (s fuel a : ℕ) (n ns : Node) (js : List Part) where
  start-Spec :
      Spec s 0
        (rbtree_insert s fuel a)
        (zip s 0 ns (cell_at a n ∷ js) leaf [])
        tt
        (zip s 0 ns js (inserted a n.key leaf) [])
  unfolding rbtree_insert
  start-Spec = bind-Spec _ get_root-Spec (
      then-Spec (s == s) _ _ (eq_self s) (
        bind-Spec _ (modify-Spec 3 refl _ refl) (
          result-Spec set_root-Spec (λ h H.
            let (none-Is, (path-Is, (s-Is, (a-Is, rest)))) = H.owned in
            record {
              root_is = H.root_is;
              owned = ((a-Is, tt, tt), (tt, (s-Is, rest)));
              apart = λ x. omega (arith, H.apart x);
            }))))

-- Nodes that stand beside the tree.
abbrev pub cells : List (ℕ × Node) → List Part
cells [] = []
cells ((a, n) ∷ others) = cell_at a n ∷ cells others

pub cells-base :
    (s base base' : ℕ) (mem : ℕ → Option Node) (others : List (ℕ × Node))
    → All (Is s base mem) (cells others)
    → All (Is s base' mem) (cells others)
cells-base s base base' mem [] st = tt
cells-base s base base' mem ((a, n) ∷ others) st = (st.0, cells-base s base base' mem others st.1)

-- The memory of a whole tree: the root, the tree, the sentinel with the node `ns`, which is black,
-- and other nodes, all at different addresses. `base` is the parent of the root.
abbrev pub Keeps : ℕ → ℕ → Node → List (ℕ × Node) → Heap → Tree → Type 0
Keeps s base ns others h t = Holds s base h (zip s base ns (cells others) t [])

-- With fuel for the depth of the tree, an insertion of the node at `a` ends, and the tree is the
-- one that `inserted` gives; the sentinel and the nodes beside it are as they were.
pub rbtree_insert-inserted :
    (s base fuel a : ℕ) (n ns : Node) (others : List (ℕ × Node)) (h : Heap) (t : Tree)
    → ns.red ≡ false
    → is_red t ≡ false
    → depth t < fuel
    → Keeps s base ns ((a, n) ∷ others) h t
    → (h' : Heap) × (rbtree_insert s fuel a h ≡ some (tt, h'))
      × Keeps s (new_base base t) ns others h' (inserted a n.key t)
rbtree_insert-inserted s base fuel a n ns others h leaf black root_black enough H =
    (start-Spec s fuel a n ns (cells others)).run h (record {
      root_is = H.root_is;
      owned = (tt, (tt, cells-base s base 0 h.cell ((s, ns) ∷ (a, n) ∷ others) H.owned.1.1));
      apart = H.apart;
    })
rbtree_insert-inserted s base fuel a n ns others h (node l b k c r) black root_black enough H =
    (grow-Spec s base fuel a (node l b k c r) n ns (cells others) black root_black enough tt).run h
      H
