-- ===== src/Rbtree/Tests.antt =====
-- A tree of seven nodes, grown and pruned.
use hystack.Prelude.{
  ℕ, zero, suc, ◌*◌, ◌≡◌, arith, refl, Bool, true, false, Option, none, some, List, [], ◌∷◌, ◌++◌,
  ◌==◌, if◌then◌else◌,
}
use hystack.Rbtree.{
  Node, Heap, left, M, pure, ◌>>=◌, ◌>>◌, load, modify, write, recolor, rbtree_min, rbtree_next,
  adopt, replace, rotate, rbtree_insert_value, turn_up, straighten, rebalance_step, rebalance,
  rbtree_insert,
}
use hystack.Rbtree.Delete.{
  chosen, forget, move_subst, unlink, both_black, sibling, lift_red, turn_out, close_up, settle,
  fixup_step, fixup, take_out, rbtree_delete,
}
use hystack.Rbtree.Shape.{Tree, leaf, node, in_order}
use hystack.Rbtree.Owns.{cell_at}
use hystack.Rbtree.Zipper.{move_down}
use hystack.Rbtree.Grow.{Keeps}
use hystack.Rbtree.Promise.{IsTidy, rbtree_insert-placed}
use hystack.Rbtree.Walk.{rbtree_next-first}
use hystack.Rbtree.Unlink.{forgotten}
use hystack.Rbtree.Pruned.{rbtree_delete-removed}

-- The sentinel stands at 1. Nodes with keys 10 times their address stand at 2 to 20.
abbrev start : Heap
start = record {
  root = 1;
  cell = λ p.
      if p == 0
      then none
      else some (record { key = p * 10; left = 0; right = 0; parent = 0; red = false });
}

insert_all : List ℕ → M (Unit {0})
insert_all [] = pure tt
insert_all (p ∷ ps) = rbtree_insert 1 20 p >> insert_all ps

delete_all : List ℕ → M (Unit {0})
delete_all [] = pure tt
delete_all (p ∷ ps) = rbtree_delete 1 20 p >> delete_all ps

-- The addresses and colors of the tree in order.
walk : ℕ → ℕ → Heap → List (ℕ × Bool)
walk zero p h = []
walk (suc fuel) p h = if p == 1 then [] else elim (h.cell p) [
  | none ↦ []
  | some n ↦ walk fuel n.left h ++ ((p, n.red) ∷ walk fuel n.right h)
]

shape : Option (Unit {0} × Heap) → Option (ℕ × List (ℕ × Bool))
shape none = none
shape (some (_, h)) = some (h.root, walk 8 h.root h)

grown :
    shape (insert_all (2 ∷ 3 ∷ 4 ∷ 5 ∷ 6 ∷ 7 ∷ 8 ∷ []) start)
    ≡ some (
      3,
      (2, false) ∷ (3, false) ∷ (4, false) ∷ (5, true) ∷ (6, true) ∷ (7, false) ∷ (8, true) ∷ [],
    )
unfolding ◌>>=◌ recolor shape walk insert_all rbtree_insert rebalance rebalance_step straighten
    turn_up rbtree_insert_value rotate replace adopt load modify write
grown = refl

pruned :
    shape ((insert_all (2 ∷ 3 ∷ 4 ∷ 5 ∷ 6 ∷ 7 ∷ 8 ∷ []) >> delete_all (3 ∷ 2 ∷ 4 ∷ 8 ∷ [])) start)
    ≡ some (6, (5, false) ∷ (6, false) ∷ (7, false) ∷ [])
unfolding ◌>>=◌ recolor shape walk insert_all rbtree_insert rebalance rebalance_step straighten
    turn_up rbtree_insert_value rotate replace adopt load modify write delete_all rbtree_delete
    chosen take_out unlink move_subst forget fixup fixup_step settle lift_red turn_out close_up
    both_black sibling rbtree_min
pruned = refl

-- Two nodes, one more beside them, and the sentinel at 1.
abbrev pub two_tree : Tree
two_tree = node (node leaf 2 20 true leaf) 3 30 false leaf

abbrev pub spare : Node
spare = record { key = 25; left = 0; right = 0; parent = 0; red = false }

abbrev pub end_node : Node
end_node = record { key = 0; left = 0; right = 0; parent = 0; red = false }

abbrev pub two_heap : Heap
two_heap = record {
  root = 3;
  cell = λ p.
      if p == 1
      then some end_node
      else if p == 2
      then some (record { key = 20; left = 1; right = 1; parent = 3; red = true })
      else if p == 3
      then some (record { key = 30; left = 2; right = 1; parent = 0; red = false })
      else if p == 4
      then some spare
      else none;
}

pub two_heap-Keeps : Keeps 1 0 end_node ((4, spare) ∷ []) two_heap two_tree
two_heap-Keeps = record {
  root_is = refl;
  owned = ((refl, (refl, tt, tt), tt), (tt, (refl, (refl, tt))));
  apart = λ x. ground arith;
}

pub two_tree-IsTidy : IsTidy two_tree
two_tree-IsTidy = ground arith

rbtree_insert-placed_example :
    (h' : Heap) × (t' : Tree) × (rbtree_insert 1 5 4 two_heap ≡ some (tt, h'))
    × Keeps 1 0 end_node [] h' t'
    × IsTidy t'
    × (in_order t' ≡ (2, 20) ∷ (4, 25) ∷ (3, 30) ∷ [])
rbtree_insert-placed_example =
    rbtree_insert-placed 1 0 5 1 4 spare end_node [] two_heap two_tree refl two_tree-IsTidy
      (omega arith) (omega arith) two_heap-Keeps

rbtree_next-first_example : rbtree_next 1 3 2 two_heap ≡ some (3, two_heap)
rbtree_next-first_example =
    rbtree_next-first 1 0 end_node (cell_at 4 spare ∷ []) two_heap 3 leaf 2 20 true leaf
      (record { side = left; at = 3; key = 30; red = false; sib = leaf } ∷ []) (omega arith)
      (omega arith)
      (move_down 1 0 end_node (cell_at 4 spare ∷ []) two_heap left (node leaf 2 20 true leaf) 3 30
        false leaf [] two_heap-Keeps)

rbtree_delete-removed_example :
    (xs : List (ℕ × ℕ)) × (k : ℕ) × (ys : List (ℕ × ℕ)) × (c : Bool) × (h' : Heap) × (base' : ℕ)
    × (ns' : Node) × (t' : Tree) × (in_order two_tree ≡ xs ++ (3, k) ∷ ys)
    × (rbtree_delete 1 5 3 two_heap ≡ some (tt, h'))
    × Keeps 1 base' ns' ((3, forgotten c) ∷ (4, spare) ∷ []) h' t'
    × (ns'.red ≡ false)
    × IsTidy t'
    × (in_order t' ≡ xs ++ ys)
rbtree_delete-removed_example =
    rbtree_delete-removed 1 0 5 1 3 end_node ((4, spare) ∷ []) two_heap two_tree refl
      two_tree-IsTidy (omega arith) (omega arith) (omega arith) two_heap-Keeps
