-- ===== src/Rbtree.antt =====
-- src/kits/event/event_rbtree.cpp and event_rbtree.h: the red-black tree of the timers. An address
-- is a number, `nullptr` is 0, and the memory is a partial function from addresses to nodes; `none`
-- as a result is a read or a write where no node stands, or a loop that is out of fuel. Where the
-- source has two copies of its code, one for each side, there is one with the side as an argument.
pub mod Delete
pub mod Shape
pub mod Owns
pub mod Rules
pub mod Rotate
pub mod Zipper
pub mod Colors
pub mod Balance
pub mod Insert
pub mod Descent
pub mod Grow
pub mod Order
pub mod Shades
pub mod Promise
pub mod Walk
pub mod Beside
pub mod Steps
pub mod Settle
pub mod Turn
pub mod Mend
pub mod Sibling
pub mod Fixup
pub mod Unlink
pub mod Removed
pub mod Moved
pub mod Taken
pub mod Place
pub mod Least
pub mod Gone
pub mod Pruned
pub mod Tests
use hystack.Prelude.{
  ℕ, zero, suc, Bool, true, false, not, ◌&&◌, Option, none, some, ◌==◌, if◌then◌else◌, ltb,
}

-- The color is 1 for red and 0 for black, which are here `true` and `false`.
pub record Node : Type 0 where
  pub key : ℕ
  pub left : ℕ
  pub right : ℕ
  pub parent : ℕ
  pub red : Bool

-- The memory with `tree->root`. `tree->sentinel` does not change, and is an argument.
pub record Heap : Type 0 where
  pub root : ℕ
  pub cell : ℕ → Option Node

pub data Side : Type 0 where
  left right : Side

abbrev pub other : Side → Side
other left = right
other right = left

abbrev pub child : Side → Node → ℕ
child left n = n.left
child right n = n.right

abbrev pub with_child : Side → ℕ → Node → Node
with_child left p n = record n { left = p }
with_child right p n = record n { right = p }

abbrev pub M : Type 0 → Type 0
M A = Heap → Option (A × Heap)

abbrev pub pure : {A : Type 0} → A → M A
pure a h = some (a, h)

abbrev pub fault : {A : Type 0} → M A
fault h = none

abbrev pub run_then : {A B : Type 0} → Option (A × Heap) → (A → M B) → Option (B × Heap)
run_then none k = none
run_then (some (a, h)) k = k a h

infixl 5 ◌>>=◌ ◌>>◌
unfoldable pub ◌>>=◌ : {A B : Type 0} → M A → (A → M B) → M B
(m >>= k) h = run_then (m h) k

abbrev pub ◌>>◌ : {B : Type 0} → M (Unit {0}) → M B → M B
m >> k = m >>= λ _. k

abbrev pub get_root : M ℕ
get_root h = some (h.root, h)

abbrev pub set_root : ℕ → M (Unit {0})
set_root p h = some (tt, record h { root = p })

unfoldable pub write : Heap → ℕ → Node → Heap
write h p n = record h { cell = λ q. if q == p then some n else h.cell q }

unfoldable pub load : ℕ → M Node
load p h = elim (h.cell p) [ none ↦ none | some n ↦ some (n, h) ]

-- An assignment to a field of `*p`.
unfoldable pub modify : ℕ → (Node → Node) → M (Unit {0})
modify p f h = elim (h.cell p) [ none ↦ none | some n ↦ some (tt, write h p (f n)) ]

abbrev pub set_parent : ℕ → ℕ → M (Unit {0})
set_parent p q = modify p (λ n. record n { parent = q })

abbrev pub set_child : Side → ℕ → ℕ → M (Unit {0})
set_child side p q = modify p (with_child side q)

abbrev pub set_red : Bool → ℕ → M (Unit {0})
set_red red p = modify p (λ n. record n { red = red })

-- The side of its parent on which a node hangs: the test `node == node->parent->left` and its
-- mirror image, `side` being the one tested first.
abbrev pub side_of : Side → ℕ → Node → Side
side_of side node parent = if node == child side parent then side else other side

-- `temp` takes the place of `node` under its parent.
unfoldable pub replace : Side → ℕ → ℕ → ℕ → M (Unit {0})
replace side node parent temp = do
  root ← get_root
  if node == root
      then set_root temp
      else (do p ← load parent; set_child (side_of side node p) parent temp)

-- The first case of the balancing: the uncle is red.
unfoldable pub recolor : ℕ → ℕ → ℕ → M (Unit {0})
recolor parent uncle grand = do set_red false parent; set_red false uncle; set_red true grand

module _ (sentinel : ℕ) where
  unfoldable pub rbtree_min : ℕ → ℕ → M ℕ
  rbtree_min zero node = fault
  rbtree_min (suc fuel) node = do
    n ← load node
    let rest = rbtree_min fuel n.left
    if n.left == sentinel then pure node else rest

  -- The loop of `rbtree_next`; the result 0 is `nullptr`.
  unfoldable pub climb : ℕ → ℕ → M ℕ
  climb zero node = fault
  climb (suc fuel) node = do
    root ← get_root
    n ← load node
    let rest = climb fuel n.parent
    if node == root
        then pure 0
        else (do p ← load n.parent; if node == p.left then pure n.parent else rest)

  unfoldable pub rbtree_next : ℕ → ℕ → M ℕ
  rbtree_next fuel node = do
    n ← load node
    if n.right == sentinel then climb fuel node else rbtree_min fuel n.right

  -- What stands under a child that moves: its parent is written unless it is the sentinel.
  unfoldable pub adopt : ℕ → ℕ → M (Unit {0})
  adopt p parent = if p == sentinel then pure tt else set_parent p parent

  -- Down to the side; the two functions of the source are the cases below.
  unfoldable pub rotate : Side → ℕ → M (Unit {0})
  rotate side node = do
    n ← load node
    let temp = child (other side) n
    t ← load temp
    set_child (other side) node (child side t)
    adopt (child side t) node
    set_parent temp n.parent
    replace side node n.parent temp
    set_child side temp node
    set_parent node temp

  abbrev pub rbtree_left_rotate : ℕ → M (Unit {0})
  rbtree_left_rotate = rotate left

  abbrev pub rbtree_right_rotate : ℕ → M (Unit {0})
  rbtree_right_rotate = rotate right

  unfoldable pub rbtree_insert_value : ℕ → ℕ → ℕ → M (Unit {0})
  rbtree_insert_value zero temp node = fault
  rbtree_insert_value (suc fuel) temp node = do
    n ← load node
    t ← load temp
    let side = if ltb n.key t.key then left else right
    let rest = rbtree_insert_value fuel (child side t) node
    if child side t == sentinel
        then (do
          set_child side temp node
          modify node
              (λ m. record m { parent = temp; left = sentinel; right = sentinel; red = true }))
        else rest

  abbrev pub rbtree_insert_timer_value : ℕ → ℕ → ℕ → M (Unit {0})
  rbtree_insert_timer_value = rbtree_insert_value

  -- The second case of the balancing: the uncle is black.
  unfoldable pub turn_up : Side → ℕ → M (Unit {0})
  turn_up side node = do
    n ← load node
    set_red false n.parent
    p ← load n.parent
    set_red true p.parent
    rotate (other side) p.parent

  -- `if (node == node->parent->right) { node = node->parent; rotate }`
  unfoldable pub straighten : Side → ℕ → M ℕ
  straighten side node = do
    n ← load node
    p ← load n.parent
    if node == child (other side) p then (do rotate side n.parent; pure n.parent) else pure node

  -- The body of the loop, and the node that the next turn is about.
  unfoldable pub rebalance_step : ℕ → ℕ → M ℕ
  rebalance_step node parent = do
    p ← load parent
    g ← load p.parent
    let side = if parent == g.left then left else right
    let uncle = child (other side) g
    u ← load uncle
    if u.red
        then (do recolor parent uncle p.parent; pure p.parent)
        else (do node' ← straighten side node; turn_up side node'; pure node')

  unfoldable pub rebalance : ℕ → ℕ → M (Unit {0})
  rebalance zero node = fault
  rebalance (suc fuel) node = do
    root ← get_root
    n ← load node
    if node == root then pure tt else (do
      p ← load n.parent
      if p.red then (do node' ← rebalance_step node n.parent; rebalance fuel node') else pure tt)

  unfoldable pub rbtree_insert : ℕ → ℕ → M (Unit {0})
  rbtree_insert fuel node = do
    root ← get_root
    if root == sentinel
        then (do
          modify node (λ n. record n { parent = 0; left = sentinel; right = sentinel; red = false })
          set_root node)
        else (do
          rbtree_insert_value fuel root node
          rebalance fuel node
          root' ← get_root
          set_red false root')
