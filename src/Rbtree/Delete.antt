-- ===== src/Rbtree/Delete.antt =====
-- src/kits/event/event_rbtree.cpp: rbtree_delete.
use hystack.Prelude.{ℕ, zero, suc, Bool, true, false, not, ◌==◌, if◌then◌else◌}
use hystack.Rbtree.{
  Side, left, right, other, child, M, pure, fault, ◌>>=◌, ◌>>◌, get_root, set_root, load, modify,
  set_parent, set_child, set_red, side_of, rbtree_min, adopt, replace, rotate,
}

-- The node that leaves its place, and the one that takes it.
module _ (sentinel : ℕ) where
  unfoldable pub chosen : ℕ → ℕ → M (ℕ × ℕ)
  chosen fuel node = do
    n ← load node
    if n.left == sentinel
        then pure (node, n.right)
        else if n.right == sentinel
        then pure (node, n.left)
        else (do subst ← rbtree_min sentinel fuel n.right; m ← load subst; pure (subst, m.right))

  -- The lines marked `DEBUG stuff`.
  unfoldable pub forget : ℕ → M (Unit {0})
  forget node = modify node (λ n. record n { left = 0; right = 0; parent = 0; key = 0 })

  -- `subst` takes the place of `node`, another node.
  unfoldable pub move_subst : ℕ → ℕ → ℕ → M (Unit {0})
  move_subst node subst temp = do
    m ← load subst
    set_parent temp (if m.parent == node then subst else m.parent)
    n ← load node
    modify subst (λ m. record m { left = n.left; right = n.right; parent = n.parent; red = n.red })
    replace left node n.parent subst
    m' ← load subst
    adopt sentinel m'.left subst
    m'' ← load subst
    adopt sentinel m''.right subst

  unfoldable pub unlink : ℕ → ℕ → ℕ → M (Unit {0})
  unlink node subst temp = do
    m ← load subst
    p ← load m.parent
    set_child (side_of left subst p) m.parent temp
    if subst == node then set_parent temp m.parent else move_subst node subst temp

  unfoldable pub both_black : ℕ → ℕ → M Bool
  both_black l r = do a ← load l; if a.red then pure false else (do b ← load r; pure (not b.red))

  unfoldable pub sibling : Side → ℕ → M ℕ
  sibling side temp = do t ← load temp; p ← load t.parent; pure (child (other side) p)

  -- `if (rbtree_is_red(w))`
  unfoldable pub lift_red : Side → ℕ → ℕ → M ℕ
  lift_red side temp w = do
    m ← load w
    t ← load temp
    if m.red
        then (do
          set_red false w
          set_red true t.parent
          rotate sentinel side t.parent
          sibling side temp)
        else pure w

  -- `if (rbtree_is_black(w->right))` and its mirror image.
  unfoldable pub turn_out : Side → ℕ → ℕ → M ℕ
  turn_out side temp w = do
    m ← load w
    far ← load (child (other side) m)
    if far.red then pure w else (do
      set_red false (child side m)
      set_red true w
      rotate sentinel (other side) w
      sibling side temp)

  unfoldable pub close_up : Side → ℕ → ℕ → M (Unit {0})
  close_up side temp w = do
    t ← load temp
    p ← load t.parent
    set_red p.red w
    set_red false t.parent
    m ← load w
    set_red false (child (other side) m)
    rotate sentinel side t.parent

  -- What is done with a black sibling, and the node that the next turn is about.
  unfoldable pub settle : Side → ℕ → ℕ → M ℕ
  settle side temp w = do
    m ← load w
    black ← both_black m.left m.right
    if black
        then (do set_red true w; t ← load temp; pure t.parent)
        else (do w' ← turn_out side temp w; close_up side temp w'; get_root)

  -- The body of the loop.
  unfoldable pub fixup_step : ℕ → M ℕ
  fixup_step temp = do
    t ← load temp
    p ← load t.parent
    let side = if temp == p.left then left else right
    w ← lift_red side temp (child (other side) p)
    settle side temp w

  unfoldable pub fixup : ℕ → ℕ → M (Unit {0})
  fixup zero temp = fault
  fixup (suc fuel) temp = do
    root ← get_root
    if temp == root then set_red false temp else (do
      t ← load temp
      if t.red then set_red false temp else (do next ← fixup_step temp; fixup fuel next))

  -- What follows the choice of the two nodes.
  unfoldable pub take_out : ℕ → ℕ → ℕ → ℕ → M (Unit {0})
  take_out fuel node subst temp = do
    root ← get_root
    if subst == root then (do set_root temp; set_red false temp; forget node) else (do
      m ← load subst
      unlink node subst temp
      forget node
      if m.red then pure tt else fixup fuel temp)

  unfoldable pub rbtree_delete : ℕ → ℕ → M (Unit {0})
  rbtree_delete fuel node = do (subst, temp) ← chosen fuel node; take_out fuel node subst temp
