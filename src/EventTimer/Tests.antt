-- ===== src/EventTimer/Tests.antt =====
-- The timers at concrete inputs.
use hystack.Prelude.{
  ℕ, inl, ◌≢◌, ◌≡◌, refl, arith, Bool, true, false, some, List, [], ◌∷◌, ◌++◌, ◌==◌, if◌then◌else◌,
}
use hystack.Rbtree.Shape.{Tree, in_order}
use hystack.Rbtree.Grow.{Keeps}
use hystack.Rbtree.Promise.{IsTidy}
use hystack.Rbtree.Tests.{two_tree, two_heap, two_heap-Keeps, two_tree-IsTidy, end_node, spare}
use hystack.EventTimer.{Timers, no_left, find, del_timer, add_timer, ret_again}
use hystack.EventTimer.Left.{no_left_lem}
use hystack.EventTimer.Find.{find-due, find-overdue}
use hystack.Rbtree.{Node}
use hystack.Rbtree.Unlink.{forgotten}
use hystack.Rbtree.Order.{placed}
use hystack.EventTimer.Restart.{del_timer-removed, add_timer-moved}
use hystack.EventTimer.Expire.{Expired, expire-pending}
use hystack.EventTimer.Add.{add_timer-placed, add_timer-lazy}

-- The timers at 2 and 3 are set, and the one at 3 is not cancelable.
abbrev two_timers : Timers
two_timers = record {
  heap = two_heap;
  event = λ p. record {
    timer_set = (if p == 4 then false else true);
    timed_out = false;
    cancelable = p == 2;
  };
}

no_left_lem_example : no_left 1 5 two_timers ≡ some (ret_again, two_timers)
no_left_lem_example =
    no_left_lem 1 0 5 end_node ((4, spare) ∷ []) two_timers two_tree two_heap-Keeps refl
      (omega arith)

find-due_example : find 1 12 3 two_timers ≡ some (8, two_timers)
find-due_example =
    find-due 1 0 3 12 end_node ((4, spare) ∷ []) two_timers two_tree two_heap-Keeps tt (omega arith)
      (omega arith) (omega arith)

find-overdue_example : find 1 25 3 two_timers ≡ some (18446744073709551611, two_timers)
find-overdue_example =
    find-overdue 1 0 3 25 end_node ((4, spare) ∷ []) two_timers two_tree two_heap-Keeps tt
      (omega arith) (omega arith) (omega arith) (omega arith)

add_timer-placed_example :
    (ts' : Timers) × (t' : Tree) × (add_timer 1 12 5 4 13 two_timers ≡ some (tt, ts'))
    × Keeps 1 0 end_node [] ts'.heap t'
    × IsTidy t'
    × (in_order t' ≡ (2, 20) ∷ (4, 25) ∷ (3, 30) ∷ [])
    × (ts'.event 4 ≡ record { timer_set = true; timed_out = false; cancelable = false })
    × ((p : ℕ) → p ≢ 4 → ts'.event p ≡ two_timers.event p)
add_timer-placed_example =
    add_timer-placed 1 0 5 1 12 4 spare end_node [] two_timers two_tree refl two_tree-IsTidy
      (omega arith) (omega arith) two_heap-Keeps 13 refl

add_timer-lazy_example : add_timer 1 12 5 3 300 two_timers ≡ some (tt, two_timers)
add_timer-lazy_example =
    add_timer-lazy 1 12 5 3 300 (record { key = 30; left = 2; right = 1; parent = 0; red = false })
      two_timers refl refl (omega arith) (omega arith) (omega arith) (omega arith)

expire-pending_example :
    Expired 1 25
      (λ p ts. some (tt, ts))
      (λ p event. event)
      5
      two_timers
      ((4, spare) ∷ [])
      ((2, 20) ∷ (3, 30) ∷ [])
expire-pending_example =
    expire-pending 1 25 (λ p ts. some (tt, ts)) (λ p event. event) (λ p ts. refl) 5 0 1 end_node
      ((4, spare) ∷ []) two_timers two_tree refl two_tree-IsTidy (omega arith) (omega arith)
      two_heap-Keeps

del_timer-removed_example :
    (xs : List (ℕ × ℕ)) × (k : ℕ) × (ys : List (ℕ × ℕ)) × (c : Bool) × (ts' : Timers) × (base' : ℕ)
    × (ns' : Node) × (t' : Tree) × (in_order two_tree ≡ xs ++ (3, k) ∷ ys)
    × (del_timer 1 5 3 two_timers ≡ some (tt, ts'))
    × Keeps 1 base' ns' ((3, forgotten c) ∷ (4, spare) ∷ []) ts'.heap t'
    × (ns'.red ≡ false)
    × IsTidy t'
    × (in_order t' ≡ xs ++ ys)
    × (ts'.event 3 ≡ record { timer_set = false; timed_out = false; cancelable = false })
    × ((p : ℕ) → p ≢ 3 → ts'.event p ≡ two_timers.event p)
del_timer-removed_example =
    del_timer-removed 1 0 5 1 3 end_node ((4, spare) ∷ []) two_timers two_tree refl two_tree-IsTidy
      (omega arith) (omega arith) (omega arith) two_heap-Keeps

add_timer-moved_example :
    (xs : List (ℕ × ℕ)) × (k : ℕ) × (ys : List (ℕ × ℕ)) × (ts' : Timers) × (base' : ℕ)
    × (ns' : Node) × (t' : Tree) × (in_order two_tree ≡ xs ++ (3, k) ∷ ys)
    × (add_timer 1 12 5 3 400 two_timers ≡ some (tt, ts'))
    × Keeps 1 base' ns' ((4, spare) ∷ []) ts'.heap t'
    × (ns'.red ≡ false)
    × IsTidy t'
    × (in_order t' ≡ placed 3 412 (xs ++ ys))
    × ((ts'.event 3).timer_set ≡ true)
    × ((p : ℕ) → p ≢ 3 → ts'.event p ≡ two_timers.event p)
add_timer-moved_example =
    add_timer-moved 1 0 5 1 3 end_node ((4, spare) ∷ []) two_timers two_tree refl two_tree-IsTidy
      (omega arith) (omega arith) (omega arith) two_heap-Keeps 12 400
      (record { key = 30; left = 2; right = 1; parent = 0; red = false }) refl refl (omega arith)
      (omega arith) (inl (omega arith, omega arith))
