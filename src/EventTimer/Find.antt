-- ===== src/EventTimer/Find.antt =====
-- src/kits/event/event_timer.cpp: `find`, the time to the end of the first timer.
use hystack.Prelude.{
  ℕ, ◌-◌, ◌^◌, ◌≤◌, ◌<◌, Bool, List, [], ◌∷◌, ◌++◌, if◌then◌else◌, Option, some, ◌≡◌, refl, arith,
  sym, ◌∙◌, ltb, append_assoc,
}
use mathlib.Core.Path.{subst}
use hystack.Rbtree.{Node, Heap, load, rbtree_min, get_root}
use hystack.Rbtree.Shape.{Tree, leaf, node, count, in_order, depth}
use hystack.Rbtree.Owns.{total, Stands}
use hystack.Rbtree.Rules.{eq_self}
use hystack.Rbtree.Colors.{IsNode}
use hystack.Rbtree.Zipper.{zip}
use hystack.Rbtree.Walk.{first, first-append, rbtree_min-first}
use hystack.Rbtree.Grow.{Keeps, cells}
use hystack.EventTimer.{Timers, low_difference, sign_extended, timer_infinite, find}
use hystack.EventTimer.Left.{tree_step, not_sentinel}

-- The key of the first node, and 0 if there is none.
abbrev pub first_key : List (ℕ × ℕ) → ℕ
first_key [] = 0
first_key ((a, k) ∷ others) = k

first_key-append :
    (l : Tree) (a k : ℕ) (c : Bool) (r : Tree) (ys : List (ℕ × ℕ))
    → first_key (in_order (node l a k c r) ++ ys) ≡ first_key (in_order (node l a k c r))
first_key-append leaf a k c r ys = refl
first_key-append (node l b kb cb m) a k c r ys = rw (
  append_assoc (in_order (node l b kb cb m)) ((a, k) ∷ in_order r) ys,
  first_key-append l b kb cb m (((a, k) ∷ in_order r) ++ ys),
  first_key-append l b kb cb m ((a, k) ∷ in_order r),
)

-- The node that comes first holds its key.
first-holds :
    (s base : ℕ) (mem : ℕ → Option Node) (q : ℕ) (l : Tree) (a k : ℕ) (c : Bool) (r : Tree)
    → Stands s base mem q (node l a k c r)
    → (n : Node) × (mem (first (in_order (node l a k c r))) ≡ some n)
      × (n.key ≡ first_key (in_order (node l a k c r)))
first-holds s base mem q leaf a k c r st = (_, st.0, refl)
first-holds s base mem q (node l b kb cb m) a k c r st =
    rw
      (
        first-append l b kb cb m ((a, k) ∷ in_order r),
        first_key-append l b kb cb m ((a, k) ∷ in_order r),
      )
      (first-holds s base mem a l b kb cb m st.1)

-- The numbers that `find` computes, before the end of a timer and after it.
sign_extended-due :
    (key now : ℕ)
    → now ≤ key
    → key - now < 2 ^ 31
    → sign_extended (low_difference key now) ≡ key - now
unfolding sign_extended low_difference
sign_extended-due key now le near = ground arith

sign_extended-overdue :
    (key now : ℕ)
    → key < now
    → now - key ≤ 2 ^ 31
    → now < 2 ^ 64
    → sign_extended (low_difference key now) ≡ 2 ^ 64 - (now - key)
unfolding sign_extended low_difference
sign_extended-overdue key now late near small = ground arith

abbrev waiting : ℕ → Tree → ℕ
waiting now leaf = timer_infinite
waiting now (node l a k c r) =
    sign_extended (low_difference (first_key (in_order (node l a k c r))) now)

find-waiting :
    (s base fuel now : ℕ) (ns : Node) (others : List (ℕ × Node)) (ts : Timers) (t : Tree)
    → Keeps s base ns others ts.heap t
    → depth t ≤ fuel
    → find s now fuel ts ≡ some (waiting now t, ts)
unfolding find load
find-waiting s base fuel now ns others ts leaf H enough =
    tree_step get_root _ ts {a = ts.heap.root} {h = ts.heap} refl ∙ rw (H.root_is, eq_self s)
find-waiting s base fuel now ns others ts (node l a k c r) H enough =
    tree_step get_root _ ts {a = ts.heap.root} {h = ts.heap} refl
    ∙ rw (not_sentinel s base ns (cells others) ts.heap l a k c r H) (
        tree_step (rbtree_min s fuel ts.heap.root) _ ts (
          subst
            (λ (p : ℕ).
              rbtree_min s fuel p ts.heap ≡ some (first (in_order (node l a k c r)), ts.heap))
            (sym H.root_is)
            (rbtree_min-first s base ts.heap fuel base l a k c r (alone (H.apart s)) (omega arith)
              H.owned.0))
        ∙ (let (n, n-Is, key-Is) = first-holds s base ts.heap.cell base l a k c r H.owned.0 in
            tree_step (load (first (in_order (node l a k c r)))) _ ts
              (load-lem ts.heap (first (in_order (node l a k c r))) n n-Is)
            ∙ rw key-Is (positive (waiting now (node l a k c r)) ts)))
  where
    alone :
        total s (zip s base ns (cells others) (node l a k c r) []).1 ≤ 1
        → count s (node l a k c r) ≡ 0
    alone le = ground arith

    positive :
        (d : ℕ) (ts : Timers)
        → ◌≡◌ {A = Option (ℕ × Timers)} (some ((if ltb 0 d then d else 0), ts)) (some (d, ts))
    positive d ts = ground arith

    load-lem : (h : Heap) (p : ℕ) (n : Node) → h.cell p ≡ some n → load p h ≡ some (n, h)
    load-lem h p n e = rw (load, e)

-- Let the memory hold a tree of timers, with fuel for its depth, and let the first timer end at
-- `first_key`, less than 2 ^ 31 ms from now and not before. Then `find` ends, changes nothing, and
-- gives the time that is left.
pub find-due :
    (s base fuel now : ℕ) (ns : Node) (others : List (ℕ × Node)) (ts : Timers) (t : Tree)
    → Keeps s base ns others ts.heap t
    → IsNode t
    → depth t ≤ fuel
    → now ≤ first_key (in_order t)
    → first_key (in_order t) - now < 2 ^ 31
    → find s now fuel ts ≡ some (first_key (in_order t) - now, ts)
find-due s base fuel now ns others ts leaf H is enough le near = absurd is
find-due s base fuel now ns others ts (node l a k c r) H is enough le near =
    find-waiting s base fuel now ns others ts (node l a k c r) H enough
    ∙ rw (sign_extended-due (first_key (in_order (node l a k c r))) now le near)

-- If the first timer has ended, at most 2 ^ 31 ms ago, then `find` does not give 0 but 2 ^ 64 less
-- the time since.
pub find-overdue :
    (s base fuel now : ℕ) (ns : Node) (others : List (ℕ × Node)) (ts : Timers) (t : Tree)
    → Keeps s base ns others ts.heap t
    → IsNode t
    → depth t ≤ fuel
    → first_key (in_order t) < now
    → now - first_key (in_order t) ≤ 2 ^ 31
    → now < 2 ^ 64
    → find s now fuel ts ≡ some (2 ^ 64 - (now - first_key (in_order t)), ts)
find-overdue s base fuel now ns others ts leaf H is enough late near small = absurd is
find-overdue s base fuel now ns others ts (node l a k c r) H is enough late near small =
    find-waiting s base fuel now ns others ts (node l a k c r) H enough
    ∙ rw (sign_extended-overdue (first_key (in_order (node l a k c r))) now late near small)
