-- ===== src/EventTimer/Add.antt =====
-- src/kits/event/event_timer.cpp: `add_timer`.
use hystack.Prelude.{
  ℕ, suc, ◌+◌, ◌*◌, ◌%◌, ◌^◌, ◌<◌, true, false, List, ◌∷◌, ◌==◌, if◌then◌else◌, some, ◌≡◌, ◌≢◌,
  refl, arith, ◌∙◌, length,
}
use hystack.Rbtree.{Node, Heap, load, modify, rbtree_insert}
use hystack.Rbtree.Shape.{Tree, in_order}
use hystack.Rbtree.Rules.{modify-Spec, eq_self}
use hystack.Rbtree.Grow.{Keeps, new_base}
use hystack.Rbtree.Order.{placed}
use hystack.Rbtree.Promise.{IsTidy, rbtree_insert-placed}
use hystack.EventTimer.{Timers, ◌>>=◌, set_event, low_difference, is_lazy, start_timer, add_timer}
use hystack.EventTimer.Left.{tree_step}

pub ne→false : (p q : ℕ) → p ≢ q → (p == q) ≡ false
ne→false p q ne = ground arith

pub load-cell : (h : Heap) (p : ℕ) (n : Node) → h.cell p ≡ some n → load p h ≡ some (n, h)
unfolding load
load-cell h p n e = rw (load, e)

module _ (s base fuel b now ev : ℕ) (n ns : Node) (others : List (ℕ × Node)) (ts : Timers)
    (t : Tree) (black : ns.red ≡ false) (tidy : IsTidy t)
    (few : length (in_order t) + 1 < 2 ^ suc b) (enough : 2 * b < fuel)
    (H : Keeps s base ns ((ev, n) ∷ others) ts.heap t) where
  pub start_timer-placed :
      (key : ℕ)
      → (ts' : Timers) × (t' : Tree) × (start_timer s fuel ev key ts ≡ some (tt, ts'))
        × Keeps s (new_base base t) ns others ts'.heap t'
        × IsTidy t'
        × (in_order t' ≡ placed ev key (in_order t))
        × (ts'.event ev ≡ record (ts.event ev) { timer_set = true })
        × ((p : ℕ) → p ≢ ev → ts'.event p ≡ ts.event p)
  unfolding start_timer set_event ◌>>=◌
  start_timer-placed key =
      let (h, keyed, H') =
        (modify-Spec 3 refl (λ n. record n { key = key }) {new = record n { key = key }} refl).run
          ts.heap H in
      let (h', t', run, H'', tidy', placed') =
        rbtree_insert-placed s base fuel b ev (record n { key = key }) ns others h t black tidy few
          enough H' in
      (
        record {
          heap = h';
          event = λ p. if p == ev then record (ts.event ev) { timer_set = true } else ts.event p;
        },
        t',
        tree_step (modify ev (λ n. record n { key = key })) _ ts keyed
            ∙ tree_step (rbtree_insert s fuel ev) _ (record ts { heap = h }) run,
        H'',
        tidy',
        placed',
        rw (eq_self ev),
        (λ p ne. rw (ne→false p ev ne)),
      )

  -- Let the memory hold a tidy tree of timers and, outside it, the node of the event `ev`, whose
  -- `timer_set` is 0, and let the fuel be enough for an insertion. Then `add_timer` ends, the
  -- memory holds a tidy tree with the node behind all timers that end no later than `now + timer`
  -- modulo 2 ^ 64 and before the others, whose order is as it was, `timer_set` of `ev` is 1, and no
  -- other event has changed.
  pub add_timer-placed :
      (timer : ℕ)
      → (ts.event ev).timer_set ≡ false
      → (ts' : Timers) × (t' : Tree) × (add_timer s now fuel ev timer ts ≡ some (tt, ts'))
        × Keeps s (new_base base t) ns others ts'.heap t'
        × IsTidy t'
        × (in_order t' ≡ placed ev ((now + timer) % 2 ^ 64) (in_order t))
        × (ts'.event ev ≡ record (ts.event ev) { timer_set = true })
        × ((p : ℕ) → p ≢ ev → ts'.event p ≡ ts.event p)
  unfolding add_timer load ◌>>=◌
  add_timer-placed timer unset =
      let (ts', t', run, H', tidy', placed', on-ev, off-ev) =
        start_timer-placed ((now + timer) % 2 ^ 64) in
      (
        ts',
        t',
        tree_step (load ev) _ ts (load-cell ts.heap ev n H.owned.1.1.1.0) ∙ rw unset run,
        H',
        tidy',
        placed',
        on-ev,
        off-ev,
      )

-- A timer that is set to end within 300 ms of its old end stays as it is, and so do all others.
pub add_timer-lazy :
    (s now fuel ev timer : ℕ) (n : Node) (ts : Timers)
    → ts.heap.cell ev ≡ some n
    → (ts.event ev).timer_set ≡ true
    → n.key < 2 ^ 64
    → now + timer < 2 ^ 64
    → n.key < now + timer + 300
    → now + timer < n.key + 300
    → add_timer s now fuel ev timer ts ≡ some (tt, ts)
unfolding add_timer load ◌>>=◌ low_difference is_lazy
add_timer-lazy s now fuel ev timer n ts held is_set small small' above below =
    tree_step (load ev) _ ts (load-cell ts.heap ev n held)
    ∙ rw (
      is_set,
      not_least n.key (now + timer) small small' above below,
      near n.key (now + timer) small small' above below,
    )
  where
    not_least :
        (k key : ℕ)
        → k < 2 ^ 64
        → key < 2 ^ 64
        → k < key + 300
        → key < k + 300
        → (low_difference (key % 2 ^ 64) k == 2 ^ 31) ≡ false
    not_least k key small small' above below = ground arith

    near :
        (k key : ℕ)
        → k < 2 ^ 64
        → key < 2 ^ 64
        → k < key + 300
        → key < k + 300
        → is_lazy (low_difference (key % 2 ^ 64) k) ≡ true
    near k key small small' above below = ground arith
