-- ===== src/EventTimer/Restart.antt =====
-- src/kits/event/event_timer.cpp: `del_timer`, and `add_timer` on a timer that is set.
use hystack.Prelude.{
  ◌⊎◌, inl, inr, ◌≤◌, ℕ, suc, ◌+◌, ◌*◌, ◌%◌, ◌^◌, ◌<◌, Bool, true, false, List, ◌∷◌, ◌++◌, ◌==◌,
  if◌then◌else◌, some, ◌≡◌, ◌≢◌, refl, arith, ◌∙◌, ap, length, length-append,
}
use hystack.Rbtree.{Node, load, modify}
use hystack.Rbtree.Delete.{rbtree_delete}
use hystack.Rbtree.Shape.{Tree, in_order, count}
use hystack.Rbtree.Rules.{modify-Spec, eq_self}
use hystack.Rbtree.Grow.{Keeps, new_base}
use hystack.Rbtree.Order.{placed}
use hystack.Rbtree.Promise.{IsTidy}
use hystack.Rbtree.Unlink.{forgotten}
use hystack.Rbtree.Pruned.{rbtree_delete-removed}
use hystack.EventTimer.{Timers, ◌>>=◌, set_event, low_difference, is_lazy, del_timer, add_timer}
use hystack.EventTimer.Left.{tree_step}
use hystack.EventTimer.Add.{ne→false, load-cell, start_timer-placed}

-- Two ends are 300 ms apart or more, and less than 2 ^ 31 ms.
abbrev pub IsApart : ℕ → ℕ → Type 0
IsApart old new =
    ((old + 300 ≤ new) × (new < old + 2 ^ 31)) ⊎ ((new + 300 ≤ old) × (old < new + 2 ^ 31))

apart_lem :
    (old new : ℕ)
    → old < 2 ^ 64
    → new < 2 ^ 64
    → IsApart old new
    → ((low_difference (new % 2 ^ 64) old == 2 ^ 31) ≡ false)
      × (is_lazy (low_difference (new % 2 ^ 64) old) ≡ false)
unfolding low_difference is_lazy
apart_lem old new p q (inl (far, near)) = (ground arith, ground arith)
apart_lem old new p q (inr (far, near)) = (ground arith, ground arith)

module _ (s base fuel b ev : ℕ) (ns : Node) (others : List (ℕ × Node)) (ts : Timers) (t : Tree)
    (black : ns.red ≡ false) (tidy : IsTidy t) (few : length (in_order t) + 1 < 2 ^ suc b)
    (enough : 2 * b < fuel) (some_there : 0 < count ev t)
    (H : Keeps s base ns others ts.heap t) where
  -- Let the memory hold a tidy tree of timers with the node of the event `ev`, and let the fuel be
  -- enough for a deletion. Then `del_timer` ends, the memory holds a tidy tree with all other timers
  -- in the order that they had, the node is beside it, `timer_set` of `ev` is 0, and no other event
  -- has changed.
  pub del_timer-removed :
      (xs : List (ℕ × ℕ)) × (k : ℕ) × (ys : List (ℕ × ℕ)) × (c : Bool) × (ts' : Timers)
      × (base' : ℕ) × (ns' : Node) × (t' : Tree) × (in_order t ≡ xs ++ (ev, k) ∷ ys)
      × (del_timer s fuel ev ts ≡ some (tt, ts'))
      × Keeps s base' ns' ((ev, forgotten c) ∷ others) ts'.heap t'
      × (ns'.red ≡ false)
      × IsTidy t'
      × (in_order t' ≡ xs ++ ys)
      × (ts'.event ev ≡ record (ts.event ev) { timer_set = false })
      × ((p : ℕ) → p ≢ ev → ts'.event p ≡ ts.event p)
  unfolding del_timer set_event ◌>>=◌
  del_timer-removed =
      let (xs, k, ys, c, h, base', ns', t', split, run, H', black', tidy', rest) =
        rbtree_delete-removed s base fuel b ev ns others ts.heap t black tidy few enough some_there
          H in
      let (h', cleared, H'') =
        (modify-Spec {s = s} {base = base'} 3 refl
            (λ n. record n { left = 0; right = 0; parent = 0 }) {new = forgotten c} refl).run
          h H' in
      (
        xs,
        k,
        ys,
        c,
        record {
          heap = h';
          event = λ p. if p == ev then record (ts.event ev) { timer_set = false } else ts.event p;
        },
        base',
        ns',
        t',
        split,
        tree_step (rbtree_delete s fuel ev) _ ts run
            ∙ tree_step (modify ev (λ n. record n { left = 0; right = 0; parent = 0 })) _
                (record ts { heap = h }) cleared,
        H'',
        black',
        tidy',
        rest,
        rw (eq_self ev),
        (λ p ne. rw (ne→false p ev ne)),
      )

  -- Let the memory hold a tidy tree of timers with the node of the event `ev`, whose `timer_set` is
  -- 1, let the fuel be enough for a deletion, and let the old end and the new one, both below 2 ^ 64,
  -- be 300 ms apart or more, and less than 2 ^ 31 ms. Then `add_timer` ends, and the memory holds a
  -- tidy tree with the node behind all other timers that end no later than `now + timer` and before
  -- the rest, in the order that they had; `timer_set` of `ev` is 1, and no other event has changed.
  pub add_timer-moved :
      (now timer : ℕ) (n : Node)
      → ts.heap.cell ev ≡ some n
      → (ts.event ev).timer_set ≡ true
      → n.key < 2 ^ 64
      → now + timer < 2 ^ 64
      → IsApart n.key (now + timer)
      → (xs : List (ℕ × ℕ)) × (k : ℕ) × (ys : List (ℕ × ℕ)) × (ts' : Timers) × (base' : ℕ)
        × (ns' : Node) × (t' : Tree) × (in_order t ≡ xs ++ (ev, k) ∷ ys)
        × (add_timer s now fuel ev timer ts ≡ some (tt, ts'))
        × Keeps s base' ns' others ts'.heap t'
        × (ns'.red ≡ false)
        × IsTidy t'
        × (in_order t' ≡ placed ev (now + timer) (xs ++ ys))
        × ((ts'.event ev).timer_set ≡ true)
        × ((p : ℕ) → p ≢ ev → ts'.event p ≡ ts.event p)
  unfolding add_timer load ◌>>=◌
  add_timer-moved now timer n held is_set small small' apart =
      let key : (now + timer) % 2 ^ 64 ≡ now + timer = omega arith in
      let (not_least, not_near) = apart_lem n.key (now + timer) small small' apart in
      let (xs, k, ys, c, mid, base', ns', t', split, run, H', black', tidy', rest, on-ev, off-ev) =
        del_timer-removed in
      let fewer : length (in_order t') + 1 < 2 ^ suc b = omega (
        arith,
        few,
        ap length split,
        ap length rest,
        length-append xs ((ev, k) ∷ ys),
        length-append xs ys,
      ) in
      let (ts', t'', run', H'', tidy'', placed', on-ev', off-ev') =
        start_timer-placed s base' fuel b now ev (forgotten c) ns' others mid t' black' tidy' fewer
          enough H' ((now + timer) % 2 ^ 64) in
      (
        xs,
        k,
        ys,
        ts',
        new_base base' t',
        ns',
        t'',
        split,
        tree_step (load ev) _ ts (load-cell ts.heap ev n held)
            ∙ rw (is_set, not_least, not_near, run) run',
        H'',
        black',
        tidy'',
        placed'
            ∙ ap (placed ev ((now + timer) % 2 ^ 64)) rest
            ∙ ap (λ k. placed ev k (xs ++ ys)) key,
        ap (λ e. e.timer_set) on-ev',
        (λ p ne. off-ev' p ne ∙ off-ev p ne),
      )
