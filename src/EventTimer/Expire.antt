-- ===== src/EventTimer/Expire.antt =====
-- src/kits/event/event_timer.cpp: `expire`.
use hystack.Prelude.{
  ℕ, zero, suc, ◌+◌, ◌-◌, ◌*◌, ◌%◌, ◌^◌, ◌≤◌, ◌<◌, Bool, true, false, ◌&&◌, List, [], ◌∷◌, ◌++◌,
  ◌==◌, if◌then◌else◌, some, ◌≡◌, refl, arith, sym, ap, ◌∙◌, append_assoc, length, ltb, Bool-cases,
  inl, inr,
}
use mathlib.Core.Path.{subst}
use hystack.Rbtree.{Node, rbtree_min, get_root, load}
use hystack.Rbtree.Delete.{rbtree_delete}
use hystack.Rbtree.Shape.{Tree, leaf, node, Frame, plug, count, in_order, depth}
use hystack.Rbtree.Rules.{eq_self}
use hystack.Rbtree.Walk.{first, rbtree_min-first}
use hystack.Rbtree.Grow.{Keeps, cells}
use hystack.Rbtree.Colors.{is_red}
use hystack.Rbtree.Order.{IsSorted}
use hystack.Rbtree.Shades.{IsFair}
use hystack.Rbtree.Promise.{IsTidy, depth-le-log}
use hystack.Rbtree.Unlink.{forgotten}
use hystack.Rbtree.Removed.{Deleted}
use hystack.Rbtree.Gone.{delete_left}
use hystack.Rbtree.Least.{least, move_bottom}
use hystack.EventTimer.{Event, Timers, Run, ◌>>=◌, ◌>>◌, on_tree, set_event, low_difference, expire}
use hystack.EventTimer.Left.{tree_step, not_sentinel}
use hystack.EventTimer.Add.{load-cell}

-- The end of a timer counts as still to come: it is so in 32 bits, that is, the end less the present,
-- modulo 2 ^ 32, is from 1 to 2 ^ 31 - 1. (So an end from 2 ^ 31 to 2 ^ 32 ms ahead does not count.)
abbrev pub to_come : ℕ → ℕ → Bool
to_come now key =
    ltb 0 ((key + 2 ^ 64 - now) % 2 ^ 32) && ltb ((key + 2 ^ 64 - now) % 2 ^ 32) (2 ^ 31)

-- The timers from the first on whose end counts as still to come.
abbrev pub pending : ℕ → List (ℕ × ℕ) → List (ℕ × ℕ)
pending now [] = []
pending now ((a, k) ∷ others) = if to_come now k then (a, k) ∷ others else pending now others

abbrev pub timed_out_at : ℕ → (ℕ → Event) → ℕ → Event
timed_out_at a event p =
    if p == a then record (event a) { timer_set = false; timed_out = true } else event p

-- The events after the handler was called for each timer before those, in order.
abbrev pub fired : (ℕ → (ℕ → Event) → ℕ → Event) → ℕ → List (ℕ × ℕ) → (ℕ → Event) → ℕ → Event
fired react now [] event = event
fired react now ((a, k) ∷ others) event =
    if to_come now k then event else fired react now others (react a (timed_out_at a event))

abbrev key_first : List (ℕ × ℕ) → ℕ
key_first [] = 0
key_first ((a, k) ∷ others) = k

abbrev tail : List (ℕ × ℕ) → List (ℕ × ℕ)
tail [] = []
tail (e ∷ others) = others

module _ (s now : ℕ) (handler : ℕ → Run (Unit {0})) (react : ℕ → (ℕ → Event) → ℕ → Event) where
  -- `expire` ends, and what the memory holds then.
  pub record Expired (fuel : ℕ) (ts : Timers) (others : List (ℕ × Node)) (nodes : List (ℕ × ℕ))
      : Type 0 where
    pub end : Timers
    pub base : ℕ
    pub sentinel : Node
    pub whole : Tree
    pub gone : List (ℕ × Node)
    pub run : expire s now handler fuel ts ≡ some (tt, end)
    pub held : Keeps s base sentinel (gone ++ others) end.heap whole
    pub end_black : sentinel.red ≡ false
    pub tidy : IsTidy whole
    pub order : in_order whole ≡ pending now nodes
    pub events : end.event ≡ fired react now nodes ts.event

module _ (s now : ℕ) (handler : ℕ → Run (Unit {0})) (react : ℕ → (ℕ → Event) → ℕ → Event)
    (handles : (p : ℕ) (ts : Timers)
      → handler p ts ≡ some (tt, record ts { event = react p ts.event })) where
  module _ (fuel base : ℕ) (ns : Node) (others : List (ℕ × Node)) (ts : Timers) (l : Tree) (a k : ℕ)
      (c : Bool) (r : Tree) (H : Keeps s base ns others ts.heap (node l a k c r))
      (low : depth (node l a k c r) ≤ fuel) (m km : ℕ) (cm : Bool) (u : Tree) (ws : List Frame)
      (same : plug (node leaf m km cm u) ws ≡ node l a k c r)
      (follows : (m, km) ∷ in_order (plug u ws) ≡ in_order (node l a k c r)) where
    alone : count s (node l a k c r) ≡ 0
    alone = ground (arith, H.apart s)

    abbrev on_due : Run (Unit {0})
    on_due = do
      on_tree (rbtree_delete s fuel m)
      set_event m (λ e. record e { timer_set = false; timed_out = true })
      handler m
      expire s now handler fuel

    turn :
        expire s now handler (suc fuel) ts ≡ (if to_come now km then some (tt, ts) else on_due ts)
    unfolding expire load low_difference
    turn =
        tree_step get_root _ ts {a = ts.heap.root} {h = ts.heap} refl
        ∙ rw (not_sentinel s base ns (cells others) ts.heap l a k c r H) (
            tree_step (rbtree_min s fuel ts.heap.root) _ ts (
              subst (λ (p : ℕ). rbtree_min s fuel p ts.heap ≡ some (m, ts.heap)) (sym H.root_is)
                (rbtree_min-first s base ts.heap fuel base l a k c r alone low H.owned.0
                  ∙ ap (λ (xs : List (ℕ × ℕ)). some (first xs, ts.heap)) (sym follows)))
            ∙ (let H' =
                  move_bottom s base ns others ts.heap (node leaf m km cm u) ws
                    (subst (Keeps s base ns others ts.heap) (sym same) H) in
                tree_step (load m) _ ts (load-cell ts.heap m _ H'.owned.0.0)
                ∙ by_test (to_come now km)))
      where
        by_test :
            (b : Bool)
            → (if b then (λ (t : Timers). some (tt, t)) else on_due) ts
              ≡ (if b then some (tt, ts) else on_due ts)
        by_test true = refl
        by_test false = refl

    due :
        (b : ℕ)
        → IsTidy (node l a k c r)
        → ns.red ≡ false
        → depth (node l a k c r) < fuel
        → to_come now km ≡ false
        → length (in_order (node l a k c r)) + 2 * b < suc fuel
        → ((base' : ℕ) (ns' : Node) (others' : List (ℕ × Node)) (ts' : Timers) (t' : Tree)
            → ns'.red ≡ false
            → IsTidy t'
            → length (in_order t') + 1 ≤ length (in_order (node l a k c r))
            → Keeps s base' ns' others' ts'.heap t'
            → Expired s now handler react fuel ts' others' (in_order t'))
        → Expired s now handler react (suc fuel) ts others (in_order (node l a k c r))
    unfolding set_event ◌>>=◌
    due b tidy black deep over few again =
        let gone : Deleted s (rbtree_delete s fuel m) ts.heap ((m, forgotten cm) ∷ others)
            (in_order (plug u ws)) =
          delete_left s base ns black others fuel m km cm ws ts.heap u
            (subst IsFair (sym same) tidy.fair) (ap is_red same ∙ tidy.black)
            (omega (arith, ap depth same)) (subst (Keeps s base ns others ts.heap) (sym same) H) in
        let split : (m, km) ∷ in_order gone.whole ≡ in_order (node l a k c r) =
          ap (λ (xs : List (ℕ × ℕ)). (m, km) ∷ xs) gone.order ∙ follows in
        let event' = react m (timed_out_at m ts.event) in
        let rest =
          again gone.base gone.sentinel ((m, forgotten cm) ∷ others)
            (record { heap = gone.end; event = event' }) gone.whole gone.end_black
            (record {
              sorted = (subst IsSorted (sym split) tidy.sorted).1;
              fair = gone.fair;
              black = gone.top_black;
            })
            (omega (arith, ap length split)) gone.held in
        record {
          end = rest.end;
          base = rest.base;
          sentinel = rest.sentinel;
          whole = rest.whole;
          gone = rest.gone ++ (m, forgotten cm) ∷ [];
          run =
              turn
              ∙ rw over (
                  tree_step (rbtree_delete s fuel m) _ ts gone.run
                  ∙ rw (handles m (record { heap = gone.end; event = timed_out_at m ts.event }))
                      rest.run);
          held =
              subst
                (λ (all : List (ℕ × Node)).
                  Keeps s rest.base rest.sentinel all rest.end.heap rest.whole)
                (sym (append_assoc rest.gone ((m, forgotten cm) ∷ []) others)) rest.held;
          end_black = rest.end_black;
          tidy = rest.tidy;
          order = rest.order ∙ sym (ap (pending now) (sym split) ∙ rw over refl);
          events =
              rest.events
              ∙ sym (
                  ap (λ (xs : List (ℕ × ℕ)). fired react now xs ts.event) (sym split)
                  ∙ rw over refl);
        }

  -- Let the memory hold a tidy tree of timers, and let the fuel exceed the number of timers and twice
  -- a number `b` with fewer than 2 ^ (b + 1) - 1 timers. Let the handler, for each event, end and
  -- change events only, as `react` says. Then `expire` ends, the memory holds a tidy tree with the
  -- timers from the first on whose end counts as still to come, in the order that they had, and for
  -- each timer before it, in order, the bits of the event were set and the handler was called. An end
  -- counts as still to come if it less the present, modulo 2 ^ 32, is from 1 to 2 ^ 31 - 1; so a timer
  -- that ends 2 ^ 31 to 2 ^ 32 ms ahead counts as over.
  pub expire-pending :
      (fuel base b : ℕ) (ns : Node) (others : List (ℕ × Node)) (ts : Timers) (t : Tree)
      → ns.red ≡ false
      → IsTidy t
      → length (in_order t) + 1 < 2 ^ suc b
      → length (in_order t) + 2 * b < fuel
      → Keeps s base ns others ts.heap t
      → Expired s now handler react fuel ts others (in_order t)
  unfolding expire
  expire-pending zero base b ns others ts t black tidy few enough H = absurd (omega arith)
  expire-pending (suc fuel) base b ns others ts leaf black tidy few enough H = record {
    end = ts;
    base = base;
    sentinel = ns;
    whole = leaf;
    gone = [];
    run =
        tree_step get_root _ ts {a = ts.heap.root} {h = ts.heap} refl
        ∙ rw (H.root_is, eq_self s) refl;
    held = H;
    end_black = black;
    tidy = tidy;
    order = refl;
    events = refl;
  }
  expire-pending (suc fuel) base b ns others ts (node l a k c r) black tidy few enough H =
      let it = least l a k c r in
      let t = node l a k c r in
      let deep : depth t < fuel = omega (arith, depth-le-log b t tidy few, ap length it.follows) in
      let turned =
        turn fuel base ns others ts l a k c r H (omega (arith, deep)) it.m it.km it.cm it.u it.ws
          it.same it.follows in
      elim (Bool-cases (to_come now it.km)) [
        | inl waits ↦ record {
          end = ts;
          base = base;
          sentinel = ns;
          whole = t;
          gone = [];
          run = turned ∙ rw waits refl;
          held = H;
          end_black = black;
          tidy = tidy;
          order = sym it.follows ∙ sym (ap (pending now) (sym it.follows) ∙ rw waits refl);
          events = sym (
              ap (λ (xs : List (ℕ × ℕ)). fired react now xs ts.event) (sym it.follows)
              ∙ rw waits refl);
        }
        | inr over ↦
            due fuel base ns others ts l a k c r H (omega (arith, deep)) it.m it.km it.cm it.u it.ws
              it.same it.follows b tidy black deep over enough
              (λ base' ns' others' ts' t' black' tidy' fewer H'.
                expire-pending fuel base' b ns' others' ts' t' black' tidy'
                  (omega (arith, few, fewer)) (omega (arith, enough, fewer)) H')
      ]
