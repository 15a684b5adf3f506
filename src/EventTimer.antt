-- ===== src/EventTimer.antt =====
-- src/kits/event/event_timer.cpp: the timers of the events, in a red-black tree by their end in
-- milliseconds. An event is named by the address of its `key_timer`; the sentinel is
-- `event_timer_sentinel`, `now` is `core_current_msec`. `none` is a fault or a loop out of fuel.
mod Left
mod Find
mod Add
mod Restart
mod Expire
mod Tests
use hystack.Prelude.{
  ℕ, zero, suc, ◌+◌, ◌-◌, ◌*◌, ◌%◌, ◌^◌, Bool, true, false, not, ◌&&◌, ◌||◌, Option, none, some,
  leb, ltb, ◌==◌, if◌then◌else◌,
}
use hystack.Prelude.Int.{ℤ, pos, negsuc}
use hystack.Rbtree.{
  Node, Heap, M, get_root, set_root, load, modify, set_red, rbtree_min, rbtree_next, rbtree_insert,
}
use hystack.Rbtree.Delete.{rbtree_delete}

-- The bits of an event that the timers use.
pub record Event : Type 0 where
  pub timer_set : Bool
  pub timed_out : Bool
  pub cancelable : Bool

pub record Timers : Type 0 where
  pub heap : Heap
  pub event : ℕ → Event

abbrev pub Run : Type 0 → Type 0
Run A = Timers → Option (A × Timers)

abbrev pub go_on : {A B : Type 0} → Option (A × Timers) → (A → Run B) → Option (B × Timers)
go_on none k = none
go_on (some (a, t)) k = k a t

infixl 5 ◌>>=◌ ◌>>◌
unfoldable pub ◌>>=◌ : {A B : Type 0} → Run A → (A → Run B) → Run B
(m >>= k) t = go_on (m t) k

abbrev pub ◌>>◌ : {B : Type 0} → Run (Unit {0}) → Run B → Run B
m >> k = m >>= λ _. k

abbrev pub pure : {A : Type 0} → A → Run A
pure a t = some (a, t)

abbrev pub fault : {A : Type 0} → Run A
fault t = none

-- A step on the tree.
abbrev pub with_heap : {A : Type 0} → Option (A × Heap) → Timers → Option (A × Timers)
with_heap none t = none
with_heap (some (a, h)) t = some (a, record t { heap = h })

unfoldable pub on_tree : {A : Type 0} → M A → Run A
on_tree m t = with_heap (m t.heap) t

abbrev pub event_of : ℕ → Run Event
event_of p t = some (t.event p, t)

unfoldable pub set_event : ℕ → (Event → Event) → Run (Unit {0})
set_event p f t = some (tt, record t { event = λ q. if q == p then f (t.event p) else t.event q })

-- The low 32 bits of the difference of two unsigned 64-bit numbers; the `int` that they stand for
-- is negative from 2 ^ 31 on.
unfoldable pub low_difference : ℕ → ℕ → ℕ
low_difference a b = (a + 2 ^ 64 - b) % 2 ^ 32

abbrev pub timer_infinite : ℕ
timer_infinite = 2 ^ 64 - 1

-- The `int` converted back to 64 bits, without its sign.
unfoldable pub sign_extended : ℕ → ℕ
sign_extended d = if ltb d (2 ^ 31) then d else 2 ^ 64 - 2 ^ 32 + d

abbrev pub ret_again : ℤ
ret_again = negsuc 1

-- `diff`, the `int` of `d`, is nearer to 0 than TIMER_LAZY_DELAY.
unfoldable pub is_lazy : ℕ → Bool
is_lazy d = ltb d 300 || ltb (2 ^ 32 - 300) d

module _ (sentinel : ℕ) where
  unfoldable pub init : Run ℤ
  init = do on_tree (set_red false sentinel); on_tree (set_root sentinel); pure (pos 0)

  -- The loop of `no_left` from a node on; 0 is `nullptr`.
  unfoldable pub scan : ℕ → ℕ → Run ℤ
  scan zero node = fault
  scan (suc fuel) node =
      let step = (do next ← on_tree (rbtree_next sentinel fuel node); scan fuel next) in
      if node == 0
      then pure (pos 0)
      else (do ev ← event_of node; if not ev.cancelable then pure ret_again else step)

  unfoldable pub no_left : ℕ → Run ℤ
  no_left fuel = do
    root ← on_tree get_root
    if root == sentinel
        then pure (pos 0)
        else (do node ← on_tree (rbtree_min sentinel fuel root); scan fuel node)

  unfoldable pub del_timer : ℕ → ℕ → Run (Unit {0})
  del_timer fuel ev = do
    on_tree (rbtree_delete sentinel fuel ev)
    on_tree (modify ev (λ n. record n { left = 0; right = 0; parent = 0 }))
    set_event ev (λ e. record e { timer_set = false })

  -- `rbtree_insert` and the lines around it, at the end of `add_timer`.
  unfoldable pub start_timer : ℕ → ℕ → ℕ → Run (Unit {0})
  start_timer fuel ev key = do
    on_tree (modify ev (λ n. record n { key = key }))
    on_tree (rbtree_insert sentinel fuel ev)
    set_event ev (λ e. record e { timer_set = true })

  module _ (now : ℕ) where
    unfoldable pub find : ℕ → Run ℕ
    find fuel = do
      root ← on_tree get_root
      if root == sentinel then pure timer_infinite else (do
        node ← on_tree (rbtree_min sentinel fuel root)
        n ← on_tree (load node)
        let timer = sign_extended (low_difference n.key now)
        pure (if ltb 0 timer then timer else 0))

    -- `abs` of the least `int` is not defined.
    unfoldable pub add_timer : ℕ → ℕ → ℕ → Run (Unit {0})
    add_timer fuel ev timer =
        let key = (now + timer) % 2 ^ 64 in
        (do
          e ← event_of ev
          n ← on_tree (load ev)
          let d = low_difference key n.key
          if not e.timer_set
              then start_timer fuel ev key
              else if d == 2 ^ 31
              then fault
              else if is_lazy d
              then pure tt
              else (do del_timer fuel ev; start_timer fuel ev key))

    module _ (handler : ℕ → Run (Unit {0})) where
      -- `ptr_handler` is an argument. The fuel of the loop bounds the number of its turns, too.
      unfoldable pub expire : ℕ → Run (Unit {0})
      expire zero = fault
      expire (suc fuel) = do
        root ← on_tree get_root
        if root == sentinel then pure tt else (do
          node ← on_tree (rbtree_min sentinel fuel root)
          n ← on_tree (load node)
          let d = low_difference n.key now
          if ltb 0 d && ltb d (2 ^ 31) then pure tt else (do
            on_tree (rbtree_delete sentinel fuel node)
            set_event node (λ e. record e { timer_set = false; timed_out = true })
            handler node
            expire fuel))
