-- ===== src/EventTimer/Left.antt =====
-- src/kits/event/event_timer.cpp: `no_left` looks at all timers.
use hystack.Prelude.{
  ℕ, zero, suc, ◌+◌, ◌-◌, ◌≤◌, ◌<◌, Bool, true, false, ◌&&◌, List, [], ◌∷◌, ◌++◌, ◌==◌,
  if◌then◌else◌, Option, some, ◌≡◌, ◌≢◌, refl, arith, sym, ap, ◌∙◌, append_assoc, append-nil,
  length, length-append, Bool-cases, inl, inr,
}
use hystack.Prelude.Int.{ℤ, pos}
use mathlib.Core.Path.{subst}
use hystack.Rbtree.{Node, Heap, M, left, right, rbtree_min, rbtree_next, get_root}
use hystack.Rbtree.Shape.{Tree, leaf, node, Frame, count, in_order, depth}
use hystack.Rbtree.Owns.{Part, total, Holds}
use hystack.Rbtree.Rules.{eq_self}
use hystack.Rbtree.Zipper.{zip, move_down}
use hystack.Rbtree.Walk.{first, behind, rbtree_min-first, rbtree_next-first}
use hystack.Rbtree.Grow.{Keeps, cells}
use hystack.EventTimer.{Event, Timers, Run, ◌>>=◌, on_tree, ret_again, scan, no_left}

abbrev pub all_cancelable : (ℕ → Event) → List (ℕ × ℕ) → Bool
all_cancelable event [] = true
all_cancelable event ((a, k) ∷ others) = (event a).cancelable && all_cancelable event others

all_cancelable-append :
    (event : ℕ → Event) (xs ys : List (ℕ × ℕ))
    → all_cancelable event (xs ++ ys) ≡ (all_cancelable event xs && all_cancelable event ys)
all_cancelable-append event [] ys = refl
all_cancelable-append event ((a, k) ∷ xs) ys = ground (arith, all_cancelable-append event xs ys)

zero-add : (n : ℕ) → 0 + n ≡ n
zero-add n = omega arith

fuel-split :
    (xs : List (ℕ × ℕ)) (a k : ℕ) (ys : List (ℕ × ℕ)) (fuel : ℕ)
    → length (xs ++ (a, k) ∷ ys) + fuel ≡ length xs + suc (length ys + fuel)
fuel-split xs a k ys fuel = omega (arith, length-append xs ((a, k) ∷ ys))

by-parts :
    {A : Type 0} (x y z : Bool) (u v : A)
    → (if x then (if y then (if z then u else v) else v) else v) ≡ (if x && (y && z) then u else v)
by-parts true true z u v = refl
by-parts true false z u v = refl
by-parts false y z u v = refl

-- A step on the tree whose result is known.
pub tree_step :
    {A B : Type 0} (m : M A) (k : A → Run B) (ts : Timers) {a : A} {h : Heap}
    → m ts.heap ≡ some (a, h)
    → (on_tree m >>= k) ts ≡ k a (record ts { heap = h })
unfolding on_tree ◌>>=◌
tree_step m k ts e = rw (on_tree, e)

-- One turn of the loop.
scan-step :
    (s : ℕ) (ts : Timers) (fuel a next : ℕ)
    → a ≢ 0
    → rbtree_next s fuel a ts.heap ≡ some (next, ts.heap)
    → scan s (suc fuel) a ts
      ≡ (if (ts.event a).cancelable then scan s fuel next ts else some (ret_again, ts))
unfolding scan on_tree ◌>>=◌
scan-step s ts fuel a next ne e = elim (Bool-cases (ts.event a).cancelable) [
  | inl can ↦
      rw (not_null a ne, can) (tree_step (rbtree_next s fuel a) (λ (p : ℕ). scan s fuel p) ts e)
  | inr cannot ↦ rw (not_null a ne, cannot)
]
  where
    not_null : (a : ℕ) → a ≢ 0 → (a == 0) ≡ false
    not_null a ne = ground arith

module _ (s base : ℕ) (ns : Node) (js : List Part) (ts : Timers) where
  -- The nodes of a subtree are looked at in order, and the loop goes on behind it.
  scan-subtree :
      (fuel : ℕ) (t : Tree) (fs : List Frame)
      → depth t + length fs < fuel
      → count 0 t ≡ 0
      → Holds s base ts.heap (zip s base ns js t fs)
      → scan s (length (in_order t) + fuel) (first (in_order t ++ behind fs)) ts ≡ (
          if all_cancelable ts.event (in_order t)
          then scan s fuel (first (behind fs)) ts
          else some (ret_again, ts))
  scan-subtree fuel leaf fs enough no-null H =
      ap (λ (n : ℕ). scan s n (first (behind fs)) ts) (zero-add fuel)
  scan-subtree fuel (node l a k c r) fs enough no-null H =
      let fs-l : List Frame = record { side = left; at = a; key = k; red = c; sib = r } ∷ fs in
      let fs-r : List Frame = record { side = right; at = a; key = k; red = c; sib = l } ∷ fs in
      let on-left =
        scan-subtree (suc (length (in_order r) + fuel)) l fs-l (ground arith) (ground arith)
          (move_down s base ns js ts.heap left l a k c r fs H) in
      let at-node =
        scan-step s ts (length (in_order r) + fuel) a (first (in_order r ++ behind fs))
          (ground arith)
          (rbtree_next-first s base ns js ts.heap (length (in_order r) + fuel) l a k c r fs
            (ground arith) (ground arith) H) in
      let on-right =
        scan-subtree fuel r fs-r (ground arith) (ground arith)
          (move_down s base ns js ts.heap right r a k c l fs H) in
      rw
        (
          fuel-split (in_order l) a k (in_order r) fuel,
          append_assoc (in_order l) ((a, k) ∷ in_order r) (behind fs),
          on-left,
          at-node,
          on-right,
          all_cancelable-append ts.event (in_order l) ((a, k) ∷ in_order r),
        )
        (by-parts (all_cancelable ts.event (in_order l)) (ts.event a).cancelable
          (all_cancelable ts.event (in_order r)) (scan s fuel (first (behind fs)) ts)
          (some (ret_again, ts)))

scan-end : (s fuel : ℕ) (ts : Timers) → 0 < fuel → scan s fuel 0 ts ≡ some (pos 0, ts)
unfolding scan
scan-end s zero ts lt = absurd (omega arith)
scan-end s (suc fuel) ts lt = refl

module _ (s base : ℕ) (ns : Node) (js : List Part) where
  pub not_sentinel :
      (h : Heap) (l : Tree) (a k : ℕ) (c : Bool) (r : Tree)
      → Holds s base h (zip s base ns js (node l a k c r) [])
      → (h.root == s) ≡ false
  not_sentinel h l a k c r H = ap (λ (p : ℕ). p == s) H.root_is ∙ a-ne-s (H.apart a)
    where
      a-ne-s : total a (zip s base ns js (node l a k c r) []).1 ≤ 1 → (a == s) ≡ false
      a-ne-s le = ground arith

  scan-all :
      (ts : Timers) (fuel : ℕ) (l : Tree) (a k : ℕ) (c : Bool) (r : Tree)
      → let t = node l a k c r in
        count 0 t ≡ 0
        → length (in_order t) + depth t < fuel
        → Holds s base ts.heap (zip s base ns js t [])
        → scan s fuel (first (in_order t)) ts
          ≡ some ((if all_cancelable ts.event (in_order t) then pos 0 else ret_again), ts)
  scan-all ts fuel l a k c r no-null enough H =
      let t = node l a k c r in
      let rest = fuel - length (in_order t) in
      let split : length (in_order t) + rest ≡ fuel = omega arith in
      let all = scan-subtree s base ns js ts rest t [] (omega arith) no-null H in
      rw (append-nil (in_order t), split, scan-end s rest ts (omega arith)) at all
      ∙ either (all_cancelable ts.event (in_order t))
    where
      either :
          (b : Bool)
          → ◌≡◌ {A = Option (ℤ × Timers)}
              (if b then some (pos 0, ts) else some (ret_again, ts))
              (some ((if b then pos 0 else ret_again), ts))
      either true = refl
      either false = refl

-- Let the memory hold a tree of timers whose addresses are not null, and let the fuel exceed the
-- number of its nodes and its depth together. Then `no_left` ends, changes nothing, and gives 0
-- exactly when all events with a timer are cancelable, and RET_AGAIN otherwise.
pub no_left_lem :
    (s base fuel : ℕ) (ns : Node) (others : List (ℕ × Node)) (ts : Timers) (t : Tree)
    → Keeps s base ns others ts.heap t
    → count 0 t ≡ 0
    → length (in_order t) + depth t < fuel
    → no_left s fuel ts
      ≡ some ((if all_cancelable ts.event (in_order t) then pos 0 else ret_again), ts)
unfolding no_left
no_left_lem s base fuel ns others ts leaf H no-null enough =
    tree_step get_root _ ts {a = ts.heap.root} {h = ts.heap} refl ∙ rw (H.root_is, eq_self s)
no_left_lem s base fuel ns others ts (node l a k c r) H no-null enough =
    tree_step get_root _ ts {a = ts.heap.root} {h = ts.heap} refl
    ∙ rw (not_sentinel s base ns (cells others) ts.heap l a k c r H) (
        tree_step (rbtree_min s fuel ts.heap.root) (λ (p : ℕ). scan s fuel p) ts
          (subst
            (λ (p : ℕ).
              rbtree_min s fuel p ts.heap ≡ some (first (in_order (node l a k c r)), ts.heap))
            (sym H.root_is)
            (rbtree_min-first s base ts.heap fuel base l a k c r (alone (H.apart s)) (omega arith)
              H.owned.0))
        ∙ scan-all s base ns (cells others) ts fuel l a k c r no-null enough H)
  where
    alone :
        total s (zip s base ns (cells others) (node l a k c r) []).1 ≤ 1
        → count s (node l a k c r) ≡ 0
    alone le = ground arith
