-- ===== src/Rbtree/Pruned.antt =====
-- src/kits/event/event_rbtree.cpp: what rbtree_delete promises to a caller who sees the nodes in
-- order.
use hystack.Prelude.{
  ℕ, suc, ◌+◌, ◌*◌, ◌^◌, ◌≤◌, ◌<◌, Bool, false, List, [], ◌∷◌, ◌++◌, some, ◌≡◌, ap, ◌∙◌, sym, arith,
  length, append_assoc, All,
}
use mathlib.Core.Path.{subst}
use hystack.Rbtree.{Node, Heap}
use hystack.Rbtree.Delete.{rbtree_delete}
use hystack.Rbtree.Shape.{Tree, leaf, node, Frame, plug, in_order, count, depth}
use hystack.Rbtree.Colors.{is_red}
use hystack.Rbtree.Grow.{Keeps}
use hystack.Rbtree.Order.{IsSorted}
use hystack.Rbtree.Shades.{IsFair}
use hystack.Rbtree.Promise.{IsTidy, depth-le-log}
use hystack.Rbtree.Walk.{first}
use hystack.Rbtree.Unlink.{forgotten}
use hystack.Rbtree.Removed.{Deleted}
use hystack.Rbtree.Place.{Placed, locate, surroundings}
use hystack.Rbtree.Gone.{delete_left, delete_right, both-Deleted}
use hystack.Rbtree.Least.{least}

All-without :
    (P : ℕ × ℕ → Type 0) (xs : List (ℕ × ℕ)) (e : ℕ × ℕ) (ys : List (ℕ × ℕ))
    → All P (xs ++ e ∷ ys)
    → All P (xs ++ ys)
All-without P [] e ys all = all.1
All-without P (x ∷ xs) e ys all = (all.0, All-without P xs e ys all.1)

without-IsSorted :
    (xs : List (ℕ × ℕ)) (e : ℕ × ℕ) (ys : List (ℕ × ℕ))
    → IsSorted (xs ++ e ∷ ys)
    → IsSorted (xs ++ ys)
without-IsSorted [] e ys sorted = sorted.1
without-IsSorted (x ∷ xs) e ys sorted =
    (All-without (λ (f : ℕ × ℕ). x.1 ≤ f.1) xs e ys sorted.0, without-IsSorted xs e ys sorted.1)

split_around :
    (l : Tree) (a k : ℕ) (c : Bool) (r : Tree) (fs : List Frame)
    → let places = surroundings fs in
      in_order (plug (node l a k c r) fs)
      ≡ (places.ahead ++ in_order l) ++ (a, k) ∷ (in_order r ++ places.after)
split_around l a k c r fs = (surroundings fs).order (node l a k c r) ∙ simp append_assoc

module _ (s base fuel : ℕ) (ns : Node) (black : ns.red ≡ false) (others : List (ℕ × Node))
    (h : Heap) (a k : ℕ) (c : Bool) (fs : List Frame) where
  delete_placed :
      (l r : Tree)
      → let t = plug (node l a k c r) fs in
        let places = surroundings fs in
        IsFair t
        → is_red t ≡ false
        → depth t < fuel
        → Keeps s base ns others h t
        → Deleted s
            (rbtree_delete s fuel a)
            h
            ((a, forgotten c) ∷ others)
            ((places.ahead ++ in_order l) ++ (in_order r ++ places.after))
  delete_placed leaf r fair top_black enough H =
      subst (Deleted s (rbtree_delete s fuel a) h ((a, forgotten c) ∷ others))
        ((surroundings fs).order r ∙ simp append_assoc)
        (delete_left s base ns black others fuel a k c fs h r fair top_black enough H)
  delete_placed (node l b kb cb r) leaf fair top_black enough H =
      subst (Deleted s (rbtree_delete s fuel a) h ((a, forgotten c) ∷ others))
        ((surroundings fs).order (node l b kb cb r) ∙ simp append_assoc)
        (delete_right s base ns black others fuel a k c fs h l b kb cb r fair top_black enough H)
  delete_placed (node l b kb cb r) (node rl e ke ce rr) fair top_black enough H =
      let it = least rl e ke ce rr in
      subst (Deleted s (rbtree_delete s fuel a) h ((a, forgotten c) ∷ others))
        ((surroundings fs).order (node (node l b kb cb r) it.m it.km c (plug it.u it.ws))
          ∙ rw it.follows (simp append_assoc))
        (both-Deleted s base ns black others fuel a k c fs h l b kb cb r rl e ke ce rr it.m it.km
          it.cm it.u it.ws it.same (sym (ap first it.follows)) fair top_black enough H)

-- Let the memory hold a tidy tree with a node at `a`, a black sentinel and other nodes, all at
-- different addresses, and let the fuel exceed twice a number `b` with fewer than
-- 2 ^ (b + 1) - 1 nodes in the tree. Then `rbtree_delete` of `a` ends, and the memory holds a tidy
-- tree with all nodes but that one in the order that they had, a black sentinel, the other nodes as
-- they were, and the node at `a` beside them, with its links and its key zeroed.
pub rbtree_delete-removed :
    (s base fuel b a : ℕ) (ns : Node) (others : List (ℕ × Node)) (h : Heap) (t : Tree)
    → ns.red ≡ false
    → IsTidy t
    → length (in_order t) + 1 < 2 ^ suc b
    → 2 * b < fuel
    → 0 < count a t
    → Keeps s base ns others h t
    → (xs : List (ℕ × ℕ)) × (k : ℕ) × (ys : List (ℕ × ℕ)) × (c : Bool) × (h' : Heap) × (base' : ℕ)
      × (ns' : Node) × (t' : Tree) × (in_order t ≡ xs ++ (a, k) ∷ ys)
      × (rbtree_delete s fuel a h ≡ some (tt, h'))
      × Keeps s base' ns' ((a, forgotten c) ∷ others) h' t'
      × (ns'.red ≡ false)
      × IsTidy t'
      × (in_order t' ≡ xs ++ ys)
rbtree_delete-removed s base fuel b a ns others h t black tidy few enough some_there H =
    let at : Placed a t = locate a t [] some_there in
    let places = surroundings at.fs in
    let xs = places.ahead ++ in_order at.l in
    let ys = in_order at.r ++ places.after in
    let split = ap in_order (sym at.same) ∙ split_around at.l a at.k at.c at.r at.fs in
    let done =
      delete_placed s base fuel ns black others h a at.k at.c at.fs at.l at.r
        (subst IsFair (sym at.same) tidy.fair) (ap is_red at.same ∙ tidy.black)
        (omega (arith, ap depth at.same, depth-le-log b t tidy few))
        (subst (Keeps s base ns others h) (sym at.same) H) in
    (
      xs,
      at.k,
      ys,
      at.c,
      done.end,
      done.base,
      done.sentinel,
      done.whole,
      split,
      done.run,
      done.held,
      done.end_black,
      record {
        sorted =
            subst IsSorted (sym done.order)
              (without-IsSorted xs (a, at.k) ys (subst IsSorted split tidy.sorted));
        fair = done.fair;
        black = done.top_black;
      },
      done.order,
    )
