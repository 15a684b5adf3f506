-- ===== src/Rbtree/Gone.antt =====
-- src/kits/event/event_rbtree.cpp: rbtree_delete as a whole.
use hystack.Prelude.{
  ℕ, ◌+◌, ◌≤◌, ◌<◌, Bool, false, ◌&&◌, List, [], ◌∷◌, ◌++◌, ◌==◌, some, ◌≡◌, ◌≢◌, refl, ap, ◌∙◌,
  arith, sym, length, length-append,
}
use mathlib.Core.Path.{subst}
use hystack.Rbtree.{Node, Heap, right, ◌>>=◌, load}
use hystack.Rbtree.Delete.{chosen, rbtree_delete}
use hystack.Rbtree.Shape.{Tree, leaf, node, Frame, plug, addr, up, in_order, depth}
use hystack.Rbtree.Owns.{cell_at, Holds, Spec}
use hystack.Rbtree.Rules.{
  bind-Spec, known-Spec, then-Spec, else-Spec, pure-Spec, load-Spec, eq_self,
}
use hystack.Rbtree.Zipper.{zip, move_down}
use hystack.Rbtree.Colors.{is_red}
use hystack.Rbtree.Grow.{Keeps, cells}
use hystack.Rbtree.Insert.{BlackTop}
use hystack.Rbtree.Shades.{IsFair, shade, black_height, up_red, Suits}
use hystack.Rbtree.Walk.{first, rbtree_min-first}
use hystack.Rbtree.Unlink.{forgotten, written, written-red, written-Anchored}
use hystack.Rbtree.Removed.{Deleted, lone, take_out-Deleted, ended}
use hystack.Rbtree.Beside.{Anchored}
use hystack.Rbtree.Moved.{move_part_down}
use hystack.Rbtree.Taken.{above, new_parent, take_least-Spec}
use hystack.Rbtree.Place.{
  plug-append, unplug-IsFair, unplug-BlackTop, rename-up, rename-Suits, rename-BlackTop,
}
use hystack.Rbtree.Least.{has_one, up-new_parent, move_bottom, length-le-depth}

module _ (s base : ℕ) (ns : Node) (black : ns.red ≡ false) (others : List (ℕ × Node)) (fuel : ℕ)
    (a k : ℕ) (c : Bool) (fs : List Frame) (h : Heap) where
  lone-Deleted :
      (p q : ℕ) (u : Tree)
      → Spec s base
          (chosen s fuel a)
          (lone s base ns black others a k p q c (up base fs) u fs)
          (a, addr s u)
          (lone s base ns black others a k p q c (up base fs) u fs)
      → length fs + 1 < fuel
      → IsFair u
      → (c && is_red u) ≡ false
      → (up_red fs && c) ≡ false
      → Suits (black_height u + shade c) fs
      → BlackTop fs
      → Holds s base h (lone s base ns black others a k p q c (up base fs) u fs)
      → Deleted s (rbtree_delete s fuel a) h ((a, forgotten c) ∷ others) (in_order (plug u fs))
  unfolding rbtree_delete ◌>>=◌
  lone-Deleted p q u choice enough fair c-u up-ok suits top H =
      let (h', e, H') = choice.run h H in
      let rest =
        take_out-Deleted s base ns black others a k p q c fuel (up base fs) u fs h' (λ _. refl)
          enough fair c-u up-ok suits top H' in
      record {
        end = rest.end;
        base = rest.base;
        sentinel = rest.sentinel;
        whole = rest.whole;
        run = rw e rest.run;
        held = rest.held;
        end_black = rest.end_black;
        fair = rest.fair;
        top_black = rest.top_black;
        order = rest.order;
      }

  chosen_left-Spec :
      (u : Tree)
      → let P = lone s base ns black others a k s (addr s u) c (up base fs) u fs in
        Spec s base (chosen s fuel a) P (a, addr s u) P
  unfolding chosen
  chosen_left-Spec u = bind-Spec _ (load-Spec 0 refl) (then-Spec (s == s) _ _ (eq_self s) pure-Spec)

  chosen_right-Spec :
      (l : Tree) (b kb : ℕ) (cb : Bool) (r : Tree)
      → let u = node l b kb cb r in
        let P = lone s base ns black others a k b s c (up base fs) u fs in
        Spec s base (chosen s fuel a) P (a, b) P
  unfolding chosen
  chosen_right-Spec l b kb cb r =
      known-Spec {X = (b == s) ≡ false} (λ h H. ground (arith, H.apart b))
        (λ ne.
          bind-Spec _ (load-Spec 0 refl)
            (else-Spec (b == s) _ _ ne (then-Spec (s == s) _ _ (eq_self s) pure-Spec)))

  -- A node without a left child.
  pub delete_left :
      (u : Tree)
      → IsFair (plug (node leaf a k c u) fs)
      → is_red (plug (node leaf a k c u) fs) ≡ false
      → depth (plug (node leaf a k c u) fs) < fuel
      → Keeps s base ns others h (plug (node leaf a k c u) fs)
      → Deleted s (rbtree_delete s fuel a) h ((a, forgotten c) ∷ others) (in_order (plug u fs))
  delete_left u fair top_black enough H =
      let ((same, _, u-ok, _, fair-u), c-ok, suits) = unplug-IsFair (node leaf a k c u) fs fair in
      let H' = move_bottom s base ns others h (node leaf a k c u) fs H in
      let ((a-Is, none-Is, u-Is), rest) = H'.owned in
      lone-Deleted s (addr s u) u (chosen_left-Spec u)
        (omega (arith, length-le-depth (node leaf a k c u) fs)) fair-u u-ok c-ok
        (subst (λ (n : ℕ). Suits (n + shade c) fs) same suits)
        (unplug-BlackTop (node leaf a k c u) fs top_black)
        (record {
          root_is = H'.root_is;
          owned = (a-Is, (u-Is, rest));
          apart = λ x. omega (arith, H'.apart x);
        })

  -- A node with a left child alone.
  pub delete_right :
      (l : Tree) (b kb : ℕ) (cb : Bool) (r : Tree)
      → let u = node l b kb cb r in
        IsFair (plug (node u a k c leaf) fs)
        → is_red (plug (node u a k c leaf) fs) ≡ false
        → depth (plug (node u a k c leaf) fs) < fuel
        → Keeps s base ns others h (plug (node u a k c leaf) fs)
        → Deleted s (rbtree_delete s fuel a) h ((a, forgotten c) ∷ others) (in_order (plug u fs))
  delete_right l b kb cb r fair top_black enough H =
      let u = node l b kb cb r in
      let ((same, u-ok, _, fair-u, _), c-ok, suits) = unplug-IsFair (node u a k c leaf) fs fair in
      let H' = move_bottom s base ns others h (node u a k c leaf) fs H in
      let ((a-Is, u-Is, none-Is), rest) = H'.owned in
      lone-Deleted b s u (chosen_right-Spec l b kb cb r)
        (omega (arith, length-le-depth (node u a k c leaf) fs)) fair-u u-ok c-ok suits
        (unplug-BlackTop (node u a k c leaf) fs top_black)
        (record {
          root_is = H'.root_is;
          owned = (a-Is, (u-Is, rest));
          apart = λ x. omega (arith, H'.apart x);
        })

  -- A node with two children.
  module _ (l : Tree) (b kb : ℕ) (cb : Bool) (r rl : Tree) (e ke : ℕ) (ce : Bool) (rr : Tree)
      (m km : ℕ) (cm : Bool) (u : Tree) (ws : List Frame) where
    chosen_both :
        plug (node leaf m km cm u) ws ≡ node rl e ke ce rr
        → first (in_order (node rl e ke ce rr)) ≡ m
        → depth (node rl e ke ce rr) ≤ fuel
        → Holds s base h
            (zip s base ns (cells others) (node (node l b kb cb r) a k c (node rl e ke ce rr)) fs)
        → Holds s base h (
            zip s base ns
              (cells others)
              (node leaf m km cm u)
              (ws ++ above c (node l b kb cb r) a k ∷ fs))
        → chosen s fuel a h ≡ some ((m, addr s u), h)
    unfolding chosen load ◌>>=◌
    chosen_both same at_first low H H' =
        let e-ne : (e == s) ≡ false = ground (arith, H.apart e) in
        let b-ne : (b == s) ≡ false = ground (arith, H.apart b) in
        let run =
          rbtree_min-first s base h fuel a rl e ke ce rr (ground (arith, H.apart s)) low H.owned.0.2
          ∙ ap (λ (x : ℕ). some (x, h)) at_first in
        rw (load, H.owned.0.0, e-ne, b-ne, run, H'.owned.0.0) refl

    pub both-Deleted :
        plug (node leaf m km cm u) ws ≡ node rl e ke ce rr
        → first (in_order (node rl e ke ce rr)) ≡ m
        → let t = plug (node (node l b kb cb r) a k c (node rl e ke ce rr)) fs in
          IsFair t
          → is_red t ≡ false
          → depth t < fuel
          → Keeps s base ns others h t
          → Deleted s
              (rbtree_delete s fuel a)
              h
              ((a, forgotten c) ∷ others)
              (in_order (plug (node (node l b kb cb r) m km c (plug u ws)) fs))
    unfolding rbtree_delete ◌>>=◌
    both-Deleted same at_first fair top_black enough H0 =
        let t1 = node l b kb cb r in
        let t2 = node rl e ke ce rr in
        let old = above c t1 a k ∷ fs in
        let path_up = ws ++ above c t1 m km ∷ fs in
        let H = move_bottom s base ns others h (node t1 a k c t2) fs H0 in
        let H' = move_part_down s base ns (cells others) h (node leaf m km cm u) ws old (
          subst (λ (t : Tree). Holds s base h (zip s base ns (cells others) t old)) (sym same)
            (move_down s base ns (cells others) h right t2 a k c t1 fs H)) in
        let whole : plug (node t1 a k c t2) fs ≡ plug (node leaf m km cm u) (ws ++ old) =
          ap (λ (t : Tree). plug t old) (sym same)
          ∙ sym (plug-append (node leaf m km cm u) ws old) in
        let ((level, _, u-ok, _, fair-u), m-ok, suits) =
          unplug-IsFair (node leaf m km cm u) (ws ++ old) (subst IsFair whole fair) in
        let low = length-le-depth (node t1 a k c t2) fs in
        let far = length-le-depth (node leaf m km cm u) (ws ++ old) in
        let ns' = written (new_parent m ws) u ns in
        let black' = written-red (new_parent m ws) u ns ∙ black in
        let mended =
          ended s base ns' (cell_at a (forgotten c) ∷ cells others) black' fuel cm u path_up
            not_empty (omega (arith, far, ap depth whole, length-renamed))
            (subst (λ (x : ℕ). Anchored ns' x u) (sym (up-new_parent base m km c t1 fs ws))
              (written-Anchored (new_parent m ws) u ns))
            fair-u u-ok
            (subst (λ (x : Bool). (x && cm) ≡ false) (sym (rename-up a k m km c t1 right fs ws))
              m-ok)
            (rename-Suits a k m km c t1 right fs (black_height u + shade cm) ws
              (subst (λ (n : ℕ). Suits (n + shade cm) (ws ++ old)) level suits))
            (rename-BlackTop a k m km c t1 right fs ws (
              unplug-BlackTop (node leaf m km cm u) (ws ++ old)
                (ap is_red (sym whole) ∙ top_black))) in
        let ((m-Is, none-Is, u-Is), rest) = H'.owned in
        let (h', run, end) =
          (take_least-Spec s base ns (cells others) a k c t1 fs m km cm u fuel ws mended.spec).run h
            (record {
              root_is = H'.root_is;
              owned = (m-Is, (u-Is, rest));
              apart = λ x. omega (arith, H'.apart x);
            }) in
        record {
          end = h';
          base = base;
          sentinel = ns';
          whole = mended.whole;
          run = rw (chosen_both same at_first (ground arith) H H') run;
          held = end;
          end_black = black';
          fair = mended.fair;
          top_black = mended.top_black;
          order = mended.order ∙ ap in_order (plug-append u ws (above c t1 m km ∷ fs));
        }
      where
        not_empty : ws ++ above c (node l b kb cb r) m km ∷ fs ≢ []
        not_empty = has_one ws (above c (node l b kb cb r) m km) fs

        length-renamed :
            length (ws ++ above c (node l b kb cb r) m km ∷ fs)
            ≡ length (ws ++ above c (node l b kb cb r) a k ∷ fs)
        length-renamed = rw (length-append, length-append) refl
