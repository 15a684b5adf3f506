-- ===== src/Rbtree/Removed.antt =====
-- src/kits/event/event_rbtree.cpp: the end of rbtree_delete, once a node is by itself.
use hystack.Prelude.{
  ℕ, ◌+◌, ◌<◌, Bool, true, false, ◌&&◌, List, [], ◌∷◌, ◌==◌, if◌then◌else◌, Option, some, ◌≡◌, ◌≢◌,
  refl, ◌∙◌, arith, length,
}
use mathlib.Core.Path.{subst}
use hystack.Rbtree.{Node, Heap, M, pure}
use hystack.Rbtree.Delete.{forget, fixup, take_out}
use hystack.Rbtree.Shape.{Tree, leaf, node, Frame, plug, addr, up, top, in_order}
use hystack.Rbtree.Owns.{Part, cell_at, tree, path, State, Holds, Spec}
use hystack.Rbtree.Rules.{
  bind-Spec, known-Spec, weaken-Spec, result-Spec, then-Spec, else-Spec, pure-Spec, get_root-Spec,
  set_root-Spec, load-Spec, modify-Spec, eq_self,
}
use hystack.Rbtree.Zipper.{zip}
use hystack.Rbtree.Colors.{is_red, paint, paint-Spec}
use hystack.Rbtree.Beside.{Anchored}
use hystack.Rbtree.Owns.{Stands}
use hystack.Rbtree.Grow.{Keeps, cells, cells-base}
use hystack.Rbtree.Insert.{BlackTop}
use hystack.Rbtree.Order.{in_order-paint}
use hystack.Rbtree.Shades.{
  IsFair, shade, black_height, up_red, Suits, plug-IsFair, paint-IsFair, not-red-paint,
}
use hystack.Rbtree.Mend.{Mends, plug-black}
use hystack.Rbtree.Fixup.{fixup-Mends}
use hystack.Rbtree.Zipper.{move_top}
use hystack.Rbtree.Turn.{not_root}
use hystack.Rbtree.Unlink.{forgotten, written, written-red, written-Anchored, unlink-Spec}

-- `m` ends, and the memory holds a fair tree that has the given nodes in order, the sentinel, which
-- is black, and the other nodes.
pub record Deleted (s : ℕ) (m : M (Unit {0})) (h : Heap) (others : List (ℕ × Node))
    (nodes : List (ℕ × ℕ)) : Type 0 where
  pub end : Heap
  pub base : ℕ
  pub sentinel : Node
  pub whole : Tree
  pub run : m h ≡ some (tt, end)
  pub held : Keeps s base sentinel others end whole
  pub end_black : sentinel.red ≡ false
  pub fair : IsFair whole
  pub top_black : is_red whole ≡ false
  pub order : in_order whole ≡ nodes

Stands-base :
    (s base base' : ℕ) (mem : ℕ → Option Node) (q : ℕ) (t : Tree)
    → Stands s base mem q t
    → Stands s base' mem q t
Stands-base s base base' mem q leaf st = tt
Stands-base s base base' mem q (node l a k c r) st =
    (st.0, Stands-base s base base' mem a l st.1, Stands-base s base base' mem a r st.2)

repaint : (ns : Node) → ns.red ≡ false → record ns { red = false } ≡ ns
repaint ns black = ground arith

module _ (s base : ℕ) (ns : Node) (js : List Part) (black : ns.red ≡ false) where
  -- What comes after a node of the color `c` was cut out above `u`.
  pub ended :
      (fuel : ℕ) (c : Bool) (u : Tree) (fs : List Frame)
      → fs ≢ []
      → length fs + 1 < fuel
      → Anchored ns (up base fs) u
      → IsFair u
      → (c && is_red u) ≡ false
      → (up_red fs && c) ≡ false
      → Suits (black_height u + shade c) fs
      → BlackTop fs
      → Mends s base ns js black
          (if c then pure tt else fixup s fuel (addr s u))
          (zip s base ns js u fs)
          (in_order (plug u fs))
  ended fuel c u [] below enough anchored fair c-u up suits top = absurd (below refl)
  ended fuel true u (f ∷ fs) below enough anchored fair c-u up suits top = record {
    whole = plug u (f ∷ fs);
    spec = result-Spec pure-Spec (λ g. move_top s base ns js g u (f ∷ fs));
    fair =
        plug-IsFair u (f ∷ fs) fair (ground arith)
          (subst (λ (n : ℕ). Suits n (f ∷ fs)) (omega arith) suits);
    top_black = plug-black u f fs top;
    order = refl;
  }
  ended fuel false u (f ∷ fs) below enough anchored fair c-u up suits top =
      fixup-Mends s base ns js black fuel u (f ∷ fs) enough (λ e. absurd (below e)) anchored
        (paint-IsFair u fair) suits top

module _ (s base : ℕ) (ns : Node) (black : ns.red ≡ false) (others : List (ℕ × Node)) (a k p q : ℕ)
    (c : Bool) where
  -- A node by itself that is under the path of `u`.
  abbrev pub lone : ℕ → Tree → List Frame → State
  lone y u fs = (
    top a fs,
    cell_at a (record { key = k; left = p; right = q; parent = y; red = c })
        ∷ tree a u
        ∷ path a fs
        ∷ cell_at s ns
        ∷ cells others,
  )

  out_root-Spec :
      (fuel y : ℕ) (u : Tree)
      → Spec s base (take_out s fuel a a (addr s u)) (lone y u []) tt (
        addr s (paint false u),
        cell_at a (forgotten c) ∷ tree a (paint false u) ∷ path a [] ∷ cell_at s ns ∷ cells others,
      )
  unfolding take_out forget
  out_root-Spec fuel y leaf = bind-Spec _ get_root-Spec (
      then-Spec (a == a) _ _ (eq_self a) (
        bind-Spec _ set_root-Spec
          (bind-Spec _ (modify-Spec 3 refl _ (repaint ns black)) (modify-Spec 0 refl _ refl))))
  out_root-Spec fuel y (node l b kb cb t) = bind-Spec _ get_root-Spec (
      then-Spec (a == a) _ _ (eq_self a) (
        bind-Spec _ set_root-Spec (
          bind-Spec _ (paint-Spec 1 a (node l b kb cb t) false tt refl)
            (modify-Spec 0 refl _ refl))))

  abbrev after_ns : ℕ → Tree → Node
  after_ns y u = written y u ns

  abbrev others' : List (ℕ × Node)
  others' = (a, forgotten c) ∷ others

  out_below-Spec :
      (fuel : ℕ) (u : Tree) (f : Frame) (fs : List Frame) {Q : State}
      → Spec s base
          (if c then pure tt else fixup s fuel (addr s u))
          (zip s base (after_ns f.at u) (cells others') u (f ∷ fs))
          tt
          Q
      → Spec s base (take_out s fuel a a (addr s u)) (lone f.at u (f ∷ fs)) tt Q
  unfolding take_out forget
  out_below-Spec fuel u f fs rest =
      known-Spec (λ h H. not_root s (node leaf a 0 false leaf) f fs (λ x. omega (arith, H.apart x)))
        (λ below. bind-Spec _ get_root-Spec (
          else-Spec (a == top f.at fs) _ _ below (
            bind-Spec _ (load-Spec 0 refl) (
              bind-Spec _ (unlink-Spec s base (cells others) a k p q c ns u f fs) (
                bind-Spec _ (modify-Spec 0 refl _ refl) (
                  weaken-Spec
                    (λ h H.
                      let (a-Is, (u-Is, (fs-Is, (s-Is, rest)))) = H.owned in
                      record {
                        root_is = H.root_is;
                        owned = (u-Is, (fs-Is, (s-Is, (a-Is, rest))));
                        apart = λ x. omega (arith, H.apart x);
                      })
                    rest))))))

  -- The node by itself is taken out, and `u` comes in its place.
  pub take_out-Deleted :
      (fuel y : ℕ) (u : Tree) (fs : List Frame) (h : Heap)
      → (fs ≢ [] → y ≡ up base fs)
      → length fs + 1 < fuel
      → IsFair u
      → (c && is_red u) ≡ false
      → (up_red fs && c) ≡ false
      → Suits (black_height u + shade c) fs
      → BlackTop fs
      → Holds s base h (lone y u fs)
      → Deleted s (take_out s fuel a a (addr s u)) h others' (in_order (plug u fs))
  take_out-Deleted fuel y u [] h parent enough fair c-u up suits top H =
      let (h', run, H') = (out_root-Spec fuel y u).run h H in
      let (a-Is, (u-Is, (none-Is, (s-Is, rest)))) = H'.owned in
      record {
        end = h';
        base = a;
        sentinel = ns;
        whole = paint false u;
        run = run;
        held = record {
          root_is = H'.root_is;
          owned = (
            Stands-base s base a h'.cell a (paint false u) u-Is,
            (
              tt,
              cells-base s base a h'.cell ((s, ns) ∷ (a, forgotten c) ∷ others)
                  (s-Is, (a-Is, rest)),
            ),
          );
          apart = λ x. omega (arith, H'.apart x);
        };
        end_black = black;
        fair = paint-IsFair u fair;
        top_black = not-red-paint u;
        order = in_order-paint false u;
      }
  take_out-Deleted fuel y u (f ∷ fs) h parent enough fair c-u up suits top H =
      let H' : Holds s base h (lone f.at u (f ∷ fs)) =
        subst (λ (x : ℕ). Holds s base h (lone x u (f ∷ fs))) (parent (λ e. cc)) H in
      let mended =
        ended s base (after_ns f.at u) (cells others') (written-red f.at u ns ∙ black) fuel c u
          (f ∷ fs) (λ e. cc) enough (written-Anchored f.at u ns) fair c-u up suits top in
      let (h', run, end) = (out_below-Spec fuel u f fs mended.spec).run h H' in
      record {
        end = h';
        base = base;
        sentinel = after_ns f.at u;
        whole = mended.whole;
        run = run;
        held = end;
        end_black = written-red f.at u ns ∙ black;
        fair = mended.fair;
        top_black = mended.top_black;
        order = mended.order;
      }
