-- ===== src/Rbtree/Mend.antt =====
-- src/kits/event/event_rbtree.cpp: the loop of rbtree_delete mends the colors and keeps the order.
use hystack.Prelude.{
  ℕ, suc, ◌+◌, Bool, true, false, ◌&&◌, List, [], ◌∷◌, ◌≡◌, refl, ap, ◌∙◌, arith, sym, append_assoc,
}
use mathlib.Core.Path.{subst}
use hystack.Rbtree.{Node, Side, left, right, M}
use hystack.Rbtree.Delete.{settle, fixup}
use hystack.Rbtree.Shape.{Tree, Frame, mk, plug, addr, up, in_order}
use hystack.Rbtree.Owns.{Part, State, Spec}
use hystack.Rbtree.Zipper.{zip}
use hystack.Rbtree.Colors.{IsNode, is_red, paint}
use hystack.Rbtree.Balance.{mk-IsNode}
use hystack.Rbtree.Grow.{IsNode-plug}
use hystack.Rbtree.Insert.{BlackTop}
use hystack.Rbtree.Order.{in_order-paint, in_order-plug}
use hystack.Rbtree.Shades.{
  IsFair, shade, black_height, up_red, Suits, IsFair-mk, plug-IsFair, paint-IsFair, paint-height,
  not-red-paint,
}
use hystack.Rbtree.Beside.{Anchored, beside}
use hystack.Rbtree.Settle.{settle_far-Spec, settle_near-Spec, is_red-mk}
use hystack.Rbtree.Turn.{fixup_root-Spec, fixup_red-Spec}

pub plug-black :
    (t : Tree) (f : Frame) (fs : List Frame) → BlackTop (f ∷ fs) → is_red (plug t (f ∷ fs)) ≡ false
plug-black t f [] b = is_red-mk f.side t f.at f.key f.red f.sib ∙ b
plug-black t f (g ∷ fs) b = plug-black (mk f.side t f.at f.key f.red f.sib) g fs b

and-false : (b : Bool) → (b && false) ≡ false
and-false true = refl
and-false false = refl

module _ (s base : ℕ) (ns : Node) (js : List Part) (black : ns.red ≡ false) where
  -- `m` ends with a whole fair tree that has the given nodes in order.
  pub record Mends (m : M (Unit {0})) (P : State) (nodes : List (ℕ × ℕ)) : Type 0 where
    pub whole : Tree
    pub spec : Spec s base m P tt (zip s base ns js whole [])
    pub fair : IsFair whole
    pub top_black : is_red whole ≡ false
    pub order : in_order whole ≡ nodes

  pub mend_root :
      (fuel : ℕ) (t : Tree)
      → IsNode t
      → IsFair (paint false t)
      → Mends (fixup s (suc fuel) (addr s t)) (zip s base ns js t []) (in_order t)
  mend_root fuel t is fair = record {
    whole = paint false t;
    spec = fixup_root-Spec s base ns js black fuel t is;
    fair = fair;
    top_black = not-red-paint t;
    order = in_order-paint false t;
  }

  pub mend_red :
      (fuel : ℕ) (t : Tree) (f : Frame) (fs : List Frame)
      → Anchored ns f.at t
      → is_red t ≡ true
      → IsFair (paint false t)
      → Suits (black_height t + 1) (f ∷ fs)
      → BlackTop (f ∷ fs)
      → Mends
          (fixup s (suc fuel) (addr s t))
          (zip s base ns js t (f ∷ fs))
          (in_order (plug t (f ∷ fs)))
  mend_red fuel t f fs anchored red fair suits b = record {
    whole = plug (paint false t) (f ∷ fs);
    spec = fixup_red-Spec s base ns js black t f fs anchored fuel red;
    fair =
        plug-IsFair (paint false t) (f ∷ fs) fair (rw (not-red-paint t) (and-false f.red))
          (subst (λ (n : ℕ). Suits n (f ∷ fs)) (sym (paint-height t red)) suits);
    top_black = plug-black (paint false t) f fs b;
    order = in_order-plug (paint false t) t (f ∷ fs) (in_order-paint false t);
  }

  -- What is left to do after a turn.
  pub record Goes (m : M ℕ) (P : State) (fuel : ℕ) (nodes : List (ℕ × ℕ)) : Type 0 where
    pub next : ℕ
    pub mid : State
    pub spec : Spec s base m P next mid
    pub rest : Mends (fixup s fuel next) mid nodes

order_far :
    (d : Side) (t : Tree) (a ka : ℕ) (ca : Bool) (n2 : Tree) (b kb : ℕ) (n3 : Tree)
    → in_order (mk d (mk d t a ka false n2) b kb ca (paint false n3))
      ≡ in_order (mk d t a ka ca (mk d n2 b kb false n3))
order_far left t a ka ca n2 b kb n3 = rw (in_order-paint false n3) (simp append_assoc)
order_far right t a ka ca n2 b kb n3 = rw (in_order-paint false n3) (simp append_assoc)

order_near :
    (d : Side) (t : Tree) (a ka : ℕ) (ca : Bool) (m2 : Tree) (e ke : ℕ) (m3 : Tree) (b kb : ℕ)
    (n3 : Tree)
    → in_order (mk d (mk d t a ka false m2) e ke ca (paint false (mk d m3 b kb true n3)))
      ≡ in_order (mk d t a ka ca (mk d (mk d m2 e ke true m3) b kb false n3))
order_near left t a ka ca m2 e ke m3 b kb n3 = simp append_assoc
order_near right t a ka ca m2 e ke m3 b kb n3 = simp append_assoc

pub order_up :
    (d : Side) (t : Tree) (a ka : ℕ) (ca : Bool) (n2 : Tree) (b kb : ℕ) (n3 : Tree)
    → in_order (mk d t a ka ca (mk d n2 b kb true n3))
      ≡ in_order (mk d t a ka ca (mk d n2 b kb false n3))
order_up left t a ka ca n2 b kb n3 = refl
order_up right t a ka ca n2 b kb n3 = refl

-- The parts of a sibling whose near child is red.
near_parts :
    (d : Side) (m2 : Tree) (e ke : ℕ) (m3 : Tree) (b kb : ℕ) (n3 : Tree) (n : ℕ)
    → IsFair (mk d m2 e ke true m3)
    → IsFair n3
    → black_height (mk d m2 e ke true m3) ≡ n
    → black_height n3 ≡ n
    → IsFair m2
      × IsFair (paint false (mk d m3 b kb true n3))
      × (is_red (paint false (mk d m3 b kb true n3)) ≡ false)
      × (black_height m2 ≡ n)
      × (black_height (paint false (mk d m3 b kb true n3)) ≡ n + 1)
near_parts left m2 e ke m3 b kb n3 n fair-2 fair-3 h2 h3 = ground arith
near_parts right m2 e ke m3 b kb n3 n fair-2 fair-3 h2 h3 = ground arith

close-IsFair :
    (d : Side) (t : Tree) (a ka : ℕ) (ca : Bool) (n2 : Tree) (b kb : ℕ) (p3 : Tree)
    (fs : List Frame)
    → IsFair t
    → IsFair n2
    → IsFair p3
    → is_red p3 ≡ false
    → black_height n2 ≡ black_height t
    → black_height p3 ≡ black_height t + 1
    → (ca && up_red fs) ≡ false
    → Suits (black_height t + 1 + shade ca) fs
    → IsFair (
        plug
          (mk d t a ka false n2)
          (record { side = d; at = b; key = kb; red = ca; sib = p3 } ∷ fs))
close-IsFair d t a ka ca n2 b kb p3 fs fair-t fair-2 fair-3 black-3 h2 h3 up suits =
    let (fair-mk, height-mk, red-mk) =
      IsFair-mk d t a ka false n2 fair-t fair-2 (sym h2) refl refl in
    plug-IsFair (mk d t a ka false n2)
      (record { side = d; at = b; key = kb; red = ca; sib = p3 } ∷ fs) fair-mk
      (rw red-mk (and-false ca))
      (
        h3 ∙ sym height-mk,
        rw black-3 (and-false ca),
        up,
        fair-3,
        subst (λ (n : ℕ). Suits (n + shade ca) fs) (sym height-mk) suits,
      )

module _ (s base : ℕ) (ns : Node) (js : List Part) (black : ns.red ≡ false) (fuel : ℕ) (d : Side)
    (t : Tree) (a ka : ℕ) (ca : Bool) (b kb : ℕ) (fs : List Frame) (anchored : Anchored ns a t)
    (fair-t : IsFair t) (up : (ca && up_red fs) ≡ false)
    (suits : Suits (black_height t + 1 + shade ca) fs) where
  pub go_far :
      (n2 n3 : Tree)
      → IsFair n2
      → IsFair n3
      → black_height n2 ≡ black_height t
      → black_height n3 ≡ black_height t
      → is_red n3 ≡ true
      → Goes s base ns js black
          (settle s d (addr s t) b)
          (beside s base ns js d t a ka ca n2 b kb false n3 fs)
          (suc fuel)
          (in_order (plug (mk d t a ka ca (mk d n2 b kb false n3)) fs))
  go_far n2 n3 fair-2 fair-3 h2 h3 red =
      let f : Frame = record { side = d; at = b; key = kb; red = ca; sib = paint false n3 } in
      let inner = mk d t a ka false n2 in
      record {
        next = addr s (plug inner (f ∷ fs));
        mid = zip s base ns js (plug inner (f ∷ fs)) [];
        spec = settle_far-Spec s base ns js black d t a ka ca anchored n2 b kb n3 fs red;
        rest =
            subst
              (λ (nodes : List (ℕ × ℕ)).
                Mends s base ns js black (fixup s (suc fuel) (addr s (plug inner (f ∷ fs))))
                  (zip s base ns js (plug inner (f ∷ fs)) []) nodes)
              (in_order-plug (mk d inner b kb ca (paint false n3))
                (mk d t a ka ca (mk d n2 b kb false n3)) fs (order_far d t a ka ca n2 b kb n3))
              (mend_root s base ns js black fuel (plug inner (f ∷ fs))
                (IsNode-plug inner (f ∷ fs) (mk-IsNode d t a ka false n2))
                (paint-IsFair (plug inner (f ∷ fs)) (
                  close-IsFair d t a ka ca n2 b kb (paint false n3) fs fair-t fair-2
                    (paint-IsFair n3 fair-3) (not-red-paint n3) h2
                    (paint-height n3 red ∙ ap (λ (n : ℕ). n + 1) h3) up suits)));
      }

  pub go_near :
      (m2 : Tree) (e ke : ℕ) (m3 n3 : Tree)
      → IsFair (mk d m2 e ke true m3)
      → IsFair n3
      → black_height (mk d m2 e ke true m3) ≡ black_height t
      → black_height n3 ≡ black_height t
      → is_red n3 ≡ false
      → Goes s base ns js black
          (settle s d (addr s t) b)
          (beside s base ns js d t a ka ca (mk d m2 e ke true m3) b kb false n3 fs)
          (suc fuel)
          (in_order (plug (mk d t a ka ca (mk d (mk d m2 e ke true m3) b kb false n3)) fs))
  go_near m2 e ke m3 n3 fair-2 fair-3 h2 h3 n3-black =
      let p3 = paint false (mk d m3 b kb true n3) in
      let f : Frame = record { side = d; at = e; key = ke; red = ca; sib = p3 } in
      let inner = mk d t a ka false m2 in
      let (fair-m2, fair-p3, black-p3, hm2, hp3) =
        near_parts d m2 e ke m3 b kb n3 (black_height t) fair-2 fair-3 h2 h3 in
      record {
        next = addr s (plug inner (f ∷ fs));
        mid = zip s base ns js (plug inner (f ∷ fs)) [];
        spec =
            settle_near-Spec s base ns js black d t a ka ca anchored m2 e ke m3 b kb n3 fs n3-black;
        rest =
            subst
              (λ (nodes : List (ℕ × ℕ)).
                Mends s base ns js black (fixup s (suc fuel) (addr s (plug inner (f ∷ fs))))
                  (zip s base ns js (plug inner (f ∷ fs)) []) nodes)
              (in_order-plug (mk d inner e ke ca p3)
                (mk d t a ka ca (mk d (mk d m2 e ke true m3) b kb false n3)) fs
                (order_near d t a ka ca m2 e ke m3 b kb n3))
              (mend_root s base ns js black fuel (plug inner (f ∷ fs))
                (IsNode-plug inner (f ∷ fs) (mk-IsNode d t a ka false m2))
                (paint-IsFair (plug inner (f ∷ fs)) (
                  close-IsFair d t a ka ca m2 e ke p3 fs fair-t fair-m2 fair-p3 black-p3 hm2 hp3 up
                    suits)));
      }
