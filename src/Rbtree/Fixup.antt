-- ===== src/Rbtree/Fixup.antt =====
-- src/kits/event/event_rbtree.cpp: the loop of rbtree_delete as a whole.
use hystack.Prelude.{
  ℕ, zero, suc, ◌+◌, ◌<◌, Bool, true, false, ◌&&◌, List, [], ◌∷◌, ◌≡◌, ◌≢◌, refl, ap, ◌∙◌, arith,
  sym, inl, inr, Bool-cases, length, append_assoc,
}
use mathlib.Core.Path.{subst}
use hystack.Rbtree.{Node, Side, left, right, other}
use hystack.Rbtree.Delete.{lift_red, settle, fixup}
use hystack.Rbtree.Shape.{Tree, leaf, node, Frame, mk, plug, addr, up, in_order}
use hystack.Rbtree.Owns.{Part, State, Spec}
use hystack.Rbtree.Rules.{bind-Spec}
use hystack.Rbtree.Zipper.{zip, addr-mk}
use hystack.Rbtree.Colors.{IsNode, is_red, paint, near}
use hystack.Rbtree.Balance.{mk-IsNode, mk-near}
use hystack.Rbtree.Insert.{BlackTop, BlackTop-tail}
use hystack.Rbtree.Order.{in_order-plug}
use hystack.Rbtree.Shades.{IsFair, shade, black_height, Suits}
use hystack.Rbtree.Beside.{Anchored}
use hystack.Rbtree.Steps.{lift_black-Spec, lift_red-Spec}
use hystack.Rbtree.Settle.{is_red-mk}
use hystack.Rbtree.Turn.{fixup_black-Spec, step_into-Spec}
use hystack.Rbtree.Mend.{Mends, Goes, mend_root, mend_red}
use hystack.Rbtree.Sibling.{paint-black, up_parts, swap_add, parts_of, go_beside}

order_lift :
    (d : Side) (t : Tree) (a ka : ℕ) (ca : Bool) (n2 : Tree) (b kb : ℕ) (n3 : Tree)
    → in_order (mk d (mk d t a ka true n2) b kb false n3)
      ≡ in_order (mk d t a ka ca (mk d n2 b kb true n3))
order_lift left t a ka ca n2 b kb n3 = simp append_assoc
order_lift right t a ka ca n2 b kb n3 = simp append_assoc

Anchored-mk :
    (ns : Node) (q : ℕ) (d : Side) (t : Tree) (a k : ℕ) (c : Bool) (u : Tree)
    → Anchored ns q (mk d t a k c u)
Anchored-mk ns q left t a k c u = tt
Anchored-mk ns q right t a k c u = tt

red_child : (c r : Bool) → (c && r) ≡ false → r ≡ true → c ≡ false
red_child c r ok red = ground arith

level_lem : (m n : ℕ) → m + 0 ≡ n → m ≡ n + 0
level_lem m n e = omega arith

shade_lem : (n : ℕ) (c : Bool) → c ≡ false → n + shade c ≡ n + 0 + 1
shade_lem n c e = ground arith

drop_zero : {m n : ℕ} → m + 0 ≡ n → m ≡ n
drop_zero e = omega arith

cancel : {m n : ℕ} → m + 1 ≡ n + 1 → m ≡ n
cancel e = omega arith

true-ne-false : true ≢ false
true-ne-false e = cc

top_here : (f g : Frame) (fs : List Frame) → g.red ≡ false → BlackTop (f ∷ fs) → BlackTop (g ∷ fs)
top_here f g [] e top = e
top_here f g (h ∷ fs) e top = top

module _ (s base : ℕ) (ns : Node) (js : List Part) (black : ns.red ≡ false) where
  -- A turn of the loop at a black tree.
  turn :
      (fuel : ℕ) (t : Tree) (f : Frame) (fs : List Frame) (w : ℕ) (mid : State)
      (nodes : List (ℕ × ℕ))
      → Anchored ns f.at t
      → is_red t ≡ false
      → IsNode f.sib
      → Spec s base
          (lift_red s f.side (addr s t) (addr s f.sib))
          (zip s base ns js t (f ∷ fs))
          w
          mid
      → Goes s base ns js black (settle s f.side (addr s t) w) mid fuel nodes
      → Mends s base ns js black (fixup s (suc fuel) (addr s t)) (zip s base ns js t (f ∷ fs)) nodes
  turn fuel t f fs w mid nodes anchored t-black is lift goes = record {
    whole = goes.rest.whole;
    spec =
        fixup_black-Spec s base ns js black t f fs anchored fuel goes.next t-black
          (step_into-Spec s base ns js black t f fs anchored goes.next is
            (bind-Spec _ lift goes.spec))
          goes.rest.spec;
    fair = goes.rest.fair;
    top_black = goes.rest.top_black;
    order = goes.rest.order;
  }

  module _ (fuel : ℕ) (d : Side) (t : Tree) (a ka : ℕ) (b kb : ℕ) (fs : List Frame)
      (anchored : Anchored ns a t) (fair-t : IsFair t) (t-black : is_red t ≡ false) where
    at_black :
        (ca : Bool) (n2 n3 : Tree)
        → let f : Frame = record {
          side = d;
          at = a;
          key = ka;
          red = ca;
          sib = mk d n2 b kb false n3;
        } in
          Suits (black_height t + 1) (f ∷ fs)
          → (is_red n2 ≡ false
              → is_red n3 ≡ false
              → let t' = mk d t a ka ca (mk d n2 b kb true n3) in
                IsFair (paint false t')
                → Suits (black_height t' + 1) fs
                → Mends s base ns js black
                    (fixup s (suc fuel) a)
                    (zip s base ns js t' fs)
                    (in_order (plug t' fs)))
          → Mends s base ns js black
              (fixup s (suc (suc fuel)) (addr s t))
              (zip s base ns js t (f ∷ fs))
              (in_order (plug t (f ∷ fs)))
    at_black ca n2 n3 (same, sib-ok, up, fair-sib, suits) rest =
        let f : Frame = record {
          side = d;
          at = a;
          key = ka;
          red = ca;
          sib = mk d n2 b kb false n3;
        } in
        let (f2, f3, h2, h3, _, _) =
          parts_of d n2 b kb false n3 (black_height t + 1) fair-sib same in
        turn (suc fuel) t f fs b (zip s base ns js t (f ∷ fs)) (in_order (plug t (f ∷ fs))) anchored
          t-black (mk-IsNode d n2 b kb false n3)
          (subst
            (λ (p : ℕ).
              Spec s base (lift_red s d (addr s t) p) (zip s base ns js t (f ∷ fs)) b
                (zip s base ns js t (f ∷ fs)))
            (sym (addr-mk s d n2 b kb false n3))
            (lift_black-Spec s base ns js d t a anchored ka ca n2 b kb n3 fs))
          (go_beside s base ns js black fuel d t a ka ca b kb fs anchored fair-t up suits n2 n3 f2
            f3 (omega arith) (omega arith)
            (λ b2 b3.
              let (fair-up, height-up, red-up) =
                up_parts d t a ka ca n2 b kb n3 fair-t f2 f3 b2 b3 (omega arith) (omega arith) in
              rest b2 b3 fair-up (
                subst (λ (n : ℕ). Suits n fs)
                  (swap_add (black_height t) (shade ca) ∙ ap (λ (n : ℕ). n + 1) (sym height-up))
                  suits)))

    -- A red parent with a black sibling, which is the root of `l` and `r`.
    at_nephew :
        (l : Tree) (e ke : ℕ) (r : Tree) (g : Frame) (gs : List Frame)
        → let n2 = node l e ke false r in
          let f : Frame = record { side = d; at = a; key = ka; red = true; sib = n2 } in
          Suits (black_height t + 1 + 0) (g ∷ gs)
          → g.red ≡ false
          → IsFair n2
          → black_height n2 ≡ black_height t + 1
          → BlackTop (g ∷ gs)
          → Goes s base ns js black
              (settle s d (addr s t) e)
              (zip s base ns js t (f ∷ g ∷ gs))
              (suc fuel)
              (in_order (plug t (f ∷ g ∷ gs)))
    at_nephew l e ke r g gs suits g-black fair-2 h2 top =
        let m2 = near d l r in
        let m3 = near (other d) l r in
        let same = mk-near d l e ke false r in
        let (f2, f3, hm2, hm3, _, _) =
          parts_of d m2 e ke false m3 (black_height t + 1) (subst IsFair same fair-2)
            (ap black_height (sym same) ∙ h2) in
        subst
          (λ (u : Tree).
            let f : Frame = record { side = d; at = a; key = ka; red = true; sib = u } in
            Goes s base ns js black (settle s d (addr s t) e) (zip s base ns js t (f ∷ g ∷ gs))
              (suc fuel) (in_order (plug t (f ∷ g ∷ gs))))
          (sym same)
          (go_beside s base ns js black fuel d t a ka true e ke (g ∷ gs) anchored fair-t g-black
            suits m2 m3 f2 f3 (cancel hm2) (cancel hm3)
            (λ b2 b3.
              let t' = mk d t a ka true (mk d m2 e ke true m3) in
              let (fair-up, height-up, red-up) =
                up_parts d t a ka true m2 e ke m3 fair-t f2 f3 b2 b3 (cancel hm2) (cancel hm3) in
              subst
                (λ (p : ℕ).
                  Mends s base ns js black (fixup s (suc fuel) p) (zip s base ns js t' (g ∷ gs))
                    (in_order (plug t' (g ∷ gs))))
                (addr-mk s d t a ka true (mk d m2 e ke true m3))
                (mend_red s base ns js black fuel t' g gs
                  (Anchored-mk ns g.at d t a ka true (mk d m2 e ke true m3)) red-up fair-up
                  (subst (λ (n : ℕ). Suits n (g ∷ gs))
                    (swap_add (black_height t) 0 ∙ ap (λ (n : ℕ). n + 1) (sym height-up)) suits)
                  top)))

    at_red :
        (ca : Bool) (n2 n3 : Tree)
        → let f : Frame = record {
          side = d;
          at = a;
          key = ka;
          red = ca;
          sib = mk d n2 b kb true n3;
        } in
          Suits (black_height t + 1) (f ∷ fs)
          → BlackTop (f ∷ fs)
          → Mends s base ns js black
              (fixup s (suc (suc fuel)) (addr s t))
              (zip s base ns js t (f ∷ fs))
              (in_order (plug t (f ∷ fs)))
    at_red ca leaf n3 (same, sib-ok, up, fair-sib, suits) top =
        let (_, _, h2, _, _, _) = parts_of d leaf b kb true n3 (black_height t + 1) fair-sib same in
        absurd (omega (arith, h2))
    at_red ca (node l e ke true r) n3 (same, sib-ok, up, fair-sib, suits) top =
        let (_, _, _, _, r2, _) =
          parts_of d (node l e ke true r) b kb true n3 (black_height t + 1) fair-sib same in
        absurd (true-ne-false r2)
    at_red ca (node l e ke false r) n3 (same, sib-ok, up, fair-sib, suits) top =
        let n2 = node l e ke false r in
        let f : Frame = record {
          side = d;
          at = a;
          key = ka;
          red = ca;
          sib = mk d n2 b kb true n3;
        } in
        let f' : Frame = record { side = d; at = a; key = ka; red = true; sib = n2 } in
        let g : Frame = record { side = d; at = b; key = kb; red = false; sib = n3 } in
        let (fair-2, fair-3, h2, h3, _, _) =
          parts_of d n2 b kb true n3 (black_height t + 1) fair-sib same in
        let ca-black : ca ≡ false =
          red_child ca (is_red (mk d n2 b kb true n3)) sib-ok (is_red-mk d n2 b kb true n3) in
        let level : Suits (black_height t + 1 + 0) (g ∷ fs) = (
          level_lem (black_height n3) (black_height t + 1) h3,
          refl,
          refl,
          fair-3,
          subst (λ (n : ℕ). Suits n fs) (shade_lem (black_height t + 1) ca ca-black) suits,
        ) in
        turn (suc fuel) t f fs e (zip s base ns js t (f' ∷ g ∷ fs)) (in_order (plug t (f ∷ fs)))
          anchored t-black (mk-IsNode d n2 b kb true n3)
          (subst
            (λ (p : ℕ).
              Spec s base (lift_red s d (addr s t) p) (zip s base ns js t (f ∷ fs)) e
                (zip s base ns js t (f' ∷ g ∷ fs)))
            (sym (addr-mk s d n2 b kb true n3))
            (lift_red-Spec s base ns js d t a anchored ka ca n2 b kb n3 fs))
          (subst
            (λ (nodes : List (ℕ × ℕ)).
              Goes s base ns js black (settle s d (addr s t) e) (zip s base ns js t (f' ∷ g ∷ fs))
                (suc fuel) nodes)
            (in_order-plug (mk d (mk d t a ka true n2) b kb false n3)
              (mk d t a ka ca (mk d n2 b kb true n3)) fs (order_lift d t a ka ca n2 b kb n3))
            (at_nephew l e ke r g fs level refl fair-2 (drop_zero h2) (top_here f g fs refl top)))

  -- The loop at a black tree, where it mends what is above.
  at_sibling :
      (fuel : ℕ) (t w : Tree) (f : Frame) (fs : List Frame)
      → let f' : Frame = record f { sib = w } in
        Anchored ns f.at t
        → IsFair t
        → is_red t ≡ false
        → Suits (black_height t + 1) (f' ∷ fs)
        → BlackTop (f' ∷ fs)
        → ((t' : Tree)
            → IsNode t'
            → IsFair (paint false t')
            → Suits (black_height t' + 1) fs
            → Mends s base ns js black
                (fixup s (suc fuel) (addr s t'))
                (zip s base ns js t' fs)
                (in_order (plug t' fs)))
        → Mends s base ns js black
            (fixup s (suc (suc fuel)) (addr s t))
            (zip s base ns js t (f' ∷ fs))
            (in_order (plug t (f' ∷ fs)))
  at_sibling fuel t leaf f fs anchored fair t-black suits top ih = absurd (omega (arith, suits.0))
  at_sibling fuel t (node l b kb true r) f fs anchored fair t-black suits top ih =
      let same = mk-near f.side l b kb true r in
      subst
        (λ (u : Tree).
          let f' : Frame = record f { sib = u } in
          Mends s base ns js black (fixup s (suc (suc fuel)) (addr s t))
            (zip s base ns js t (f' ∷ fs)) (in_order (plug t (f' ∷ fs))))
        (sym same)
        (at_red fuel f.side t f.at f.key b kb fs anchored fair t-black f.red (near f.side l r)
          (near (other f.side) l r)
          (subst
            (λ (u : Tree).
              let f' : Frame = record f { sib = u } in Suits (black_height t + 1) (f' ∷ fs))
            same suits)
          (subst (λ (u : Tree). let f' : Frame = record f { sib = u } in BlackTop (f' ∷ fs)) same
            top))
  at_sibling fuel t (node l b kb false r) f fs anchored fair t-black suits top ih =
      let same = mk-near f.side l b kb false r in
      subst
        (λ (u : Tree).
          let f' : Frame = record f { sib = u } in
          Mends s base ns js black (fixup s (suc (suc fuel)) (addr s t))
            (zip s base ns js t (f' ∷ fs)) (in_order (plug t (f' ∷ fs))))
        (sym same)
        (at_black fuel f.side t f.at f.key b kb fs anchored fair t-black f.red (near f.side l r)
          (near (other f.side) l r)
          (subst
            (λ (u : Tree).
              let f' : Frame = record f { sib = u } in Suits (black_height t + 1) (f' ∷ fs))
            same suits)
          (λ b2 b3 fair-up suits-up.
            let t' =
              mk f.side t f.at f.key f.red
                (mk f.side (near f.side l r) b kb true (near (other f.side) l r)) in
            subst
              (λ (p : ℕ).
                Mends s base ns js black (fixup s (suc fuel) p) (zip s base ns js t' fs)
                  (in_order (plug t' fs)))
              (addr-mk s f.side t f.at f.key f.red
                (mk f.side (near f.side l r) b kb true (near (other f.side) l r)))
              (ih t'
                (mk-IsNode f.side t f.at f.key f.red
                  (mk f.side (near f.side l r) b kb true (near (other f.side) l r)))
                fair-up suits-up)))

  -- With more fuel than the path is long by one turn, the loop ends with a whole fair tree.
  pub fixup-Mends :
      (fuel : ℕ) (t : Tree) (fs : List Frame)
      → length fs + 1 < fuel
      → (fs ≡ [] → IsNode t)
      → Anchored ns (up base fs) t
      → IsFair (paint false t)
      → Suits (black_height t + 1) fs
      → BlackTop fs
      → Mends s base ns js black
          (fixup s fuel (addr s t))
          (zip s base ns js t fs)
          (in_order (plug t fs))
  fixup-Mends zero t fs enough rooted anchored fair suits top = absurd (omega arith)
  fixup-Mends (suc zero) t fs enough rooted anchored fair suits top = absurd (omega arith)
  fixup-Mends (suc (suc fuel)) t [] enough rooted anchored fair suits top =
      mend_root s base ns js black (suc fuel) t (rooted refl) fair
  fixup-Mends (suc (suc fuel)) t (f ∷ fs) enough rooted anchored fair suits top =
      elim (Bool-cases (is_red t)) [
        | inl red ↦ mend_red s base ns js black (suc fuel) t f fs anchored red fair suits top
        | inr t-black ↦
            at_sibling fuel t f.sib f fs anchored (subst IsFair (paint-black t t-black) fair)
              t-black suits top
              (λ t' is' fair' suits'.
                fixup-Mends (suc fuel) t' fs (omega arith) (λ _. is')
                  (anchored_node t' (up base fs) is') fair' suits' (BlackTop-tail f fs top))
      ]
    where
      anchored_node : (t' : Tree) (q : ℕ) → IsNode t' → Anchored ns q t'
      anchored_node leaf q is = absurd is
      anchored_node (node l a k c r) q is = tt
