-- ===== src/Rbtree/Steps.antt =====
-- src/kits/event/event_rbtree.cpp: what each step of the loop of rbtree_delete does.
use hystack.Prelude.{
  ℕ, Bool, true, false, not, ◌&&◌, List, ◌∷◌, some, ◌≡◌, refl, arith, inl, inr, Bool-cases,
  get_elem?,
}
use mathlib.Core.Path.{subst}
use hystack.Rbtree.{Node, Heap, Side, left, right, other}
use hystack.Rbtree.Delete.{both_black, sibling, lift_red, turn_out, close_up}
use hystack.Rbtree.Shape.{Tree, Frame, mk, addr, up, side_cell}
use hystack.Rbtree.Owns.{Part, cell_at, tree, Holds, Spec}
use hystack.Rbtree.Rules.{bind-Spec, weaken-Spec, result-Spec, pure-Spec, load-Spec, modify-Spec}
use hystack.Rbtree.Rotate.{before, after, child_near, child_far, load_head-Spec, rotate-Spec}
use hystack.Rbtree.Zipper.{zip, move_down, leave_below, addr-mk}
use hystack.Rbtree.Colors.{IsNode, is_red, paint, root_cell-red, load_root-Spec, paint-Spec}
use hystack.Rbtree.Balance.{mk-IsNode, with_red, addr-paint}
use hystack.Rbtree.Insert.{red_lem}
use hystack.Rbtree.Beside.{Anchored, Anchored-parent, beside, enter_beside, leave_beside_it}

module _ (s base : ℕ) (ns : Node) (js : List Part) (d : Side) (t : Tree) (a : ℕ)
    (anchored : Anchored ns a t) where
  pub sibling-Spec :
      (ka : ℕ) (ca : Bool) (w : Tree) (fs : List Frame)
      → let P =
          zip s base ns js t (record { side = d; at = a; key = ka; red = ca; sib = w } ∷ fs) in
        Spec s base (sibling s d (addr s t)) P (addr s w) P
  unfolding sibling
  sibling-Spec ka ca w fs = bind-Spec _ (load_root-Spec 0 a t refl 2 ns refl) (
      rw (Anchored-parent s ns a t anchored) (
        bind-Spec _ (load_head-Spec 1 (addr s t) _ fs refl)
          (rw (child_far d (addr s t) ka (up base fs) (addr s w) ca) pure-Spec)))

  module _ (ka : ℕ) (ca : Bool) (n2 : Tree) (b kb : ℕ) (n3 : Tree) (fs : List Frame) where
    -- The sibling is black.
    pub lift_black-Spec :
        Spec s base
          (lift_red s d (addr s t) b)
          (beside s base ns js d t a ka ca n2 b kb false n3 fs)
          b
          (beside s base ns js d t a ka ca n2 b kb false n3 fs)
    unfolding lift_red
    lift_black-Spec =
        weaken-Spec (λ h. enter_beside s base ns js h d t a ka ca n2 b kb false n3 fs)
          (bind-Spec _ (load-Spec 1 refl) (
            bind-Spec _ (load_root-Spec 2 a t refl 6 ns refl) (
              rw (red_lem d (addr s n2) kb a (addr s n3) false) (
                result-Spec pure-Spec
                  (λ h. leave_beside_it s base ns js h d t a ka ca n2 b kb false n3 fs)))))

    -- The sibling is red: it turns above the parent, and its near child is the next sibling.
    pub lift_red-Spec :
        Spec s base
          (lift_red s d (addr s t) b)
          (beside s base ns js d t a ka ca n2 b kb true n3 fs)
          (addr s n2)
          (zip s base ns js t (
            record { side = d; at = a; key = ka; red = true; sib = n2 }
            ∷ record { side = d; at = b; key = kb; red = false; sib = n3 }
            ∷ fs))
    unfolding lift_red
    lift_red-Spec =
        weaken-Spec (λ h. enter_beside s base ns js h d t a ka ca n2 b kb true n3 fs)
          (bind-Spec _ (load-Spec 1 refl) (
            bind-Spec _ (load_root-Spec 2 a t refl 6 ns refl) (
              rw (red_lem d (addr s n2) kb a (addr s n3) true, Anchored-parent s ns a t anchored)
                (bind-Spec _
                  (modify-Spec 1 refl _ (with_red false d (addr s n2) kb a (addr s n3) true))
                  (bind-Spec _
                    (modify-Spec 0 refl _ (with_red true d (addr s t) ka (up base fs) b ca))
                    (bind-Spec _
                      (result-Spec (rotate-Spec s base d a b ka kb true false t n2 n3 fs ns js)
                        (λ h H.
                          move_down s base ns js h d t a ka true n2
                            (record { side = d; at = b; key = kb; red = false; sib = n3 } ∷ fs)
                            (leave_below s base ns js h d a ka true b kb false t n2 n3 fs H)))
                      (sibling-Spec ka true n2
                        (record { side = d; at = b; key = kb; red = false; sib = n3 } ∷ fs))))))))

module _ {s base r : ℕ} {parts : List Part} (i j k q q' : ℕ) (t u : Tree) (ns : Node)
    (black : ns.red ≡ false) (here : get_elem? parts i ≡ some (tree q t))
    (there : get_elem? parts j ≡ some (tree q' u))
    (end : get_elem? parts k ≡ some (cell_at s ns)) where
  both_black-Spec :
      Spec s base
        (both_black s (addr s t) (addr s u))
        (r, parts)
        (not (is_red t) && not (is_red u))
        (r, parts)
  unfolding both_black
  both_black-Spec = bind-Spec _ (load_root-Spec i q t here k ns end) (
      rw (root_cell-red s ns q t black) (elim (Bool-cases (is_red t)) [
        | inl red ↦ rw red pure-Spec
        | inr t-black ↦ rw t-black (
            bind-Spec _ (load_root-Spec j q' u there k ns end)
              (rw (root_cell-red s ns q' u black) pure-Spec))
      ]))

and_comm : (x y : Bool) → (x && y) ≡ (y && x)
and_comm x y = ground arith

pub paint-mk :
    (d : Side) (t : Tree) (a k : ℕ) (c : Bool) (u : Tree)
    → paint false (mk d t a k c u) ≡ mk d t a k false u
paint-mk left t a k c u = refl
paint-mk right t a k c u = refl

-- The sibling and its near child, for a rotation to the other side and after it.
module _ (s base : ℕ) (ns : Node) (js : List Part) (h : Heap) where
  into_nephew :
      (d : Side) (t : Tree) (a ka : ℕ) (ca : Bool) (b kb : ℕ) (fs : List Frame) (m2 : Tree)
      (e ke : ℕ) (m3 n3 : Tree)
      → Holds s base h (before s base d a b ka kb ca true t (mk d m2 e ke false m3) n3 fs ns js)
      → Holds s base h (
          before s base
            (other d)
            b
            e
            kb
            ke
            true
            false
            n3
            m3
            m2
            (record { side = other d; at = a; key = ka; red = ca; sib = t } ∷ fs)
            ns
            js)
  into_nephew left t a ka ca b kb fs m2 e ke m3 n3 H =
      let (a-Is, (b-Is, (t-Is, ((e-Is, m2-Is, m3-Is), (n3-Is, (fs-Is, rest)))))) = H.owned in
      record {
        root_is = H.root_is;
        owned = (b-Is, (e-Is, (n3-Is, (m3-Is, (m2-Is, ((a-Is, t-Is, fs-Is), rest))))));
        apart = λ x. omega (arith, H.apart x);
      }
  into_nephew right t a ka ca b kb fs m2 e ke m3 n3 H =
      let (a-Is, (b-Is, (t-Is, ((e-Is, m3-Is, m2-Is), (n3-Is, (fs-Is, rest)))))) = H.owned in
      record {
        root_is = H.root_is;
        owned = (b-Is, (e-Is, (n3-Is, (m3-Is, (m2-Is, ((a-Is, t-Is, fs-Is), rest))))));
        apart = λ x. omega (arith, H.apart x);
      }

  out_of_nephew :
      (d : Side) (t : Tree) (a ka : ℕ) (ca : Bool) (b kb : ℕ) (fs : List Frame) (m2 : Tree)
      (e ke : ℕ) (m3 n3 : Tree)
      → Holds s base h (
          after s base
            (other d)
            b
            e
            kb
            ke
            true
            false
            n3
            m3
            m2
            (record { side = other d; at = a; key = ka; red = ca; sib = t } ∷ fs)
            ns
            js)
      → Holds s base h (beside s base ns js d t a ka ca m2 e ke false (mk d m3 b kb true n3) fs)
  out_of_nephew left t a ka ca b kb fs m2 e ke m3 n3 H =
      let (b-Is, (e-Is, (n3-Is, (m3-Is, (m2-Is, ((a-Is, t-Is, fs-Is), rest)))))) = H.owned in
      record {
        root_is = H.root_is;
        owned = (t-Is, ((a-Is, (e-Is, m2-Is, (b-Is, m3-Is, n3-Is)), fs-Is), rest));
        apart = λ x. omega (arith, H.apart x);
      }
  out_of_nephew right t a ka ca b kb fs m2 e ke m3 n3 H =
      let (b-Is, (e-Is, (n3-Is, (m3-Is, (m2-Is, ((a-Is, t-Is, fs-Is), rest)))))) = H.owned in
      record {
        root_is = H.root_is;
        owned = (t-Is, ((a-Is, (e-Is, (b-Is, n3-Is, m3-Is), m2-Is), fs-Is), rest));
        apart = λ x. omega (arith, H.apart x);
      }

module _ (s base : ℕ) (ns : Node) (js : List Part) (black : ns.red ≡ false) where
  module _ (t : Tree) (a ka : ℕ) (ca : Bool) (n2 : Tree) (b kb : ℕ) (cb : Bool) (n3 : Tree)
      (fs : List Frame) where
    -- The test whether the children of the sibling are black.
    pub nephews-Spec :
        (d : Side)
        → let m = side_cell d (addr s n2) kb a cb (addr s n3) in
          let P = beside s base ns js d t a ka ca n2 b kb cb n3 fs in
          Spec s base (both_black s m.left m.right) P (not (is_red n2) && not (is_red n3)) P
    nephews-Spec left =
        weaken-Spec (λ h. enter_beside s base ns js h left t a ka ca n2 b kb cb n3 fs)
          (result-Spec (both_black-Spec 3 4 6 b b n2 n3 ns black refl refl refl)
            (λ h. leave_beside_it s base ns js h left t a ka ca n2 b kb cb n3 fs))
    nephews-Spec right =
        weaken-Spec (λ h. enter_beside s base ns js h right t a ka ca n2 b kb cb n3 fs)
          (rw (and_comm (not (is_red n2)) (not (is_red n3))) (
            result-Spec (both_black-Spec 4 3 6 b b n3 n2 ns black refl refl refl)
              (λ h. leave_beside_it s base ns js h right t a ka ca n2 b kb cb n3 fs)))

  module _ (d : Side) (t : Tree) (a ka : ℕ) (ca : Bool) (b kb : ℕ) (fs : List Frame)
      (anchored : Anchored ns a t) where
    -- The far child is red already.
    pub turn_red-Spec :
        (n2 n3 : Tree)
        → is_red n3 ≡ true
        → Spec s base
            (turn_out s d (addr s t) b)
            (beside s base ns js d t a ka ca n2 b kb false n3 fs)
            b
            (beside s base ns js d t a ka ca n2 b kb false n3 fs)
    unfolding turn_out
    turn_red-Spec n2 n3 red =
        weaken-Spec (λ h. enter_beside s base ns js h d t a ka ca n2 b kb false n3 fs)
          (bind-Spec _ (load-Spec 1 refl) (
            rw (child_far d (addr s n2) kb a (addr s n3) false) (
              bind-Spec _ (load_root-Spec 4 b n3 refl 6 ns refl) (
                rw (root_cell-red s ns b n3 black, red)
                  (result-Spec pure-Spec
                    (λ h. leave_beside_it s base ns js h d t a ka ca n2 b kb false n3 fs))))))

    -- The near child is red: it turns above the sibling.
    pub turn_black-Spec :
        (m2 : Tree) (e ke : ℕ) (ce : Bool) (m3 n3 : Tree)
        → is_red n3 ≡ false
        → Spec s base
            (turn_out s d (addr s t) b)
            (beside s base ns js d t a ka ca (mk d m2 e ke ce m3) b kb false n3 fs)
            e
            (beside s base ns js d t a ka ca m2 e ke false (mk d m3 b kb true n3) fs)
    unfolding turn_out
    turn_black-Spec m2 e ke ce m3 n3 n3-black =
        let near = mk d m2 e ke ce m3 in
        weaken-Spec (λ h. enter_beside s base ns js h d t a ka ca near b kb false n3 fs)
          (bind-Spec _ (load-Spec 1 refl) (
            rw (child_far d (addr s near) kb a (addr s n3) false) (
              bind-Spec _ (load_root-Spec 4 b n3 refl 6 ns refl) (
                rw
                  (
                    root_cell-red s ns b n3 black,
                    n3-black,
                    child_near d (addr s near) kb a (addr s n3) false,
                  )
                  (bind-Spec _ (paint-Spec 3 b near false (mk-IsNode d m2 e ke ce m3) refl) (
                    bind-Spec _
                      (modify-Spec 1 refl _ (with_red true d (addr s near) kb a (addr s n3) false))
                      (bind-Spec _
                        (weaken-Spec
                          (λ h H. into_nephew s base ns js h d t a ka ca b kb fs m2 e ke m3 n3 (
                            subst
                              (λ (u : Tree).
                                Holds s base h (before s base d a b ka kb ca true t u n3 fs ns js))
                              (paint-mk d m2 e ke ce m3) (rw (addr-paint s false near) H)))
                          (result-Spec
                            (rotate-Spec s base (other d) b e kb ke true false n3 m3 m2
                              (record { side = other d; at = a; key = ka; red = ca; sib = t } ∷ fs)
                              ns js)
                            (λ h. out_of_nephew s base ns js h d t a ka ca b kb fs m2 e ke m3 n3)))
                        (subst
                          (λ (p : ℕ).
                            let P =
                              beside s base ns js d t a ka ca m2 e ke false (mk d m3 b kb true n3)
                                fs in
                            Spec s base (sibling s d (addr s t)) P p P)
                          (addr-mk s d m2 e ke false (mk d m3 b kb true n3))
                          (sibling-Spec s base ns js d t a anchored ka ca
                            (mk d m2 e ke false (mk d m3 b kb true n3)) fs)))))))))

    pub close_up-Spec :
        (n2 : Tree) (cb : Bool) (n3 : Tree)
        → IsNode n3
        → Spec s base
            (close_up s d (addr s t) b)
            (beside s base ns js d t a ka ca n2 b kb cb n3 fs)
            tt
            (zip s base ns js
              (mk d t a ka false n2)
              (record { side = d; at = b; key = kb; red = ca; sib = paint false n3 } ∷ fs))
    unfolding close_up
    close_up-Spec n2 cb n3 is =
        weaken-Spec (λ h. enter_beside s base ns js h d t a ka ca n2 b kb cb n3 fs)
          (bind-Spec _ (load_root-Spec 2 a t refl 6 ns refl) (
            rw (Anchored-parent s ns a t anchored) (
              bind-Spec _ (load-Spec 0 refl) (
                rw (red_lem d (addr s t) ka (up base fs) b ca) (
                  bind-Spec _ (modify-Spec 1 refl _ (with_red ca d (addr s n2) kb a (addr s n3) cb))
                    (bind-Spec _
                      (modify-Spec 0 refl _ (with_red false d (addr s t) ka (up base fs) b ca))
                      (bind-Spec _ (load-Spec 1 refl) (
                        rw (child_far d (addr s n2) kb a (addr s n3) ca) (
                          bind-Spec _ (paint-Spec 4 b n3 false is refl) (
                            result-Spec
                              (rw (addr-paint s false n3) at (
                                rotate-Spec s base d a b ka kb false ca t n2 (paint false n3) fs ns
                                  js))
                              (λ h H.
                                leave_below s base ns js h d a ka false b kb ca t n2
                                  (paint false n3) fs (rw (addr-paint s false n3) H))))))))))))
