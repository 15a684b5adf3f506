-- ===== src/Rbtree/Settle.antt =====
-- src/kits/event/event_rbtree.cpp: what is done with a black sibling in the loop of rbtree_delete.
use hystack.Prelude.{ℕ, Bool, true, false, not, ◌&&◌, List, [], ◌∷◌, ◌≡◌, refl}
use hystack.Rbtree.{Node, Side, left, right, ◌>>◌, load, get_root}
use hystack.Rbtree.Delete.{close_up, settle}
use hystack.Rbtree.Shape.{Tree, Frame, mk, plug, addr, side_cell}
use hystack.Rbtree.Owns.{Part, Spec}
use hystack.Rbtree.Rules.{
  bind-Spec, weaken-Spec, result-Spec, pure-Spec, get_root-Spec, load-Spec, modify-Spec,
}
use hystack.Rbtree.Zipper.{zip, move_up, move_top}
use hystack.Rbtree.Colors.{IsNode, is_red, paint, load_root-Spec}
use hystack.Rbtree.Balance.{mk-IsNode, red-IsNode, with_red}
use hystack.Rbtree.Beside.{Anchored, Anchored-parent, beside, enter_beside, leave_beside_it}
use hystack.Rbtree.Steps.{nephews-Spec, turn_red-Spec, turn_black-Spec, close_up-Spec}

and_not-red : (b : Bool) → (not b && not true) ≡ false
and_not-red true = refl
and_not-red false = refl

pub is_red-mk : (d : Side) (t : Tree) (a k : ℕ) (c : Bool) (u : Tree) → is_red (mk d t a k c u) ≡ c
is_red-mk left t a k c u = refl
is_red-mk right t a k c u = refl

load_sibling-Spec :
    (s base : ℕ) (ns : Node) (js : List Part) (d : Side) (t : Tree) (a ka : ℕ) (ca : Bool)
    (n2 : Tree) (b kb : ℕ) (cb : Bool) (n3 : Tree) (fs : List Frame)
    → let P = beside s base ns js d t a ka ca n2 b kb cb n3 fs in
      Spec s base (load b) P (side_cell d (addr s n2) kb a cb (addr s n3)) P
load_sibling-Spec s base ns js d t a ka ca n2 b kb cb n3 fs =
    weaken-Spec (λ h. enter_beside s base ns js h d t a ka ca n2 b kb cb n3 fs)
      (result-Spec (load-Spec 1 refl)
        (λ h. leave_beside_it s base ns js h d t a ka ca n2 b kb cb n3 fs))

module _ (s base : ℕ) (ns : Node) (js : List Part) (black : ns.red ≡ false) (d : Side) (t : Tree)
    (a ka : ℕ) (ca : Bool) (anchored : Anchored ns a t) where
  -- Both children of the sibling are black.
  pub settle_up-Spec :
      (n2 : Tree) (b kb : ℕ) (n3 : Tree) (fs : List Frame)
      → is_red n2 ≡ false
      → is_red n3 ≡ false
      → Spec s base
          (settle s d (addr s t) b)
          (beside s base ns js d t a ka ca n2 b kb false n3 fs)
          a
          (zip s base ns js (mk d t a ka ca (mk d n2 b kb true n3)) fs)
  unfolding settle
  settle_up-Spec n2 b kb n3 fs e2 e3 =
      bind-Spec _ (load_sibling-Spec s base ns js d t a ka ca n2 b kb false n3 fs) (
        bind-Spec _ (nephews-Spec s base ns js black t a ka ca n2 b kb false n3 fs d) (
          rw (e2, e3)
            (weaken-Spec (λ h. enter_beside s base ns js h d t a ka ca n2 b kb false n3 fs)
              (bind-Spec _
                (modify-Spec 1 refl _ (with_red true d (addr s n2) kb a (addr s n3) false))
                (bind-Spec _ (load_root-Spec 2 a t refl 6 ns refl) (
                  rw (Anchored-parent s ns a t anchored) (
                    result-Spec pure-Spec (λ h H.
                      move_up s base ns js h t
                        (record {
                          side = d;
                          at = a;
                          key = ka;
                          red = ca;
                          sib = mk d n2 b kb true n3;
                        })
                        fs (leave_beside_it s base ns js h d t a ka ca n2 b kb true n3 fs H)))))))))

  -- What `close_up` and the step to the root leave.
  close_all-Spec :
      (n2 : Tree) (b kb : ℕ) (cb : Bool) (n3 : Tree) (fs : List Frame)
      → IsNode n3
      → let f : Frame = record { side = d; at = b; key = kb; red = ca; sib = paint false n3 } in
        let whole = plug (mk d t a ka false n2) (f ∷ fs) in
        Spec s base
          (close_up s d (addr s t) b >> get_root)
          (beside s base ns js d t a ka ca n2 b kb cb n3 fs)
          (addr s whole)
          (zip s base ns js whole [])
  close_all-Spec n2 b kb cb n3 fs is =
      let f : Frame = record { side = d; at = b; key = kb; red = ca; sib = paint false n3 } in
      bind-Spec _
        (result-Spec (close_up-Spec s base ns js black d t a ka ca b kb fs anchored n2 cb n3 is)
          (λ h. move_top s base ns js h (mk d t a ka false n2) (f ∷ fs)))
        get_root-Spec

  -- The far child of the sibling is red.
  pub settle_far-Spec :
      (n2 : Tree) (b kb : ℕ) (n3 : Tree) (fs : List Frame)
      → is_red n3 ≡ true
      → let f : Frame = record { side = d; at = b; key = kb; red = ca; sib = paint false n3 } in
        let whole = plug (mk d t a ka false n2) (f ∷ fs) in
        Spec s base
          (settle s d (addr s t) b)
          (beside s base ns js d t a ka ca n2 b kb false n3 fs)
          (addr s whole)
          (zip s base ns js whole [])
  unfolding settle
  settle_far-Spec n2 b kb n3 fs red =
      bind-Spec _ (load_sibling-Spec s base ns js d t a ka ca n2 b kb false n3 fs) (
        bind-Spec _ (nephews-Spec s base ns js black t a ka ca n2 b kb false n3 fs d) (
          rw (red, and_not-red (is_red n2))
            (bind-Spec _ (turn_red-Spec s base ns js black d t a ka ca b kb fs anchored n2 n3 red)
              (close_all-Spec n2 b kb false n3 fs (red-IsNode n3 red)))))

  -- Only the near child of the sibling is red.
  pub settle_near-Spec :
      (m2 : Tree) (e ke : ℕ) (m3 : Tree) (b kb : ℕ) (n3 : Tree) (fs : List Frame)
      → is_red n3 ≡ false
      → let n3' = mk d m3 b kb true n3 in
        let f : Frame = record { side = d; at = e; key = ke; red = ca; sib = paint false n3' } in
        let whole = plug (mk d t a ka false m2) (f ∷ fs) in
        Spec s base
          (settle s d (addr s t) b)
          (beside s base ns js d t a ka ca (mk d m2 e ke true m3) b kb false n3 fs)
          (addr s whole)
          (zip s base ns js whole [])
  unfolding settle
  settle_near-Spec m2 e ke m3 b kb n3 fs n3-black =
      let n2 = mk d m2 e ke true m3 in
      bind-Spec _ (load_sibling-Spec s base ns js d t a ka ca n2 b kb false n3 fs) (
        bind-Spec _ (nephews-Spec s base ns js black t a ka ca n2 b kb false n3 fs d) (
          rw (is_red-mk d m2 e ke true m3) (
            bind-Spec _
              (turn_black-Spec s base ns js black d t a ka ca b kb fs anchored m2 e ke true m3 n3
                n3-black)
              (close_all-Spec m2 e ke false (mk d m3 b kb true n3) fs
                (mk-IsNode d m3 b kb true n3)))))
