-- ===== src/Rbtree/Place.antt =====
-- src/kits/event/event_rbtree.cpp: a node of a tree and the path to it.
use hystack.Prelude.{
  ℕ, ◌+◌, ◌<◌, Bool, false, ◌&&◌, List, [], ◌∷◌, ◌++◌, ◌≡◌, refl, ap, ◌∙◌, arith, sym, append_assoc,
  append-nil,
}
use mathlib.Core.Path.{subst}
use native.Mathlib.Decide.{dec_lt}
use hystack.Rbtree.{Side, left, right}
use hystack.Rbtree.Shape.{Tree, leaf, node, Frame, mk, plug, in_order, hit, count}
use hystack.Rbtree.Colors.{is_red}
use hystack.Rbtree.Insert.{BlackTop}
use hystack.Rbtree.Shades.{IsFair, shade, black_height, up_red, Suits}
use hystack.Rbtree.Settle.{is_red-mk}

pub plug-append : (t : Tree) (fs gs : List Frame) → plug t (fs ++ gs) ≡ plug (plug t fs) gs
plug-append t [] gs = refl
plug-append t (f ∷ fs) gs = plug-append (mk f.side t f.at f.key f.red f.sib) fs gs

IsFair-parts :
    (d : Side) (t : Tree) (a k : ℕ) (c : Bool) (u : Tree)
    → IsFair (mk d t a k c u)
    → IsFair t
      × IsFair u
      × (black_height u ≡ black_height t)
      × ((c && is_red t) ≡ false)
      × ((c && is_red u) ≡ false)
      × (black_height (mk d t a k c u) ≡ black_height t + shade c)
IsFair-parts left t a k c u (same, l-ok, r-ok, fair-l, fair-r) =
    (fair-l, fair-r, sym same, l-ok, r-ok, refl)
IsFair-parts right t a k c u (same, l-ok, r-ok, fair-l, fair-r) =
    (fair-r, fair-l, same, r-ok, l-ok, omega arith)

-- The parts of a fair tree.
pub unplug-IsFair :
    (t : Tree) (fs : List Frame)
    → IsFair (plug t fs)
    → IsFair t × ((up_red fs && is_red t) ≡ false) × Suits (black_height t) fs
unplug-IsFair t [] fair = (fair, refl, tt)
unplug-IsFair t (f ∷ fs) fair =
    let (fair-mk, ok, suits) = unplug-IsFair (mk f.side t f.at f.key f.red f.sib) fs fair in
    let (fair-t, fair-sib, same, t-ok, sib-ok, height) =
      IsFair-parts f.side t f.at f.key f.red f.sib fair-mk in
    (
      fair-t,
      t-ok,
      (
        same,
        sib-ok,
        red_up f.red (up_red fs) (is_red-mk f.side t f.at f.key f.red f.sib) ok,
        fair-sib,
        subst (λ (n : ℕ). Suits n fs) height suits,
      ),
    )
  where
    red_up : {r : Bool} (c p : Bool) → r ≡ c → (p && r) ≡ false → (c && p) ≡ false
    red_up c p e ok = ground arith

pub unplug-BlackTop : (t : Tree) (fs : List Frame) → is_red (plug t fs) ≡ false → BlackTop fs
unplug-BlackTop t [] black = tt
unplug-BlackTop t (f ∷ []) black = sym (is_red-mk f.side t f.at f.key f.red f.sib) ∙ black
unplug-BlackTop t (f ∷ g ∷ fs) black =
    unplug-BlackTop (mk f.side t f.at f.key f.red f.sib) (g ∷ fs) black

-- Another address and key on the path.
module _ (a k b kb : ℕ) (c : Bool) (l : Tree) (side : Side) (fs : List Frame) where
  abbrev pub old_frame : Frame
  old_frame = record { side = side; at = a; key = k; red = c; sib = l }

  abbrev pub new_frame : Frame
  new_frame = record { side = side; at = b; key = kb; red = c; sib = l }

  pub rename-up : (ws : List Frame) → up_red (ws ++ new_frame ∷ fs) ≡ up_red (ws ++ old_frame ∷ fs)
  rename-up [] = refl
  rename-up (w ∷ ws) = refl

  pub rename-Suits :
      (n : ℕ) (ws : List Frame) → Suits n (ws ++ old_frame ∷ fs) → Suits n (ws ++ new_frame ∷ fs)
  rename-Suits n [] suits = suits
  rename-Suits n (w ∷ ws) (same, sib-ok, up-ok, fair-sib, suits) = (
    same,
    sib-ok,
    subst (λ (r : Bool). (w.red && r) ≡ false) (sym (rename-up ws)) up-ok,
    fair-sib,
    rename-Suits (n + shade w.red) ws suits,
  )

  pub rename-BlackTop :
      (ws : List Frame) → BlackTop (ws ++ old_frame ∷ fs) → BlackTop (ws ++ new_frame ∷ fs)
  rename-BlackTop [] top = by_rest fs top
    where
      by_rest : (fs : List Frame) → BlackTop (old_frame ∷ fs) → BlackTop (new_frame ∷ fs)
      by_rest [] top = top
      by_rest (f ∷ fs) top = top
  rename-BlackTop (w ∷ []) top = rename-BlackTop [] top
  rename-BlackTop (w ∷ v ∷ ws) top = rename-BlackTop (v ∷ ws) top

-- What is in order before a place and behind it, whatever stands there.
pub record Around (fs : List Frame) : Type 0 where
  pub ahead : List (ℕ × ℕ)
  pub after : List (ℕ × ℕ)
  pub order : (t : Tree) → in_order (plug t fs) ≡ ahead ++ in_order t ++ after

around_frame :
    (d : Side) (a k : ℕ) (c : Bool) (u : Tree) (fs : List Frame)
    → Around fs
    → Around (record { side = d; at = a; key = k; red = c; sib = u } ∷ fs)
around_frame left a k c u fs rest = record {
  ahead = rest.ahead;
  after = (a, k) ∷ in_order u ++ rest.after;
  order = λ t. rest.order (node t a k c u) ∙ simp append_assoc;
}
around_frame right a k c u fs rest = record {
  ahead = rest.ahead ++ in_order u ++ (a, k) ∷ [];
  after = rest.after;
  order = λ t. rest.order (node u a k c t) ∙ simp append_assoc;
}

pub surroundings : (fs : List Frame) → Around fs
surroundings [] = record { ahead = []; after = []; order = λ t. sym (append-nil (in_order t)) }
surroundings (f ∷ fs) = around_frame f.side f.at f.key f.red f.sib fs (surroundings fs)

-- A node of a tree, at a place.
pub record Placed (a : ℕ) (t : Tree) : Type 0 where
  pub l : Tree
  pub k : ℕ
  pub c : Bool
  pub r : Tree
  pub fs : List Frame
  pub same : plug (node l a k c r) fs ≡ t

pub locate : (a : ℕ) (t : Tree) (fs : List Frame) → 0 < count a t → Placed a (plug t fs)
locate a leaf fs some_there = absurd (omega arith)
locate a (node l b k c r) fs some_there = elim (dec_lt 0 (hit a b)) [
  | yes here ↦ record {
    l = l;
    k = k;
    c = c;
    r = r;
    fs = fs;
    same = ap (λ (x : ℕ). plug (node l x k c r) fs) (ground arith);
  }
  | no elsewhere ↦ elim (dec_lt 0 (count a l)) [
    | yes on_left ↦
        locate a l (record { side = left; at = b; key = k; red = c; sib = r } ∷ fs) on_left
    | no not_left ↦
        locate a r (record { side = right; at = b; key = k; red = c; sib = l } ∷ fs) (omega arith)
  ]
]
