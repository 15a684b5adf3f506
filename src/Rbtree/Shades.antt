-- ===== src/Rbtree/Shades.antt =====
-- src/kits/event/event_rbtree.cpp: the colors of a tree after an insertion.
use hystack.Prelude.{
  ℕ, ◌+◌, Bool, true, false, ◌&&◌, List, [], ◌∷◌, ◌≡◌, refl, ap, sym, ◌∙◌, arith, ltb, inl, inr,
  Bool-cases,
}
use mathlib.Core.Path.{subst}
use hystack.Rbtree.{Side, left, right}
use hystack.Rbtree.Shape.{Tree, leaf, node, Frame, mk, plug}
use hystack.Rbtree.Colors.{
  is_red, paint, straight, recolored, raised, balanced, balanced-black, balanced-recolored,
  balanced-turned,
}
use hystack.Rbtree.Insert.{BlackTop, BlackTop-tail}
use hystack.Rbtree.Grow.{descent-top}
use hystack.Rbtree.Descent.{descent, inserted}

abbrev pub shade : Bool → ℕ
shade true = 0
shade false = 1

-- The number of black nodes on the leftmost way down.
abbrev pub black_height : Tree → ℕ
black_height leaf = 0
black_height (node l a k c r) = black_height l + shade c

-- On each way down from each node are as many black nodes, and no red node has a red child.
abbrev pub IsFair : Tree → Type 0
IsFair leaf = Unit
IsFair (node l a k c r) =
    (black_height l ≡ black_height r)
    × ((c && is_red l) ≡ false)
    × ((c && is_red r) ≡ false)
    × IsFair l
    × IsFair r

abbrev pub up_red : List Frame → Bool
up_red [] = false
up_red (f ∷ fs) = f.red

-- A path that suits a tree of the black height `n`.
abbrev pub Suits : ℕ → List Frame → Type 0
Suits n [] = Unit
Suits n (f ∷ fs) =
    (black_height f.sib ≡ n)
    × ((f.red && is_red f.sib) ≡ false)
    × ((f.red && up_red fs) ≡ false)
    × IsFair f.sib
    × Suits (n + shade f.red) fs

pub IsFair-mk :
    (side : Side) (t : Tree) (a k : ℕ) (c : Bool) (u : Tree)
    → IsFair t
    → IsFair u
    → black_height t ≡ black_height u
    → (c && is_red t) ≡ false
    → (c && is_red u) ≡ false
    → IsFair (mk side t a k c u)
      × (black_height (mk side t a k c u) ≡ black_height t + shade c)
      × (is_red (mk side t a k c u) ≡ c)
IsFair-mk left t a k c u fair-t fair-u same t-ok u-ok =
    ((same, t-ok, u-ok, fair-t, fair-u), refl, refl)
IsFair-mk right t a k c u fair-t fair-u same t-ok u-ok =
    ((sym same, u-ok, t-ok, fair-u, fair-t), omega arith, refl)

pub plug-IsFair :
    (t : Tree) (fs : List Frame)
    → IsFair t
    → (up_red fs && is_red t) ≡ false
    → Suits (black_height t) fs
    → IsFair (plug t fs)
plug-IsFair t [] fair ok suits = fair
plug-IsFair t (f ∷ fs) fair ok (same, sib-ok, up-ok, fair-sib, suits) =
    let (fair-mk, height-mk, red-mk) =
      IsFair-mk f.side t f.at f.key f.red f.sib fair fair-sib (sym same) ok sib-ok in
    plug-IsFair (mk f.side t f.at f.key f.red f.sib) fs fair-mk (ground arith) (rw height-mk suits)

pub paint-IsFair : (t : Tree) → IsFair t → IsFair (paint false t)
paint-IsFair leaf fair = fair
paint-IsFair (node l a k c r) (same, l-ok, r-ok, fair-l, fair-r) =
    (same, refl, refl, fair-l, fair-r)

pub paint-height : (t : Tree) → is_red t ≡ true → black_height (paint false t) ≡ black_height t + 1
paint-height leaf e = cc
paint-height (node l a k c r) e = ground arith

pub not-red-paint : (t : Tree) → is_red (paint false t) ≡ false
not-red-paint leaf = refl
not-red-paint (node l a k c r) = refl

recolored-IsFair :
    (t : Tree) (p g : Frame)
    → IsFair t
    → p.red ≡ true
    → is_red g.sib ≡ true
    → IsFair p.sib
    → IsFair g.sib
    → black_height p.sib ≡ black_height t
    → black_height g.sib ≡ black_height t
    → IsFair (recolored t p g)
      × (black_height (recolored t p g) ≡ black_height t + 1)
      × (is_red (recolored t p g) ≡ true)
recolored-IsFair t p g fair p-red red fair-p fair-g same-p same-g =
    let (fair-mk, height-mk, red-mk) =
      IsFair-mk p.side t p.at p.key false p.sib fair fair-p (sym same-p) refl refl in
    let (fair-mk', height-mk', red-mk') =
      IsFair-mk g.side (mk p.side t p.at p.key false p.sib) g.at g.key true (paint false g.sib)
        fair-mk (paint-IsFair g.sib fair-g)
        (omega (arith, height-mk, paint-height g.sib red, same-g)) red-mk (not-red-paint g.sib) in
    (fair-mk', omega (arith, height-mk', height-mk), red-mk')

raised-IsFair :
    (d own : Side) (t : Tree) (pa pk : ℕ) (pc : Bool) (psib : Tree) (ga gk : ℕ) (gc : Bool)
    (gsib : Tree)
    → pc ≡ true
    → is_red t ≡ true
    → IsFair t
    → IsFair psib
    → IsFair gsib
    → is_red psib ≡ false
    → is_red gsib ≡ false
    → black_height psib ≡ black_height t
    → black_height gsib ≡ black_height t
    → let p : Frame = record { side = own; at = pa; key = pk; red = pc; sib = psib } in
      let g : Frame = record { side = d; at = ga; key = gk; red = gc; sib = gsib } in
      let turned = straight d own t p in
      let f = raised d turned g in
      IsFair turned.0
      × IsFair f.sib
      × (black_height f.sib ≡ black_height turned.0)
      × (black_height turned.0 ≡ black_height t)
raised-IsFair d own leaf pa pk pc psib ga gk gc gsib p-red red ft fp fg rp rg hp hg = cc
raised-IsFair left left (node l a k c r) pa pk pc psib ga gk gc gsib p-red red ft fp fg rp rg hp
      hg =
    ground arith
raised-IsFair left right (node l a k c r) pa pk pc psib ga gk gc gsib p-red red ft fp fg rp rg hp
      hg =
    ground arith
raised-IsFair right left (node l a k c r) pa pk pc psib ga gk gc gsib p-red red ft fp fg rp rg hp
      hg =
    ground arith
raised-IsFair right right (node l a k c r) pa pk pc psib ga gk gc gsib p-red red ft fp fg rp rg hp
      hg =
    ground arith

balanced-IsFair :
    (t : Tree) (fs : List Frame)
    → is_red t ≡ true
    → IsFair t
    → Suits (black_height t) fs
    → BlackTop fs
    → IsFair (balanced t fs)
balanced-IsFair t [] red fair suits top = fair
balanced-IsFair t (p ∷ []) red fair suits top = plug-IsFair t (p ∷ []) fair (ground arith) suits
balanced-IsFair t (p ∷ g ∷ fs) red fair suits top = elim (Bool-cases p.red) [
  | inr p-black ↦
      subst IsFair (sym (balanced-black t p g fs p-black))
        (plug-IsFair t (p ∷ g ∷ fs) fair (ground arith) suits)
  | inl p-red ↦
      let (same, sib-ok, up-ok, fair-sib, (same', sib-ok', up-ok', fair-sib', suits')) = suits in
      let g-black : g.red ≡ false = ground arith in
      let level : black_height t + shade p.red + shade g.red ≡ black_height t + 1 = ground arith in
      let same-g : black_height g.sib ≡ black_height t = ground arith in
      elim (Bool-cases (is_red g.sib)) [
        | inl uncle-red ↦
            let (fair-r, height-r, red-r) =
              recolored-IsFair t p g fair p-red uncle-red fair-sib fair-sib' same same-g in
            subst IsFair (sym (balanced-recolored t p g fs p-red uncle-red)) (
              balanced-IsFair (recolored t p g) fs red-r fair-r
                (subst (λ (n : ℕ). Suits n fs) (level ∙ sym height-r) suits')
                (BlackTop-tail g fs top))
        | inr uncle-black ↦
            let (fair-t, fair-f, height-f, height-t) =
              raised-IsFair g.side p.side t p.at p.key p.red p.sib g.at g.key g.red g.sib p-red red
                fair fair-sib fair-sib' (ground arith) uncle-black same same-g in
            let turned = straight g.side p.side t p in
            subst IsFair (sym (balanced-turned t p g fs p-red uncle-black)) (
              plug-IsFair turned.0 (raised g.side turned g ∷ fs) fair-t refl (
                height-f,
                refl,
                refl,
                fair-f,
                subst (λ (n : ℕ). Suits n fs) (level ∙ ap (λ (n : ℕ). n + 1) (sym height-t)) suits',
              ))
      ]
]

descent-Suits :
    (key : ℕ) (t : Tree) (fs : List Frame)
    → IsFair t
    → (up_red fs && is_red t) ≡ false
    → Suits (black_height t) fs
    → Suits 0 (descent key t fs)
descent-Suits key leaf fs fair ok suits = suits
descent-Suits key (node l a k c r) fs (same, l-ok, r-ok, fair-l, fair-r) ok suits =
    elim (Bool-cases (ltb key k)) [
      | inl less ↦ rw less (
          descent-Suits key l (record { side = left; at = a; key = k; red = c; sib = r } ∷ fs)
            fair-l l-ok (sym same, r-ok, ground arith, fair-r, suits))
      | inr more ↦ rw more (
          descent-Suits key r (record { side = right; at = a; key = k; red = c; sib = l } ∷ fs)
            fair-r r-ok
            (
              same,
              l-ok,
              ground arith,
              fair-l,
              subst (λ (n : ℕ). Suits (n + shade c) fs) same suits,
            ))
    ]

-- An insertion keeps the rules of the colors: the root is black, no red node has a red child, and
-- all ways down from a node have as many black nodes.
pub inserted-IsFair :
    (a key : ℕ) (t : Tree)
    → is_red t ≡ false
    → IsFair t
    → IsFair (inserted a key t) × (is_red (inserted a key t) ≡ false)
inserted-IsFair a key t black fair = (
  paint-IsFair (balanced (node leaf a key true leaf) (descent key t [])) (
      balanced-IsFair (node leaf a key true leaf) (descent key t []) refl (refl, refl, refl, tt, tt)
        (descent-Suits key t [] fair refl tt) (descent-top key t black)),
  not-red-paint (balanced (node leaf a key true leaf) (descent key t [])),
)
