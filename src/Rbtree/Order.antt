-- ===== src/Rbtree/Order.antt =====
-- src/kits/event/event_rbtree.cpp: what the balancing and an insertion do to the nodes in order.
use hystack.Prelude.{
  ℕ, ◌≤◌, ◌<◌, Bool, true, false, List, [], ◌∷◌, ◌++◌, if◌then◌else◌, ◌≡◌, refl, ap, ◌∙◌, arith,
  ltb, All, inl, inr, Bool-cases, append_assoc,
}
use hystack.Rbtree.{Side, left, right}
use hystack.Rbtree.Shape.{Tree, leaf, node, Frame, mk, plug, in_order}
use hystack.Rbtree.Colors.{
  is_red, paint, straight, recolored, raised, balanced, IsNode, balanced-black, balanced-recolored,
  balanced-turned,
}
use hystack.Rbtree.Balance.{mk-IsNode}
use hystack.Rbtree.Descent.{descent, inserted}

-- The nodes before and after the end of a path.
abbrev pub sides_of : Side → List (ℕ × ℕ) → ℕ → ℕ → List (ℕ × ℕ) → List (ℕ × ℕ)
sides_of left xs a k ys = xs ++ (a, k) ∷ ys
sides_of right xs a k ys = ys ++ (a, k) ∷ xs

pub in_order-mk :
    (side : Side) (t : Tree) (a k : ℕ) (c : Bool) (u : Tree)
    → in_order (mk side t a k c u) ≡ sides_of side (in_order t) a k (in_order u)
in_order-mk left t a k c u = refl
in_order-mk right t a k c u = refl

pub in_order-paint : (c : Bool) (t : Tree) → in_order (paint c t) ≡ in_order t
in_order-paint c leaf = refl
in_order-paint c (node l a k old r) = refl

pub in_order-plug :
    (t u : Tree) (fs : List Frame)
    → in_order t ≡ in_order u
    → in_order (plug t fs) ≡ in_order (plug u fs)
in_order-plug t u [] e = e
in_order-plug t u (f ∷ fs) e =
    in_order-plug (mk f.side t f.at f.key f.red f.sib) (mk f.side u f.at f.key f.red f.sib) fs (
      rw (
        in_order-mk f.side t f.at f.key f.red f.sib,
        in_order-mk f.side u f.at f.key f.red f.sib,
        e,
      ))

in_order-recolored :
    (t : Tree) (p g : Frame)
    → in_order (recolored t p g)
      ≡ in_order (mk g.side (mk p.side t p.at p.key p.red p.sib) g.at g.key g.red g.sib)
in_order-recolored t p g = rw (
  in_order-mk g.side (mk p.side t p.at p.key false p.sib) g.at g.key true (paint false g.sib),
  in_order-mk g.side (mk p.side t p.at p.key p.red p.sib) g.at g.key g.red g.sib,
  in_order-mk p.side t p.at p.key false p.sib,
  in_order-mk p.side t p.at p.key p.red p.sib,
  in_order-paint false g.sib,
)

-- The rotations keep the order.
in_order-raised :
    (d own : Side) (t : Tree) (pa pk : ℕ) (pc : Bool) (psib : Tree) (ga gk : ℕ) (gc : Bool)
    (gsib : Tree)
    → IsNode t
    → let p : Frame = record { side = own; at = pa; key = pk; red = pc; sib = psib } in
      let g : Frame = record { side = d; at = ga; key = gk; red = gc; sib = gsib } in
      let turned = straight d own t p in
      let f = raised d turned g in
      in_order (mk d turned.0 f.at f.key f.red f.sib)
      ≡ in_order (mk d (mk own t pa pk pc psib) ga gk gc gsib)
in_order-raised d own leaf pa pk pc psib ga gk gc gsib is = absurd is
in_order-raised left left (node l a k c r) pa pk pc psib ga gk gc gsib is = simp append_assoc
in_order-raised left right (node l a k c r) pa pk pc psib ga gk gc gsib is = simp append_assoc
in_order-raised right left (node l a k c r) pa pk pc psib ga gk gc gsib is = simp append_assoc
in_order-raised right right (node l a k c r) pa pk pc psib ga gk gc gsib is = simp append_assoc

pub in_order-balanced :
    (t : Tree) (fs : List Frame) → IsNode t → in_order (balanced t fs) ≡ in_order (plug t fs)
in_order-balanced t [] is = refl
in_order-balanced t (p ∷ []) is = refl
in_order-balanced t (p ∷ g ∷ fs) is = elim (Bool-cases p.red) [
  | inr p-black ↦ ap in_order (balanced-black t p g fs p-black)
  | inl p-red ↦ elim (Bool-cases (is_red g.sib)) [
    | inl red ↦
        ap in_order (balanced-recolored t p g fs p-red red)
        ∙ in_order-balanced (recolored t p g) fs (
            mk-IsNode g.side (mk p.side t p.at p.key false p.sib) g.at g.key true
              (paint false g.sib))
        ∙ in_order-plug (recolored t p g)
            (mk g.side (mk p.side t p.at p.key p.red p.sib) g.at g.key g.red g.sib) fs
            (in_order-recolored t p g)
    | inr uncle-black ↦
        let turned = straight g.side p.side t p in
        let f = raised g.side turned g in
        ap in_order (balanced-turned t p g fs p-red uncle-black)
        ∙ in_order-plug (mk g.side turned.0 f.at f.key f.red f.sib)
            (mk g.side (mk p.side t p.at p.key p.red p.sib) g.at g.key g.red g.sib) fs
            (in_order-raised g.side p.side t p.at p.key p.red p.sib g.at g.key g.red g.sib is)
  ]
]

-- The list with a new node before the first greater key.
abbrev pub placed : ℕ → ℕ → List (ℕ × ℕ) → List (ℕ × ℕ)
placed a key [] = (a, key) ∷ []
placed a key ((b, k) ∷ others) =
    if ltb key k then (a, key) ∷ (b, k) ∷ others else (b, k) ∷ placed a key others

-- The keys do not fall.
abbrev pub IsSorted : List (ℕ × ℕ) → Type 0
IsSorted [] = Unit
IsSorted ((a, k) ∷ others) = All (λ (e : ℕ × ℕ). k ≤ e.1) others × IsSorted others

module _ (a key b k : ℕ) (ys : List (ℕ × ℕ)) where
  placed-before :
      (xs : List (ℕ × ℕ))
      → key < k
      → placed a key (xs ++ (b, k) ∷ ys) ≡ placed a key xs ++ (b, k) ∷ ys
  placed-before [] less = ground arith
  placed-before ((c, kc) ∷ xs) less = ground (arith, placed-before xs less)

  placed-after :
      (xs : List (ℕ × ℕ))
      → k ≤ key
      → IsSorted (xs ++ (b, k) ∷ ys)
      → placed a key (xs ++ (b, k) ∷ ys) ≡ xs ++ (b, k) ∷ placed a key ys
  placed-after [] le sorted = ground arith
  placed-after ((c, kc) ∷ xs) le sorted =
      ground (arith, placed-after xs le sorted.1, All-append-right (c, kc) xs sorted.0)
    where
      All-append-right :
          (e : ℕ × ℕ) (xs : List (ℕ × ℕ))
          → All (λ (x : ℕ × ℕ). e.1 ≤ x.1) (xs ++ (b, k) ∷ ys)
          → e.1 ≤ k
      All-append-right e [] all = all.0
      All-append-right e (x ∷ xs) all = All-append-right e xs all.1

-- The insertion with no balancing.
abbrev hung : ℕ → ℕ → Tree → Tree
hung a key leaf = node leaf a key true leaf
hung a key (node l b k c r) =
    if ltb key k then node (hung a key l) b k c r else node l b k c (hung a key r)

plug-descent :
    (a key : ℕ) (t : Tree) (fs : List Frame)
    → plug (node leaf a key true leaf) (descent key t fs) ≡ plug (hung a key t) fs
plug-descent a key leaf fs = refl
plug-descent a key (node l b k c r) fs = elim (Bool-cases (ltb key k)) [
  | inl less ↦
      rw less
        (plug-descent a key l (record { side = left; at = b; key = k; red = c; sib = r } ∷ fs))
  | inr more ↦
      rw more
        (plug-descent a key r (record { side = right; at = b; key = k; red = c; sib = l } ∷ fs))
]

All-append-left : (P : ℕ × ℕ → Type 0) (xs ys : List (ℕ × ℕ)) → All P (xs ++ ys) → All P xs
All-append-left P [] ys all = tt
All-append-left P (x ∷ xs) ys all = (all.0, All-append-left P xs ys all.1)

IsSorted-left : (xs ys : List (ℕ × ℕ)) → IsSorted (xs ++ ys) → IsSorted xs
IsSorted-left [] ys sorted = tt
IsSorted-left ((a, k) ∷ xs) ys sorted =
    (All-append-left (λ (e : ℕ × ℕ). k ≤ e.1) xs ys sorted.0, IsSorted-left xs ys sorted.1)

IsSorted-right : (xs ys : List (ℕ × ℕ)) → IsSorted (xs ++ ys) → IsSorted ys
IsSorted-right [] ys sorted = sorted
IsSorted-right ((a, k) ∷ xs) ys sorted = IsSorted-right xs ys sorted.1

in_order-hung :
    (a key : ℕ) (t : Tree)
    → IsSorted (in_order t)
    → in_order (hung a key t) ≡ placed a key (in_order t)
in_order-hung a key leaf sorted = refl
in_order-hung a key (node l b k c r) sorted = elim (Bool-cases (ltb key k)) [
  | inl less ↦ rw (
    less,
    in_order-hung a key l (IsSorted-left (in_order l) ((b, k) ∷ in_order r) sorted),
    placed-before a key b k (in_order r) (in_order l) (ground arith),
  )
  | inr more ↦ rw (
    more,
    in_order-hung a key r (IsSorted-right (in_order l) ((b, k) ∷ in_order r) sorted).1,
    placed-after a key b k (in_order r) (in_order l) (ground arith) sorted,
  )
]

-- An insertion into a tree whose keys are in order puts the node before the first node with a
-- greater key, and so behind those with the same key, and changes nothing else of the order.
pub in_order-inserted :
    (a key : ℕ) (t : Tree)
    → IsSorted (in_order t)
    → in_order (inserted a key t) ≡ placed a key (in_order t)
in_order-inserted a key t sorted =
    in_order-paint false (balanced (node leaf a key true leaf) (descent key t []))
    ∙ in_order-balanced (node leaf a key true leaf) (descent key t []) tt
    ∙ ap in_order (plug-descent a key t [])
    ∙ in_order-hung a key t sorted

All-placed :
    (a key k : ℕ) (xs : List (ℕ × ℕ))
    → k ≤ key
    → All (λ (e : ℕ × ℕ). k ≤ e.1) xs
    → All (λ (e : ℕ × ℕ). k ≤ e.1) (placed a key xs)
All-placed a key k [] le all = (le, tt)
All-placed a key k ((b, kb) ∷ xs) le all = ground (arith, All-placed a key k xs le all.1)

All-weaken :
    (k k' : ℕ) (xs : List (ℕ × ℕ))
    → k ≤ k'
    → All (λ (e : ℕ × ℕ). k' ≤ e.1) xs
    → All (λ (e : ℕ × ℕ). k ≤ e.1) xs
All-weaken k k' [] le all = tt
All-weaken k k' (x ∷ xs) le all = (omega arith, All-weaken k k' xs le all.1)

pub placed-IsSorted : (a key : ℕ) (xs : List (ℕ × ℕ)) → IsSorted xs → IsSorted (placed a key xs)
placed-IsSorted a key [] sorted = (tt, tt)
placed-IsSorted a key ((b, k) ∷ xs) sorted = elim (Bool-cases (ltb key k)) [
  | inl less ↦ rw less ((ground arith, All-weaken key k xs (ground arith) sorted.0), sorted)
  | inr more ↦
      rw more (All-placed a key k xs (ground arith) sorted.0, placed-IsSorted a key xs sorted.1)
]
