-- ===== src/Rbtree/Owns.antt =====
-- What the memory of src/kits/event/event_rbtree.cpp holds, as a list of parts that stand at
-- different addresses, and how its operations change one part at a time.
use hystack.Prelude.{
  ℕ, zero, suc, ◌+◌, ◌≤◌, List, [], ◌∷◌, Option, some, ◌≡◌, ◌≢◌, refl, arith, get_elem?, set, All,
}
use mathlib.Core.Option.{some-injective}
use mathlib.Core.Path.{subst}
use hystack.Rbtree.{Node, Heap, left, other, M, write}
use hystack.Rbtree.Shape.{Tree, leaf, node, Frame, addr, up, side_cell, hit, count, count_path}

-- One node, a tree under a parent, or the path from the place `p` to the root.
pub data Part : Type 0 where
  cell_at : ℕ → Node → Part
  tree : ℕ → Tree → Part
  path : ℕ → List Frame → Part

-- The root, and the parts.
abbrev pub State : Type 0
State = ℕ × List Part

abbrev pub foot : ℕ → Part → ℕ
foot x (cell_at a n) = hit x a
foot x (tree q t) = count x t
foot x (path p fs) = count_path x fs

abbrev pub total : ℕ → List Part → ℕ
total x [] = 0
total x (part ∷ parts) = foot x part + total x parts

-- A part is in the whole.
pub foot-le-total :
    (x : ℕ) (parts : List Part) (i : ℕ) (part : Part)
    → get_elem? parts i ≡ some part
    → foot x part ≤ total x parts
foot-le-total x [] i part g = cc
foot-le-total x (other ∷ parts) zero part g = ground arith
foot-le-total x (other ∷ parts) (suc i) part g = omega (arith, foot-le-total x parts i part g)

-- So are two parts at different places.
pub feet-le-total :
    (x : ℕ) (parts : List Part) (i j : ℕ) {a b : Part}
    → i ≢ j
    → get_elem? parts i ≡ some a
    → get_elem? parts j ≡ some b
    → foot x a + foot x b ≤ total x parts
feet-le-total x [] i j ne f g = cc
feet-le-total x (part ∷ parts) zero zero ne f g = absurd (ne refl)
feet-le-total x (part ∷ parts) zero (suc j) {a} {b} ne f g =
    ground (arith, foot-le-total x parts j b g)
feet-le-total x (part ∷ parts) (suc i) zero {a} {b} ne f g =
    ground (arith, foot-le-total x parts i a f)
feet-le-total x (part ∷ parts) (suc i) (suc j) {a} {b} ne f g =
    omega (arith, feet-le-total x parts i j {a = a} {b = b} (omega arith) f g)

pub total-set :
    (x : ℕ) (parts : List Part) (i : ℕ) (old new : Part)
    → get_elem? parts i ≡ some old
    → foot x new ≡ foot x old
    → total x (set parts i new) ≡ total x parts
total-set x [] i old new g e = refl
total-set x (part ∷ parts) zero old new g e = ground arith
total-set x (part ∷ parts) (suc i) old new g e = omega (arith, total-set x parts i old new g e)

module _ (s base : ℕ) where
  abbrev pub Stands : (ℕ → Option Node) → ℕ → Tree → Type 0
  Stands mem q leaf = Unit
  Stands mem q (node l a k c r) =
      (mem a ≡ some (side_cell left (addr s l) k q c (addr s r))) × Stands mem a l × Stands mem a r

  abbrev pub Leads : (ℕ → Option Node) → ℕ → List Frame → Type 0
  Leads mem p [] = Unit
  Leads mem p (f ∷ fs) =
      (mem f.at ≡ some (side_cell f.side p f.key (up base fs) f.red (addr s f.sib)))
      × Stands mem f.at f.sib
      × Leads mem f.at fs

  abbrev pub Is : (ℕ → Option Node) → Part → Type 0
  Is mem (cell_at a n) = mem a ≡ some n
  Is mem (tree q t) = Stands mem q t
  Is mem (path p fs) = Leads mem p fs

  pub record Holds (h : Heap) (state : State) : Type 0 where
    pub root_is : h.root ≡ state.0
    pub owned : All (Is h.cell) state.1
    pub apart : (x : ℕ) → total x state.1 ≤ 1

  -- `m` ends with the value `a` and turns one state into the other.
  pub record Spec {A : Type 0} (m : M A) (P : State) (a : A) (Q : State) : Type 0 where
    pub run : (h : Heap) → Holds h P → (h' : Heap) × (m h ≡ some (a, h')) × Holds h' Q

  module _ (h : Heap) (p : ℕ) (n : Node) where
    pub Stands-write :
        (q : ℕ) (t : Tree) → count p t ≡ 0 → Stands h.cell q t → Stands (write h p n).cell q t
    unfolding write
    Stands-write q leaf e st = tt
    Stands-write q (node l a k c r) e st =
        (ground arith, Stands-write a l (ground arith) st.1, Stands-write a r (ground arith) st.2)

    pub Leads-write :
        (q : ℕ) (fs : List Frame)
        → count_path p fs ≡ 0
        → Leads h.cell q fs
        → Leads (write h p n).cell q fs
    unfolding write
    Leads-write q [] e st = tt
    Leads-write q (f ∷ fs) e st = (
      ground arith,
      Stands-write f.at f.sib (ground arith) st.1,
      Leads-write f.at fs (ground arith) st.2,
    )

    Is-write : (part : Part) → foot p part ≡ 0 → Is h.cell part → Is (write h p n).cell part
    unfolding write
    Is-write (cell_at a m) e st = ground arith
    Is-write (tree q t) e st = Stands-write q t e st
    Is-write (path q fs) e st = Leads-write q fs e st

    All-write :
        (parts : List Part)
        → total p parts ≡ 0
        → All (Is h.cell) parts
        → All (Is (write h p n).cell) parts
    All-write [] e st = tt
    All-write (part ∷ parts) e st =
        (Is-write part (omega arith) st.0, All-write parts (omega arith) st.1)

    All-put :
        (parts : List Part) (i : ℕ) (old new : Part)
        → get_elem? parts i ≡ some old
        → foot p old ≡ 1
        → total p parts ≤ 1
        → Is (write h p n).cell new
        → All (Is h.cell) parts
        → All (Is (write h p n).cell) (set parts i new)
    All-put [] i old new g e le new-Is st = tt
    All-put (part ∷ parts) zero old new g e le new-Is st =
        (new-Is, All-write parts (ground arith) st.1)
    All-put (part ∷ parts) (suc i) old new g e le new-Is st = (
      Is-write part (omega (arith, foot-le-total p parts i old g)) st.0,
      All-put parts i old new g e (omega arith) new-Is st.1,
    )

  pub Holds-put :
      (h : Heap) (P : State) (i p : ℕ) (n : Node) (old new : Part)
      → get_elem? P.1 i ≡ some old
      → foot p old ≡ 1
      → ((x : ℕ) → foot x new ≡ foot x old)
      → Is (write h p n).cell new
      → Holds h P
      → Holds (write h p n) (P.0, set P.1 i new)
  unfolding write
  Holds-put h P i p n old new g one same new-Is H = record {
    root_is = H.root_is;
    owned = unfold write in All-put h p n P.1 i old new g one (H.apart p) new-Is H.owned;
    apart = λ x. omega (arith, total-set x P.1 i old new g (same x), H.apart x);
  }

  pub All-get :
      (mem : ℕ → Option Node) (parts : List Part) (i : ℕ) (part : Part)
      → get_elem? parts i ≡ some part
      → All (Is mem) parts
      → Is mem part
  All-get mem [] i part g st = cc
  All-get mem (first ∷ parts) zero part g st =
      subst (λ x. Is mem x) (some-injective first part g) st.0
  All-get mem (first ∷ parts) (suc i) part g st = All-get mem parts i part g st.1

  All-set :
      (mem : ℕ → Option Node) (parts : List Part) (i : ℕ) (new : Part)
      → Is mem new
      → All (Is mem) parts
      → All (Is mem) (set parts i new)
  All-set mem [] i new new-Is st = tt
  All-set mem (first ∷ parts) zero new new-Is st = (new-Is, st.1)
  All-set mem (first ∷ parts) (suc i) new new-Is st = (st.0, All-set mem parts i new new-Is st.1)

  -- A part may be read in another way.
  pub Holds-set :
      (h : Heap) (P : State) (i : ℕ) (old new : Part)
      → get_elem? P.1 i ≡ some old
      → ((x : ℕ) → foot x new ≡ foot x old)
      → (Is h.cell old → Is h.cell new)
      → Holds h P
      → Holds h (P.0, set P.1 i new)
  Holds-set h P i old new g same read H = record {
    root_is = H.root_is;
    owned = All-set h.cell P.1 i new (read (All-get h.cell P.1 i old g H.owned)) H.owned;
    apart = λ x. omega (arith, total-set x P.1 i old new g (same x), H.apart x);
  }
