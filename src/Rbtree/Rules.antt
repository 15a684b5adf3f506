-- ===== src/Rbtree/Rules.antt =====
-- src/kits/event/event_rbtree.cpp: a rule for each assignment and each step that the tree's
-- operations share.
use hystack.Prelude.{
  ℕ, Bool, true, false, List, ◌==◌, if◌then◌else◌, some, ◌≡◌, refl, arith, get_elem?, set,
}
use hystack.Rbtree.{Node, Heap, M, ◌>>=◌, pure, load, modify, write, get_root, set_root}
use hystack.Rbtree.Owns.{Part, cell_at, State, Holds, Spec, Holds-put, All-get}

pub eq_self : (x : ℕ) → (x == x) ≡ true
eq_self x = ground arith

pub write_self : (h : Heap) (p : ℕ) (n : Node) → (write h p n).cell p ≡ some n
unfolding write
write_self h p n = ground arith

module _ {s base : ℕ} where
  module _ {A B : Type 0} {m : M A} (k : A → M B) {P Q R : State} {a : A} {b : B} where
    pub bind-Spec : Spec s base m P a Q → Spec s base (k a) Q b R → Spec s base (m >>= k) P b R
    unfolding ◌>>=◌
    bind-Spec first second = record {
      run = λ h H.
          let (h', e, H') = first.run h H in
          let (h'', e', H'') = second.run h' H' in (h'', rw e e', H'');
    }

  module _ {A : Type 0} {m : M A} {P Q R : State} {a : A} where
    pub weaken-Spec :
        ((h : Heap) → Holds s base h P → Holds s base h Q)
        → Spec s base m Q a R
        → Spec s base m P a R
    weaken-Spec enter body = record { run = λ h H. body.run h (enter h H) }

    pub result-Spec :
        Spec s base m P a Q
        → ((h : Heap) → Holds s base h Q → Holds s base h R)
        → Spec s base m P a R
    result-Spec body leave = record {
      run = λ h H. let (h', e, H') = body.run h H in (h', e, leave h' H');
    }

  module _ {A : Type 0} {P Q : State} {a : A} (b : Bool) (m n : M A) where
    pub then-Spec : b ≡ true → Spec s base m P a Q → Spec s base (if b then m else n) P a Q
    then-Spec e body = rw e body

    pub else-Spec : b ≡ false → Spec s base n P a Q → Spec s base (if b then m else n) P a Q
    else-Spec e body = rw e body

  -- What the state shows may be used.
  pub known-Spec :
      {A X : Type 0} {m : M A} {P Q : State} {a : A}
      → ((h : Heap) → Holds s base h P → X)
      → (X → Spec s base m P a Q)
      → Spec s base m P a Q
  known-Spec show body = record { run = λ h H. (body (show h H)).run h H }

  pub pure-Spec : {A : Type 0} {a : A} {P : State} → Spec s base (pure a) P a P
  pure-Spec = record { run = λ h H. (h, refl, H) }

  pub get_root-Spec : {r : ℕ} {parts : List Part} → Spec s base get_root (r, parts) r (r, parts)
  get_root-Spec = record { run = λ h H. (h, rw H.root_is, H) }

  pub set_root-Spec :
      {r p : ℕ} {parts : List Part} → Spec s base (set_root p) (r, parts) tt (p, parts)
  set_root-Spec = record {
    run = λ h H.
        (record h { root = _ }, refl, record { root_is = refl; owned = H.owned; apart = H.apart });
  }

  module _ {r : ℕ} {parts : List Part} (i : ℕ) {a : ℕ} {n : Node}
      (here : get_elem? parts i ≡ some (cell_at a n)) where
    pub load-Spec : Spec s base (load a) (r, parts) n (r, parts)
    unfolding load
    load-Spec = record {
      run = λ h H. (h, rw (load, All-get s base h.cell parts i (cell_at a n) here H.owned), H);
    }

    pub modify-Spec :
        (f : Node → Node) {new : Node}
        → f n ≡ new
        → Spec s base (modify a f) (r, parts) tt (r, set parts i (cell_at a new))
    unfolding modify
    modify-Spec f {new} e = record {
      run = λ h H. (
        write h a new,
        rw (modify, All-get s base h.cell parts i (cell_at a n) here H.owned, e),
        Holds-put s base h (r, parts) i a new (cell_at a n) (cell_at a new) here (ground arith)
            (λ x. refl) (write_self h a new) H,
      );
    }
