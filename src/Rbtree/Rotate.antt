-- ===== src/Rbtree/Rotate.antt =====
-- src/kits/event/event_rbtree.cpp: the two rotations on the parts of a tree.
use hystack.Prelude.{
  ℕ, ◌≤◌, Bool, false, List, [], ◌∷◌, ◌==◌, some, ◌≡◌, ◌≢◌, refl, arith, get_elem?, set,
}
use hystack.Rbtree.{
  Node, Side, left, right, other, child, with_child, load, modify, write, side_of, adopt, replace,
  rotate,
}
use hystack.Rbtree.Shape.{
  Tree, leaf, node, Frame, addr, up, top, side_cell, head_cell, count, count_path,
}
use hystack.Rbtree.Owns.{
  Part, cell_at, tree, path, State, total, foot-le-total, feet-le-total, Stands-write, Spec,
  Holds-put, Holds-set, All-get, Leads-write,
}
use hystack.Rbtree.Rules.{
  bind-Spec, known-Spec, result-Spec, pure-Spec, get_root-Spec, set_root-Spec, load-Spec,
  modify-Spec, write_self, eq_self,
}

-- The root of a path from `p` is `p` or stands on the path.
pub top-on-path : (p : ℕ) (f : Frame) (fs : List Frame) → 1 ≤ count_path (top p (f ∷ fs)) (f ∷ fs)
top-on-path p f [] = ground arith
top-on-path p f (g ∷ fs) = omega (arith, top-on-path f.at g fs)

pub count-addr : (s : ℕ) (t : Tree) → addr s t ≢ s → 1 ≤ count (addr s t) t
count-addr s leaf ne = absurd (ne refl)
count-addr s (node l a k c r) ne = ground arith

-- A child of a node that is not on the other side.
pub side_of_lem :
    (side own : Side) (p k q far : ℕ) (c : Bool)
    → far ≢ p
    → side_of side p (side_cell own p k q c far) ≡ own
side_of_lem left left p k q far c ne = ground arith
side_of_lem left right p k q far c ne = ground arith
side_of_lem right left p k q far c ne = ground arith
side_of_lem right right p k q far c ne = ground arith

pub with_child_near :
    (side : Side) (p near k q far : ℕ) (c : Bool)
    → with_child side p (side_cell side near k q c far) ≡ side_cell side p k q c far
with_child_near left p near k q far c = refl
with_child_near right p near k q far c = refl

pub with_child_far :
    (side : Side) (p near k q far : ℕ) (c : Bool)
    → with_child (other side) p (side_cell side near k q c far) ≡ side_cell side near k q c p
with_child_far left p near k q far c = refl
with_child_far right p near k q far c = refl

pub child_near :
    (side : Side) (near k q far : ℕ) (c : Bool) → child side (side_cell side near k q c far) ≡ near
child_near left near k q far c = refl
child_near right near k q far c = refl

pub child_far :
    (side : Side) (near k q far : ℕ) (c : Bool)
    → child (other side) (side_cell side near k q c far) ≡ far
child_far left near k q far c = refl
child_far right near k q far c = refl

-- A root stands nowhere else in its tree.
root-once :
    (parts : List Part) (i q : ℕ) (l : Tree) (a k : ℕ) (c : Bool) (t : Tree)
    → get_elem? parts i ≡ some (tree q (node l a k c t))
    → total a parts ≤ 1
    → (count a (node l a k c t) ≡ 1) × (count a l ≡ 0) × (count a t ≡ 0)
root-once parts i q l a k c t here le =
    ground (arith, foot-le-total a parts i (tree q (node l a k c t)) here)

-- An assignment to the parent or the color of the root of a tree.
pub modify_root-Spec :
    {s base r : ℕ} {parts : List Part} (i q p : ℕ) (l : Tree) (a k : ℕ) (c c' : Bool) (t : Tree)
    (f : Node → Node)
    → get_elem? parts i ≡ some (tree q (node l a k c t))
    → f (side_cell left (addr s l) k q c (addr s t)) ≡ side_cell left (addr s l) k p c' (addr s t)
    → Spec s base (modify a f) (r, parts) tt (r, set parts i (tree p (node l a k c' t)))
unfolding modify
modify_root-Spec {s} {base} {r} {parts} i q p l a k c c' t f here new = record {
  run = λ h H.
      let n = side_cell left (addr s l) k p c' (addr s t) in
      let st = All-get s base h.cell parts i (tree q (node l a k c t)) here H.owned in
      let (one, none-l, none-t) = root-once parts i q l a k c t here (H.apart a) in
      (
        write h a n,
        rw (modify, st.0, new),
        Holds-put s base h (r, parts) i a n (tree q (node l a k c t)) (tree p (node l a k c' t))
            here one (λ x. refl)
            (
              write_self h a n,
              Stands-write s base h a n a l none-l st.1,
              Stands-write s base h a n a t none-t st.2,
            )
            H,
      );
}

-- So the first node of a path.
frame-once :
    (parts : List Part) (i p : ℕ) (f : Frame) (fs : List Frame)
    → get_elem? parts i ≡ some (path p (f ∷ fs))
    → total f.at parts ≤ 1
    → (count_path f.at (f ∷ fs) ≡ 1) × (count f.at f.sib ≡ 0) × (count_path f.at fs ≡ 0)
frame-once parts i p f fs here le =
    ground (arith, foot-le-total f.at parts i (path p (f ∷ fs)) here)

-- The node at the end of a path, over `p`.
module _ {s base : ℕ} {r : ℕ} {parts : List Part} (i p : ℕ) (f : Frame) (fs : List Frame)
    (here : get_elem? parts i ≡ some (path p (f ∷ fs))) where
  pub load_head-Spec : Spec s base (load f.at) (r, parts) (head_cell s base p f fs) (r, parts)
  unfolding load
  load_head-Spec = record {
    run =
        λ h H. (h, rw (load, (All-get s base h.cell parts i (path p (f ∷ fs)) here H.owned).0), H);
  }

  pub modify_head-Spec :
      (g : Node → Node) (p' : ℕ) (c : Bool)
      → g (head_cell s base p f fs) ≡ head_cell s base p' (record f { red = c }) fs
      → Spec s base
          (modify f.at g)
          (r, parts)
          tt
          (r, set parts i (path p' (record f { red = c } ∷ fs)))
  unfolding modify
  modify_head-Spec g p' c new = record {
    run = λ h H.
        let n = head_cell s base p' (record f { red = c }) fs in
        let st = All-get s base h.cell parts i (path p (f ∷ fs)) here H.owned in
        let (one, none-sib, none-fs) = frame-once parts i p f fs here (H.apart f.at) in
        (
          write h f.at n,
          rw (modify, st.0, new),
          Holds-put s base h (r, parts) i f.at n (path p (f ∷ fs))
              (path p' (record f { red = c } ∷ fs)) here one (λ x. refl)
              (
                write_self h f.at n,
                Stands-write s base h f.at n f.at f.sib none-sib st.1,
                Leads-write s base h f.at n f.at fs none-fs st.2,
              )
              H,
        );
  }

pub parent_lem :
    (side : Side) (near k q far : ℕ) (c : Bool) → (side_cell side near k q c far).parent ≡ q
parent_lem left near k q far c = refl
parent_lem right near k q far c = refl

pub with_parent :
    (side : Side) (p near k q far : ℕ) (c : Bool)
    → record (side_cell side near k q c far) { parent = p } ≡ side_cell side near k p c far
with_parent left p near k q far c = refl
with_parent right p near k q far c = refl

module _ {s base : ℕ} {r : ℕ} {parts : List Part} where
  -- The sentinel stands at the place `j`, the tree that moves at the place `i`.
  pub adopt-Spec :
      (i j : ℕ) (q p : ℕ) (t : Tree) (n : Node)
      → i ≢ j
      → get_elem? parts i ≡ some (tree q t)
      → get_elem? parts j ≡ some (cell_at s n)
      → Spec s base (adopt s (addr s t) p) (r, parts) tt (r, set parts i (tree p t))
  unfolding adopt
  adopt-Spec i j q p leaf n ne here there = rw (eq_self s) (
      result-Spec pure-Spec (λ h.
        Holds-set s base h (r, parts) i (tree q leaf) (tree p leaf) here (λ x. refl) (λ _. tt)))
  adopt-Spec i j q p (node l a k c t) n ne here there =
      known-Spec (λ h H. a-ne-s (H.apart a))
        (λ apart. rw apart (modify_root-Spec i q p l a k c c t _ here refl))
    where
      a-ne-s : total a parts ≤ 1 → (a == s) ≡ false
      a-ne-s le = ground (arith, feet-le-total a parts i j ne here there)

  -- The node `p` gives its place to `b`; the sentinel and a part with `p` stand elsewhere.
  pub replace-Spec :
      (i j l : ℕ) (side : Side) (p b : ℕ) (fs : List Frame) (m n : Node)
      → i ≢ j
      → i ≢ l
      → j ≢ l
      → r ≡ top p fs
      → get_elem? parts i ≡ some (path p fs)
      → get_elem? parts j ≡ some (cell_at p m)
      → get_elem? parts l ≡ some (cell_at s n)
      → Spec s base
          (replace side p (up base fs) b)
          (r, parts)
          tt
          (top b fs, set parts i (path b fs))
  unfolding replace
  replace-Spec i j l side p b [] m n ij il jl e here there far = bind-Spec _ get_root-Spec (
      rw (e, eq_self p)
        (result-Spec set_root-Spec (λ h.
          Holds-set s base h (b, parts) i (path p []) (path b []) here (λ x. refl) (λ _. tt))))
  replace-Spec i j l side p b (f ∷ fs) m n ij il jl e here there far =
      known-Spec {X = ((p == r) ≡ false) × (addr s f.sib ≢ p)}
        (λ h H. (not-root (H.apart (top p (f ∷ fs))), not-sib (H.apart p)))
        (λ facts. bind-Spec _ get_root-Spec (
          rw facts.0 (
            bind-Spec _ (load_head-Spec i p f fs here) (
              rw (side_of_lem side f.side p f.key (up base fs) (addr s f.sib) f.red facts.1, ← e)
                (modify_head-Spec i p f fs here (with_child f.side b) b f.red
                  (with_child_near f.side b p f.key (up base fs) (addr s f.sib) f.red))))))
    where
      not-root : total (top p (f ∷ fs)) parts ≤ 1 → (p == r) ≡ false
      not-root le = ground (
        arith,
        top-on-path p f fs,
        feet-le-total (top p (f ∷ fs)) parts i j {a = path p (f ∷ fs)} {b = cell_at p m} ij here
            there,
      )

      not-sib : total p parts ≤ 1 → addr s f.sib ≢ p
      not-sib le same = ground (
        arith,
        count-addr s f.sib,
        feet-le-total p parts i j {a = path p (f ∷ fs)} {b = cell_at p m} ij here there,
        feet-le-total p parts j l {a = cell_at p m} {b = cell_at s n} jl there far,
      )

-- The node `a` turns down to its `side`, and the child `b` on its other side takes its place.
module _ (s base : ℕ) (side : Side) (a b ka kb : ℕ) (ca cb : Bool) (n1 n2 n3 : Tree)
    (fs : List Frame) (ns : Node) (js : List Part) where
  abbrev pub before : State
  before = (
    top a fs,
    cell_at a (side_cell side (addr s n1) ka (up base fs) ca b)
        ∷ cell_at b (side_cell side (addr s n2) kb a cb (addr s n3))
        ∷ tree a n1
        ∷ tree b n2
        ∷ tree b n3
        ∷ path a fs
        ∷ cell_at s ns
        ∷ js,
  )

  abbrev pub after : State
  after = (
    top b fs,
    cell_at a (side_cell side (addr s n1) ka b ca (addr s n2))
        ∷ cell_at b (side_cell side a kb (up base fs) cb (addr s n3))
        ∷ tree a n1
        ∷ tree a n2
        ∷ tree b n3
        ∷ path b fs
        ∷ cell_at s ns
        ∷ js,
  )

  pub rotate-Spec : Spec s base (rotate s side a) before tt after
  unfolding rotate
  rotate-Spec = bind-Spec _ (load-Spec 0 refl) (
      rw
        (
          child_far side (addr s n1) ka (up base fs) b ca,
          parent_lem side (addr s n1) ka (up base fs) b ca,
        )
        (bind-Spec _ (load-Spec 1 refl) (
          rw (child_near side (addr s n2) kb a (addr s n3) cb) (
            bind-Spec _ (modify-Spec 0 refl _ (with_child_far side _ _ ka (up base fs) b ca)) (
              bind-Spec _ (adopt-Spec 3 6 b a n2 ns (omega arith) refl refl) (
                bind-Spec _ (modify-Spec 1 refl _ (with_parent side (up base fs) _ kb a _ cb)) (
                  bind-Spec _
                    (replace-Spec 5 0 6 side a b fs _ ns (omega arith) (omega arith) (omega arith)
                      refl refl refl refl)
                    (bind-Spec _
                      (modify-Spec 1 refl _ (with_child_near side _ _ kb (up base fs) _ cb))
                      (modify-Spec 0 refl _ (with_parent side b _ ka (up base fs) _ ca))))))))))
