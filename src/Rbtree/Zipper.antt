-- ===== src/Rbtree/Zipper.antt =====
-- src/kits/event/event_rbtree.cpp: the memory as a tree and the path above it, which the balancing
-- moves along.
use hystack.Prelude.{ℕ, ◌+◌, Bool, List, [], ◌∷◌, Option, some, ◌≡◌, refl, ap, ◌∙◌, arith, sym}
use hystack.Rbtree.{Node, Heap, Side, left, right, other}
use hystack.Rbtree.Shape.{Tree, Frame, mk, plug, addr, up, top, side_cell, head_cell, hit, count}
use hystack.Rbtree.Owns.{Part, cell_at, tree, path, State, Stands, Holds}
use hystack.Rbtree.Rotate.{before, after}

pub addr-mk :
    (s : ℕ) (side : Side) (near : Tree) (a k : ℕ) (c : Bool) (far : Tree)
    → addr s (mk side near a k c far) ≡ a
addr-mk s left near a k c far = refl
addr-mk s right near a k c far = refl

pub count-mk :
    (x : ℕ) (side : Side) (near : Tree) (a k : ℕ) (c : Bool) (far : Tree)
    → count x (mk side near a k c far) ≡ hit x a + count x near + count x far
count-mk x left near a k c far = refl
count-mk x right near a k c far = omega arith

pub side_cell-other :
    (side : Side) (near k q far : ℕ) (c : Bool)
    → side_cell (other side) near k q c far ≡ side_cell side far k q c near
side_cell-other left near k q far c = refl
side_cell-other right near k q far c = refl

module _ (s base : ℕ) (mem : ℕ → Option Node) (q : ℕ) where
  module _ (near : Tree) (a k : ℕ) (c : Bool) (far : Tree) where
    abbrev StandsApart : Side → Type 0
    StandsApart side =
        (mem a ≡ some (side_cell side (addr s near) k q c (addr s far)))
        × Stands s base mem a near
        × Stands s base mem a far

    pub Stands-mk : (side : Side) → Stands s base mem q (mk side near a k c far) → StandsApart side
    Stands-mk left st = st
    Stands-mk right st = (st.0, st.2, st.1)

    pub mk-Stands : (side : Side) → StandsApart side → Stands s base mem q (mk side near a k c far)
    mk-Stands left st = st
    mk-Stands right st = (st.0, st.2, st.1)

module _ (s base : ℕ) (ns : Node) (js : List Part) where
  -- The sentinel and the rest stand beside the tree.
  abbrev pub zip : Tree → List Frame → State
  zip t fs = (top (addr s t) fs, tree (up base fs) t ∷ path (addr s t) fs ∷ cell_at s ns ∷ js)

  -- The same with two nodes of the path by themselves.
  abbrev pub opened : Tree → Frame → Frame → List Frame → State
  opened t p g fs = (
    top g.at fs,
    cell_at g.at (head_cell s base p.at g fs)
        ∷ cell_at p.at (head_cell s base (addr s t) p (g ∷ fs))
        ∷ tree g.at g.sib
        ∷ tree p.at p.sib
        ∷ tree p.at t
        ∷ path g.at fs
        ∷ cell_at s ns
        ∷ js,
  )

  module _ (h : Heap) where
    pub open_two :
        (t : Tree) (p g : Frame) (fs : List Frame)
        → Holds s base h (zip t (p ∷ g ∷ fs))
        → Holds s base h (opened t p g fs)
    open_two t p g fs H =
        let (t-Is, ((p-Is, p-sib, (g-Is, g-sib, fs-Is)), rest)) = H.owned in
        record {
          root_is = H.root_is;
          owned = (g-Is, (p-Is, (g-sib, (p-sib, (t-Is, (fs-Is, rest))))));
          apart = λ x. omega (arith, H.apart x);
        }

    pub close_two :
        (t : Tree) (p g : Frame) (fs : List Frame)
        → Holds s base h (opened t p g fs)
        → Holds s base h (zip t (p ∷ g ∷ fs))
    close_two t p g fs H =
        let (g-Is, (p-Is, (g-sib, (p-sib, (t-Is, (fs-Is, rest)))))) = H.owned in
        record {
          root_is = H.root_is;
          owned = (t-Is, ((p-Is, p-sib, (g-Is, g-sib, fs-Is)), rest));
          apart = λ x. omega (arith, H.apart x);
        }

    pub move_up :
        (t : Tree) (f : Frame) (fs : List Frame)
        → Holds s base h (zip t (f ∷ fs))
        → Holds s base h (zip (mk f.side t f.at f.key f.red f.sib) fs)
    move_up t f fs H =
        let (t-Is, ((f-Is, f-sib, fs-Is), rest)) = H.owned in
        rw (addr-mk s f.side t f.at f.key f.red f.sib) (record {
          root_is = H.root_is;
          owned = (
            mk-Stands s base h.cell (up base fs) t f.at f.key f.red f.sib f.side
                (f-Is, t-Is, f-sib),
            (fs-Is, rest),
          );
          apart = λ x. omega (arith, count-mk x f.side t f.at f.key f.red f.sib, H.apart x);
        })

    pub move_down :
        (side : Side) (t : Tree) (a k : ℕ) (c : Bool) (u : Tree) (fs : List Frame)
        → Holds s base h (zip (mk side t a k c u) fs)
        → Holds s base h (zip t (record { side = side; at = a; key = k; red = c; sib = u } ∷ fs))
    move_down left t a k c u fs H =
        let ((a-Is, t-Is, u-Is), (fs-Is, rest)) = H.owned in
        record {
          root_is = H.root_is;
          owned = (t-Is, ((a-Is, u-Is, fs-Is), rest));
          apart = λ x. omega (arith, H.apart x);
        }
    move_down right t a k c u fs H =
        let ((a-Is, u-Is, t-Is), (fs-Is, rest)) = H.owned in
        record {
          root_is = H.root_is;
          owned = (t-Is, ((a-Is, u-Is, fs-Is), rest));
          apart = λ x. omega (arith, H.apart x);
        }

    pub move_top :
        (t : Tree) (fs : List Frame)
        → Holds s base h (zip t fs)
        → Holds s base h (zip (plug t fs) [])
    move_top t [] H = H
    move_top t (f ∷ fs) H = move_top (mk f.side t f.at f.key f.red f.sib) fs (move_up t f fs H)

    -- Into the state of a rotation down to the side `d`, and out of it to both sides.
    module _ (d : Side) (a ka : ℕ) (ca : Bool) (b kb : ℕ) (cb : Bool) (n1 n2 n3 : Tree)
        (fs : List Frame) where
      pub enter_rotation :
          Holds s base h (
            zip
              (mk d n2 b kb cb n3)
              (record { side = other d; at = a; key = ka; red = ca; sib = n1 } ∷ fs))
          → Holds s base h (before s base d a b ka kb ca cb n1 n2 n3 fs ns js)
      enter_rotation H =
          let (t-Is, ((f-Is, f-sib, fs-Is), rest)) = H.owned in
          let (b-Is, n2-Is, n3-Is) = Stands-mk s base h.cell a n2 b kb cb n3 d t-Is in
          record {
            root_is = H.root_is;
            owned = (
              f-Is
                  ∙ ap some (
                      ap (λ (p : ℕ). side_cell (other d) p ka (up base fs) ca (addr s n1))
                        (addr-mk s d n2 b kb cb n3)
                      ∙ side_cell-other d _ ka (up base fs) _ ca),
              (b-Is, (f-sib, (n2-Is, (n3-Is, (fs-Is, rest))))),
            );
            apart = λ x. omega (arith, count-mk x d n2 b kb cb n3, H.apart x);
          }

      -- The node that turned down is the tree.
      pub leave_below :
          Holds s base h (after s base d a b ka kb ca cb n1 n2 n3 fs ns js)
          → Holds s base h (
              zip
                (mk d n1 a ka ca n2)
                (record { side = d; at = b; key = kb; red = cb; sib = n3 } ∷ fs))
      leave_below H =
          let (a-Is, (b-Is, (n1-Is, (n2-Is, (n3-Is, (fs-Is, rest)))))) = H.owned in
          rw (addr-mk s d n1 a ka ca n2) (record {
            root_is = H.root_is;
            owned = (
              mk-Stands s base h.cell b n1 a ka ca n2 d (a-Is, n1-Is, n2-Is),
              ((b-Is, n3-Is, fs-Is), rest),
            );
            apart = λ x. omega (arith, count-mk x d n1 a ka ca n2, H.apart x);
          })

      -- The tree is on the other side.
      pub leave_beside :
          Holds s base h (after s base d a b ka kb ca cb n1 n2 n3 fs ns js)
          → Holds s base h (
              zip n3 (
                record { side = other d; at = b; key = kb; red = cb; sib = mk d n1 a ka ca n2 }
                ∷ fs))
      leave_beside H =
          let (a-Is, (b-Is, (n1-Is, (n2-Is, (n3-Is, (fs-Is, rest)))))) = H.owned in
          record {
            root_is = H.root_is;
            owned = (
              n3-Is,
              (
                (
                  b-Is
                      ∙ ap some (
                          ap (λ (p : ℕ). side_cell d p kb (up base fs) cb (addr s n3))
                            (sym (addr-mk s d n1 a ka ca n2))
                          ∙ sym (side_cell-other d _ kb (up base fs) _ cb)),
                  mk-Stands s base h.cell b n1 a ka ca n2 d (a-Is, n1-Is, n2-Is),
                  fs-Is,
                ),
                rest,
              ),
            );
            apart = λ x. omega (arith, count-mk x d n1 a ka ca n2, H.apart x);
          }
