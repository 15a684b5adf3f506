-- ===== src/Rbtree/Least.antt =====
-- src/kits/event/event_rbtree.cpp: the least node of a tree, which rbtree_delete moves.
use hystack.Prelude.{ℕ, ◌+◌, ◌≤◌, Bool, List, [], ◌∷◌, ◌++◌, ◌≡◌, ◌≢◌, refl, ap, ◌∙◌, arith, length}
use hystack.Rbtree.{Node, Heap, Side, left, right}
use hystack.Rbtree.Shape.{Tree, leaf, node, Frame, mk, plug, up, in_order, depth}
use hystack.Rbtree.Owns.{Holds}
use hystack.Rbtree.Zipper.{zip, move_down}
use hystack.Rbtree.Grow.{cells}
use hystack.Rbtree.Taken.{above, new_parent}
use hystack.Rbtree.Place.{plug-append}

-- The least node of a tree, at its place.
pub record Least (t : Tree) : Type 0 where
  pub m : ℕ
  pub km : ℕ
  pub cm : Bool
  pub u : Tree
  pub ws : List Frame
  pub same : plug (node leaf m km cm u) ws ≡ t
  pub follows : (m, km) ∷ in_order (plug u ws) ≡ in_order t

pub least : (l : Tree) (a k : ℕ) (c : Bool) (r : Tree) → Least (node l a k c r)
least leaf a k c r = record { m = a; km = k; cm = c; u = r; ws = []; same = refl; follows = refl }
least (node l b kb cb m) a k c r =
    let rest = least l b kb cb m in
    let f : Frame = record { side = left; at = a; key = k; red = c; sib = r } in
    record {
      m = rest.m;
      km = rest.km;
      cm = rest.cm;
      u = rest.u;
      ws = rest.ws ++ f ∷ [];
      same =
          plug-append (node leaf rest.m rest.km rest.cm rest.u) rest.ws (f ∷ [])
          ∙ ap (λ (t : Tree). node t a k c r) rest.same;
      follows =
          ap (λ (t : Tree). (rest.m, rest.km) ∷ in_order t) (plug-append rest.u rest.ws (f ∷ []))
          ∙ ap (λ (xs : List (ℕ × ℕ)). xs ++ (a, k) ∷ in_order r) rest.follows;
    }

pub has_one : (ws : List Frame) (f : Frame) (fs : List Frame) → ws ++ f ∷ fs ≢ []
has_one [] f fs e = cc
has_one (w ∷ ws) f fs e = cc

pub up-new_parent :
    (base m km : ℕ) (c : Bool) (l : Tree) (fs ws : List Frame)
    → up base (ws ++ above c l m km ∷ fs) ≡ new_parent m ws
up-new_parent base m km c l fs [] = refl
up-new_parent base m km c l fs (w ∷ ws) = refl

pub move_bottom :
    (s base : ℕ) (ns : Node) (others : List (ℕ × Node)) (h : Heap) (t : Tree) (fs : List Frame)
    → Holds s base h (zip s base ns (cells others) (plug t fs) [])
    → Holds s base h (zip s base ns (cells others) t fs)
move_bottom s base ns others h t [] H = H
move_bottom s base ns others h t (f ∷ fs) H =
    move_down s base ns (cells others) h f.side t f.at f.key f.red f.sib fs
      (move_bottom s base ns others h (mk f.side t f.at f.key f.red f.sib) fs H)

depth-mk : (f : Frame) (t : Tree) → depth t + 1 ≤ depth (mk f.side t f.at f.key f.red f.sib)
depth-mk f t = by_side f.side t f.at f.key f.red f.sib
  where
    by_side :
        (d : Side) (t : Tree) (a k : ℕ) (c : Bool) (u : Tree) → depth t + 1 ≤ depth (mk d t a k c u)
    by_side left t a k c u = ground arith
    by_side right t a k c u = ground arith

pub length-le-depth : (t : Tree) (fs : List Frame) → length fs + depth t ≤ depth (plug t fs)
length-le-depth t [] = omega arith
length-le-depth t (f ∷ fs) =
    omega (arith, depth-mk f t, length-le-depth (mk f.side t f.at f.key f.red f.sib) fs)
