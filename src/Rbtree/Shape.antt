-- ===== src/Rbtree/Shape.antt =====
-- The trees that src/kits/event/event_rbtree.cpp keeps in memory, as values: a tree, and a tree
-- with the path from one of its nodes to the root.
use hystack.Prelude.{ℕ, suc, ◌+◌, Bool, List, [], ◌∷◌, ◌++◌, ◌==◌, if◌then◌else◌, max}
use hystack.Rbtree.{Node, Side, left, right}

-- The left subtree, the address, the key, whether it is red, the right subtree.
pub data Tree : Type 0 where
  leaf : Tree
  node : Tree → ℕ → ℕ → Bool → Tree → Tree

-- The node above, without the subtree on `side`.
pub record Frame : Type 0 where
  pub side : Side
  pub at : ℕ
  pub key : ℕ
  pub red : Bool
  pub sib : Tree

-- The subtrees are those on the given side and on the other one.
abbrev pub mk : Side → Tree → ℕ → ℕ → Bool → Tree → Tree
mk left near a k c far = node near a k c far
mk right near a k c far = node far a k c near

abbrev pub plug : Tree → List Frame → Tree
plug t [] = t
plug t (f ∷ fs) = plug (mk f.side t f.at f.key f.red f.sib) fs

abbrev pub addr : ℕ → Tree → ℕ
addr s leaf = s
addr s (node l a k c r) = a

-- The parent of the tree at the end of the path; `base` is the parent of the root.
abbrev pub up : ℕ → List Frame → ℕ
up base [] = base
up base (f ∷ fs) = f.at

-- The address of the root, where the path starts at `p`.
abbrev pub top : ℕ → List Frame → ℕ
top p [] = p
top p (f ∷ fs) = top f.at fs

abbrev pub side_cell : Side → ℕ → ℕ → ℕ → Bool → ℕ → Node
side_cell left near k q c far = record { key = k; left = near; right = far; parent = q; red = c }
side_cell right near k q c far = record { key = k; left = far; right = near; parent = q; red = c }

-- The node of a frame, over `p`.
abbrev pub head_cell : ℕ → ℕ → ℕ → Frame → List Frame → Node
head_cell s base p f fs = side_cell f.side p f.key (up base fs) f.red (addr s f.sib)

-- How often an address occurs.
abbrev pub hit : ℕ → ℕ → ℕ
hit x a = if x == a then 1 else 0

abbrev pub count : ℕ → Tree → ℕ
count x leaf = 0
count x (node l a k c r) = hit x a + count x l + count x r

abbrev pub count_path : ℕ → List Frame → ℕ
count_path x [] = 0
count_path x (f ∷ fs) = hit x f.at + count x f.sib + count_path x fs

-- The nodes in order, with their keys.
abbrev pub in_order : Tree → List (ℕ × ℕ)
in_order leaf = []
in_order (node l a k c r) = in_order l ++ (a, k) ∷ in_order r

-- The number of nodes on the longest way down.
abbrev pub depth : Tree → ℕ
depth leaf = 0
depth (node l a k c r) = suc (max (depth l) (depth r))
