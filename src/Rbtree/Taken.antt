-- ===== src/Rbtree/Taken.antt =====
-- src/kits/event/event_rbtree.cpp: rbtree_delete on a node with two children.
use hystack.Prelude.{ℕ, Bool, false, List, [], ◌∷◌, ◌++◌, ◌==◌, if◌then◌else◌, ◌≡◌, refl, arith}
use hystack.Rbtree.{Node, Heap, right, pure}
use hystack.Rbtree.Delete.{unlink, fixup, forget, take_out}
use hystack.Rbtree.Shape.{Tree, leaf, node, Frame, plug, addr, up, top}
use hystack.Rbtree.Owns.{Part, cell_at, tree, path, State, Holds, Spec}
use hystack.Rbtree.Rules.{
  bind-Spec, known-Spec, weaken-Spec, result-Spec, else-Spec, get_root-Spec, load-Spec, modify-Spec,
  eq_self,
}
use hystack.Rbtree.Zipper.{zip}
use hystack.Rbtree.Turn.{not_root}
use hystack.Rbtree.Unlink.{forgotten, written, set_any_parent-Spec}
use hystack.Rbtree.Moved.{
  count_path-append, move_part_up, move_part_down, apart_from, in_place_of, move_subst-Spec,
  cut-Spec,
}

-- The frame of the node at `a`, with the left subtree `l`.
abbrev pub above : Bool → Tree → ℕ → ℕ → Frame
above c l a k = record { side = right; at = a; key = k; red = c; sib = l }

-- What is written as the parent of the tree that takes the place of `m`.
abbrev pub new_parent : ℕ → List Frame → ℕ
new_parent m [] = m
new_parent m (w ∷ ws) = w.at

module _ (s base : ℕ) (ns : Node) (js : List Part) (a k : ℕ) (c : Bool) (l : Tree) (fs : List Frame)
    (m km : ℕ) (cm : Bool) (u : Tree) where
  -- The least node of the right subtree, by itself under its path.
  abbrev pub picked : List Frame → State
  picked ws = (
    top m (ws ++ above c l a k ∷ fs),
    cell_at m (record {
      key = km;
      left = s;
      right = addr s u;
      parent = up base (ws ++ above c l a k ∷ fs);
      red = cm;
    })
        ∷ tree m u
        ∷ path m (ws ++ above c l a k ∷ fs)
        ∷ cell_at s ns
        ∷ js,
  )

  differs : (ws : List Frame) (h : Heap) → Holds s base h (picked ws) → (m == a) ≡ false
  differs ws h H =
      let e = count_path-append a ws (above c l a k ∷ fs) in ground (arith, e, H.apart a)

  unlink_near-Spec :
      Spec s base
        (unlink s a m (addr s u))
        (picked [])
        tt
        (in_place_of s base js a k c l fs m km cm u (written m u ns))
  unlink_near-Spec = known-Spec (differs []) (λ ne.
      cut-Spec s base js a k c l fs m km cm s (addr s u) u (above c l a k) fs ns ne (
        move_subst-Spec s base js a k c l fs m km cm (addr s u) s (addr s u) a m u (written m u ns)
          (load-Spec 0 refl)
          (rw (eq_self a) (
            result-Spec (set_any_parent-Spec s base js m _ ns m m u (addr s u) (above c l a k ∷ fs))
              (λ h H.
                let (m-Is, (u-Is, ((a-Is, l-Is, fs-Is), (s-Is, rest)))) = H.owned in
                record {
                  root_is = H.root_is;
                  owned = (m-Is, (a-Is, (l-Is, (u-Is, (fs-Is, (s-Is, rest))))));
                  apart = λ x. omega (arith, H.apart x);
                })))))

  differs_head :
      (w : Frame) (ws : List Frame) (h : Heap)
      → Holds s base h (picked (w ∷ ws))
      → (w.at == a) ≡ false
  differs_head w ws h H =
      let e = count_path-append a ws (above c l a k ∷ fs) in ground (arith, e, H.apart a)

  unlink_far-Spec :
      (w : Frame) (ws : List Frame)
      → Spec s base
          (unlink s a m (addr s u))
          (picked (w ∷ ws))
          tt
          (in_place_of s base js a k c l fs m km cm (plug u (w ∷ ws)) (written w.at u ns))
  unlink_far-Spec w ws =
      known-Spec {X = ((m == a) ≡ false) × ((w.at == a) ≡ false)}
        (λ h H. (differs (w ∷ ws) h H, differs_head w ws h H))
        (λ (ne, head_ne).
          cut-Spec s base js a k c l fs m km cm s (addr s u) u w (ws ++ above c l a k ∷ fs) ns ne (
            move_subst-Spec s base js a k c l fs m km cm (addr s u) s (addr s u) w.at a
              (plug u (w ∷ ws)) (written w.at u ns) (load-Spec 0 refl)
              (rw head_ne (
                result-Spec
                  (set_any_parent-Spec s base js m _ ns m w.at u (addr s u)
                    (w ∷ ws ++ above c l a k ∷ fs))
                  (λ h H. together w ws h H)))))
    where
      together :
          (w : Frame) (ws : List Frame) (h : Heap)
          → let nm : Node = record {
            key = km;
            left = s;
            right = addr s u;
            parent = w.at;
            red = cm;
          } in
            Holds s base h (
              top w.at (ws ++ above c l a k ∷ fs),
              cell_at m nm
                  ∷ tree w.at u
                  ∷ path (addr s u) (w ∷ ws ++ above c l a k ∷ fs)
                  ∷ cell_at s (written w.at u ns)
                  ∷ js,
            )
            → Holds s base h
                (apart_from s base js a k c l fs m km cm nm a (plug u (w ∷ ws)) (written w.at u ns))
      together w ws h H =
          let nm : Node = record {
            key = km;
            left = s;
            right = addr s u;
            parent = w.at;
            red = cm;
          } in
          let (m-Is, (u-Is, (ws-Is, (s-Is, rest)))) = H.owned in
          let H' =
            move_part_up s base (written w.at u ns) (cell_at m nm ∷ js) h u (w ∷ ws)
              (above c l a k ∷ fs)
              (record {
                root_is = H.root_is;
                owned = (u-Is, (ws-Is, (s-Is, (m-Is, rest))));
                apart = λ x. omega (arith, H.apart x);
              }) in
          let (r-Is, ((a-Is, l-Is, fs-Is), (s-Is', (m-Is', rest')))) = H'.owned in
          record {
            root_is = H'.root_is;
            owned = (m-Is', (a-Is, (l-Is, (r-Is, (fs-Is, (s-Is', rest'))))));
            apart = λ x. omega (arith, H'.apart x);
          }

  unlink_least-Spec :
      (ws : List Frame)
      → Spec s base
          (unlink s a m (addr s u))
          (picked ws)
          tt
          (in_place_of s base js a k c l fs m km cm (plug u ws) (written (new_parent m ws) u ns))
  unlink_least-Spec [] = unlink_near-Spec
  unlink_least-Spec (w ∷ ws) = unlink_far-Spec w ws

  not_root_here :
      (ws : List Frame) (h : Heap)
      → Holds s base h (picked ws)
      → (m == top m (ws ++ above c l a k ∷ fs)) ≡ false
  not_root_here [] h H =
      not_root s (node leaf m 0 false leaf) (above c l a k) fs (λ x. omega (arith, H.apart x))
  not_root_here (w ∷ ws) h H =
      not_root s (node leaf m 0 false leaf) w (ws ++ above c l a k ∷ fs)
        (λ x. omega (arith, H.apart x))

  -- The node at `m` is in the place of the one at `a`, which is beside the tree.
  pub take_least-Spec :
      (fuel : ℕ) (ws : List Frame) {Q : State}
      → Spec s base
          (if cm then pure tt else fixup s fuel (addr s u))
          (zip s base
            (written (new_parent m ws) u ns)
            (cell_at a (forgotten c) ∷ js)
            u
            (ws ++ above c l m km ∷ fs))
          tt
          Q
      → Spec s base (take_out s fuel a m (addr s u)) (picked ws) tt Q
  unfolding take_out forget
  take_least-Spec fuel ws rest = known-Spec (not_root_here ws) (λ below. bind-Spec _ get_root-Spec (
      else-Spec (m == top m (ws ++ above c l a k ∷ fs)) _ _ below (
        bind-Spec _ (load-Spec 0 refl) (
          bind-Spec _ (unlink_least-Spec ws) (
            bind-Spec _ (modify-Spec 1 refl _ refl) (
              weaken-Spec
                (λ h H.
                  let (m-Is, (a-Is, (l-Is, (r-Is, (fs-Is, (s-Is, rest)))))) = H.owned in
                  move_part_down s base (written (new_parent m ws) u ns)
                    (cell_at a (forgotten c) ∷ js) h u ws (above c l m km ∷ fs)
                    (record {
                      root_is = H.root_is;
                      owned = (r-Is, ((m-Is, l-Is, fs-Is), (s-Is, (a-Is, rest))));
                      apart = λ x. omega (arith, H.apart x);
                    }))
                rest))))))
