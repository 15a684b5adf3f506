-- ===== src/AllocPool/Small.antt =====
-- A request that is served by a block at hand.
use mathlib.Core.Path.{subst}
use hystack.Prelude.{
  ◌*◌, ◌/◌, true, false, le→leb, take-front, drop-front, ℕ, zero, suc, ◌+◌, ◌%◌, ◌^◌, ◌≤◌, ◌<◌, ◌≡◌,
  refl, ap, true, Option, some, List, [], ◌∷◌, ◌++◌, arith, All, length, take, drop, leb,
  length-append,
}
use hystack.AllocPool.{Block, Pool, alloc_align_ptr, sub_size, first_fit, alloc_pool_small}
use hystack.AllocPool.Align.{IsBlock, IsPool}

pub All-append : (xs ys : List Block) → All IsBlock xs → All IsBlock ys → All IsBlock (xs ++ ys)
All-append [] ys h k = k
All-append (x ∷ xs) ys h k = (h.0, All-append xs ys h.1 k)

All-left : (xs ys : List Block) → All IsBlock (xs ++ ys) → All IsBlock xs
All-left [] ys h = tt
All-left (x ∷ xs) ys h = (h.0, All-left xs ys h.1)

All-right : (xs ys : List Block) → All IsBlock (xs ++ ys) → All IsBlock ys
All-right [] ys h = h
All-right (x ∷ xs) ys h = All-right xs ys h.1

pub All-take : (n : ℕ) (xs : List Block) → All IsBlock xs → All IsBlock (take n xs)
All-take zero xs h = tt
All-take (suc n) [] h = tt
All-take (suc n) (x ∷ xs) h = (h.0, All-take n xs h.1)

pub All-drop : (n : ℕ) (xs : List Block) → All IsBlock xs → All IsBlock (drop n xs)
All-drop zero xs h = h
All-drop (suc n) [] h = tt
All-drop (suc n) (x ∷ xs) h = All-drop n xs h.1

carve_sound :
    (before after : List Block) (b : Block) (m size : ℕ)
    → b.last ≤ m
    → m + size ≤ b.end
    → All IsBlock (before ++ b ∷ after)
    → All IsBlock (before ++ record b { last = m + size } ∷ after)
carve_sound [] after b m size p q h =
    let v = h.0 in
    (
      record {
        placed = v.placed;
        started = omega (arith, v.started);
        within = q;
        aligned = v.aligned;
        low = v.low;
      },
      h.1,
    )
carve_sound (x ∷ before) after b m size p q h = (h.0, carve_sound before after b m size p q h.1)

-- Whether a block has room for an aligned request: the next multiple of eight and the size end in it.
abbrev pub HasRoom : ℕ → Block → Type 0
HasRoom size b = (b.last + 7) / 8 * 8 + size ≤ b.end

abbrev pub IsFull : ℕ → Block → Type 0
IsFull size b = b.end < (b.last + 7) / 8 * 8 + size

-- The test of `alloc_pool_small` in a well-formed block.
room_test :
    (b : Block) (size : ℕ)
    → IsBlock b
    → size < 2 ^ 32
    → (alloc_align_ptr b.last ≡ (b.last + 7) / 8 * 8)
      × (HasRoom size b → leb size (sub_size b.end (alloc_align_ptr b.last)) ≡ true)
      × (IsFull size b → leb size (sub_size b.end (alloc_align_ptr b.last)) ≡ false)
unfolding alloc_align_ptr
room_test b size v h =
    let e : (b.last + 7) % 2 ^ 64 % 2 ^ 32 / 8 * 8 ≡ (b.last + 7) / 8 * 8 =
      omega (arith, v.low, v.within) in
    (
      e,
      (λ room. le→leb _ _ (omega (arith, e, room, v.low, v.within, v.aligned))),
      (λ full. gt→leb _ _ (omega (arith, e, full, v.low, v.within, v.aligned))),
    )
  where
    gt→leb : (m n : ℕ) → n < m → leb m n ≡ false
    gt→leb m n p = ground (arith, p)

first_fit_lem :
    (size : ℕ) (before after : List Block) (b : Block)
    → size < 2 ^ 32
    → All IsBlock before
    → All (IsFull size) before
    → IsBlock b
    → HasRoom size b
    → let m = (b.last + 7) / 8 * 8 in
      first_fit true size (before ++ b ∷ after)
      ≡ some (m, before ++ record b { last = m + size } ∷ after)
unfolding first_fit
first_fit_lem size [] after b h vs full v room =
    let (e, fits, misses) = room_test b size v h in let t = fits room in rw (t, e) refl
first_fit_lem size (x ∷ before) after b h vs full v room =
    let (e, fits, misses) = room_test x size vs.0 h in
    let t = misses full.0 in rw (t, first_fit_lem size before after b h vs.1 full.1 v room) refl

-- Let a well-formed pool lie in the lower 4 GB, and let a block from the current one on have room for
-- the request, where those between the two have none. Then `alloc_pool_small` gives the first multiple
-- of eight behind all that this block gave out, the block is used up to the end of the request, all
-- else in the pool is unchanged, and the pool stays well-formed; `malloc` is not looked at.
pub alloc_pool_small-carves :
    (pool : Pool) (size : ℕ) (passed full after : List Block) (b : Block) (fresh : Option ℕ)
    → IsPool pool
    → pool.blocks ≡ passed ++ (full ++ b ∷ after)
    → length passed ≡ pool.current
    → All (IsFull size) full
    → HasRoom size b
    → let m = (b.last + 7) / 8 * 8 in
      let blocks = passed ++ (full ++ record b { last = m + size } ∷ after) in
      (alloc_pool_small pool size true fresh ≡ some (m, record pool { blocks = blocks }))
      × IsPool (record pool { blocks = blocks })
unfolding alloc_pool_small
alloc_pool_small-carves pool size passed full after b fresh v split here none_before room =
    let m = (b.last + 7) / 8 * 8 in
    let sound = subst (All IsBlock) split v.sound in
    let rest = All-right passed (full ++ b ∷ after) sound in
    let all_full = All-left full (b ∷ after) rest in
    let own = (All-right full (b ∷ after) rest).0 in
    let from : drop pool.current pool.blocks ≡ full ++ b ∷ after =
      rw (split, ← here) (drop-front passed (full ++ b ∷ after)) in
    let h : size < 2 ^ 32 = omega (arith, own.low, room) in
    let up_to : take pool.current pool.blocks ≡ passed =
      rw (split, ← here) (take-front passed (full ++ b ∷ after)) in
    let blocks = passed ++ (full ++ record b { last = m + size } ∷ after) in
    (
      rw (
        from,
        first_fit_lem size full after b h all_full none_before own room,
        up_to,
        alloc_pool_small,
      ),
      record {
        sound =
            All-append passed (full ++ record b { last = m + size } ∷ after)
              (All-left passed (full ++ b ∷ after) sound)
              (carve_sound full after b m size (omega arith) room rest);
        current_in = omega (
          arith,
          v.current_in,
          ap length split,
          length-append passed (full ++ b ∷ after),
          length-append full (b ∷ after),
          length-append passed (full ++ record b { last = m + size } ∷ after),
          length-append full (record b { last = m + size } ∷ after),
        );
      },
    )
