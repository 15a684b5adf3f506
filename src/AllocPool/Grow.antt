-- ===== src/AllocPool/Grow.antt =====
-- A request that needs a new block, and what happens when it does not fit in one.
use hystack.Prelude.{
  ℕ, ◌+◌, ◌%◌, ◌^◌, ◌≤◌, ◌<◌, ◌≡◌, refl, ap, ◌∙◌, true, false, Option, none, some, List, [], ◌∷◌,
  ◌++◌, arith, All, length, take, drop, leb, le→leb, ltb, if◌then◌else◌, ◌>>=◌, sym, length-append,
  length-take, length-drop, map, append_assoc, length-map, take-append-drop,
}
use hystack.AllocPool.{
  Block, Pool, alloc_align_ptr, sub_size, sizeof_pool_data, sizeof_pool, note_failures, ptr_size,
  new_block, alloc_pool_block, alloc_pool_small, first_fit, alloc_pool_ptr, alloc_pool_create,
}
use hystack.AllocPool.Align.{IsBlock, IsPool, alloc_align_ptr_lem}
use hystack.AllocPool.Small.{All-append, All-take, All-drop}

-- Where a block lies and how far it is used.
abbrev pub span : Block → ℕ × ℕ × ℕ
span b = (b.base, b.last, b.end)

record Walked (at current : ℕ) (bs : List Block) (r : List Block × ℕ) : Type 0 where
  sound : All IsBlock r.0
  spans : map span r.0 ≡ map span bs
  onward : current ≤ r.1
  ends : r.1 ≤ at + length bs

note_failures-Walked :
    (bs : List Block) (at current : ℕ)
    → All IsBlock bs
    → current ≤ at
    → Walked at current bs (note_failures at current bs)
unfolding note_failures
note_failures-Walked [] at current v h = record {
  sound = tt;
  spans = refl;
  onward = omega arith;
  ends = omega arith;
}
note_failures-Walked (b ∷ []) at current v h = record {
  sound = v;
  spans = refl;
  onward = omega arith;
  ends = omega arith;
}
note_failures-Walked (b ∷ c ∷ bs) at current v h =
    let next : ℕ = if ltb 4 b.failed then at + 1 else current in
    let w = note_failures-Walked (c ∷ bs) (at + 1) next v.1 (ground arith) in
    record {
      sound = (
        record {
          placed = v.0.placed;
          started = v.0.started;
          within = v.0.within;
          aligned = v.0.aligned;
          low = v.0.low;
        },
        w.sound,
      );
      spans = ap (λ l. span b ∷ l) w.spans;
      onward = let n : current ≤ next = ground arith in omega (arith, w.onward, n);
      ends = omega (arith, w.ends);
    }

map-append' : (xs ys : List Block) → map span (xs ++ ys) ≡ map span xs ++ map span ys
map-append' [] ys = refl
map-append' (x ∷ xs) ys = ap (λ l. span x ∷ l) (map-append' xs ys)

length-map-span : (xs ys : List Block) → map span xs ≡ map span ys → length xs ≡ length ys
length-map-span xs ys e = sym (length-map xs span) ∙ (ap length e ∙ length-map ys span)

module _ (pool : Pool) (v : IsPool pool) where
  walked : List Block × ℕ
  walked = note_failures pool.current pool.current (drop pool.current pool.blocks)

  walk : Walked pool.current pool.current (drop pool.current pool.blocks) walked
  unfolding walked
  walk =
      note_failures-Walked (drop pool.current pool.blocks) pool.current pool.current
        (All-drop pool.current pool.blocks v.sound) (omega arith)

  grown : ℕ → ℕ → Pool
  unfolding walked
  grown m size = record pool {
    blocks =
        take pool.current pool.blocks ++ (walked.0 ++ new_block m (ptr_size pool.blocks) size ∷ []);
    current = walked.1;
  }

  old_spans : map span (take pool.current pool.blocks ++ walked.0) ≡ map span pool.blocks
  old_spans =
      map-append' (take pool.current pool.blocks) walked.0
      ∙ (ap (λ l. map span (take pool.current pool.blocks) ++ l) walk.spans
          ∙ (sym (map-append' (take pool.current pool.blocks) (drop pool.current pool.blocks))
              ∙ ap (map span) (take-append-drop pool.current pool.blocks)))

  grown-IsPool :
      (m size : ℕ) → IsBlock (new_block m (ptr_size pool.blocks) size) → IsPool (grown m size)
  unfolding grown
  grown-IsPool m size n = record {
    sound =
        All-append (take pool.current pool.blocks) _ (All-take pool.current pool.blocks v.sound)
          (All-append walked.0 _ walk.sound (n, tt));
    current_in = omega (
      arith,
      v.current_in,
      walk.ends,
      length-append (take pool.current pool.blocks)
          (walked.0 ++ new_block m (ptr_size pool.blocks) size ∷ []),
      length-append walked.0 (new_block m (ptr_size pool.blocks) size ∷ []),
      length-take pool.current pool.blocks,
      length-drop pool.current pool.blocks,
      length-map-span walked.0 (drop pool.current pool.blocks) walk.spans,
    );
  }

  -- Let a well-formed pool lie in the lower 4 GB, with a first block whose size is a multiple of
  -- eight, let `malloc` give a block of that size there too, at a multiple of eight, and let the
  -- request and the header fit in it. Then `alloc_pool_block` gives out the bytes behind the header
  -- of the new block, inside it and aligned, and the pool stays well-formed; the blocks that were
  -- there keep their bounds and their free space.
  pub alloc_pool_block-grows :
      (size m : ℕ)
      → sizeof_pool_data + size ≤ ptr_size pool.blocks
      → ptr_size pool.blocks % 8 ≡ 0
      → m % 8 ≡ 0
      → m + ptr_size pool.blocks + 8 < 2 ^ 32
      → (old : List Block) × (new : Block) × (pool' : Pool) × (alloc_pool_block pool size (some m)
          ≡ some (m + sizeof_pool_data, pool'))
        × (pool'.blocks ≡ old ++ new ∷ [])
        × (map span old ≡ map span pool.blocks)
        × (new.base ≡ m)
        × (new.last ≡ m + sizeof_pool_data + size)
        × (new.last ≤ new.end)
        × IsPool pool'
  unfolding alloc_pool_block grown new_block
  alloc_pool_block-grows size m fits even place low =
      let a = (alloc_align_ptr_lem (m + 32) (omega arith)).0 (omega arith) in
      let e : alloc_align_ptr (m + 32) ≡ m + 32 = omega arith in
      let b = new_block m (ptr_size pool.blocks) size in
      (
        take pool.current pool.blocks ++ walked.0,
        b,
        grown m size,
        ap (λ x. some (x, grown m size)) e,
        sym (append_assoc (take pool.current pool.blocks) walked.0 (b ∷ [])),
        old_spans,
        refl,
        omega arith,
        omega arith,
        grown-IsPool m size (record {
          placed = place;
          started = omega arith;
          within = omega arith;
          aligned = omega arith;
          low = omega arith;
        }),
      )

-- Whether a request and a header fit in a block is not tested. Where they do not, the bytes
-- given out end behind the memory that `malloc` returned.
pub alloc_pool_block-overruns :
    (pool : Pool) (size m : ℕ) {a : ℕ} {pool' : Pool}
    → ptr_size pool.blocks < sizeof_pool_data + size
    → m % 8 ≡ 0
    → m + sizeof_pool_data + 8 < 2 ^ 32
    → alloc_pool_block pool size (some m) ≡ some (a, pool')
    → m + ptr_size pool.blocks < a + size
unfolding alloc_pool_block
alloc_pool_block-overruns pool size m {a} over place low e =
    let c = (alloc_align_ptr_lem (m + 32) (omega arith)).0 (omega arith) in
    let same : alloc_align_ptr (m + 32) ≡ a = ground arith in omega arith

small_request :
    (pool : Pool) (size : ℕ) (big fresh : Option ℕ)
    → size + sizeof_pool ≤ pool.max
    → alloc_pool_ptr pool size big fresh ≡ (alloc_pool_small pool size true fresh, [])
unfolding alloc_pool_ptr
small_request pool size big fresh h = rw (le→leb _ _ h)

no_room :
    (pool : Pool) (size : ℕ) (fresh : Option ℕ)
    → first_fit true size (drop pool.current pool.blocks) ≡ none
    → alloc_pool_small pool size true fresh ≡ alloc_pool_block pool size fresh
unfolding alloc_pool_small
no_room pool size fresh e = rw (e, alloc_pool_small)

abbrev header_pool : ℕ → Pool
header_pool p = record {
  blocks = record { base = p; last = p + sizeof_pool; end = p + sizeof_pool; failed = 0 } ∷ [];
  max = 0x8fff;
  current = 0;
  large = [];
  cleanup = [];
}

-- Let `malloc` give two addresses in the lower 4 GB that are multiples of eight. So it is then with
-- every request of more than 40 bytes, and at most 0x8fff less 72, to a pool of `sizeof(tag_pool)`,
-- the size that event_accpet.cpp gives the pool of a connection: the pool is full from the start, and
-- the request, passed on as a small one, gets bytes that end behind its block of 72.
pub header_pool-overruns :
    (p m size : ℕ)
    → p % 8 ≡ 0
    → p + sizeof_pool + 8 < 2 ^ 32
    → m % 8 ≡ 0
    → m + sizeof_pool_data + 8 < 2 ^ 32
    → 40 < size
    → size + sizeof_pool ≤ 0x8fff
    → (a : ℕ) × (pool' : Pool) × ((alloc_pool_create sizeof_pool (some p) >>= λ pool.
          (alloc_pool_ptr pool size none (some m)).0)
        ≡ some (a, pool'))
      × (m + sizeof_pool < a + size)
unfolding alloc_pool_create first_fit alloc_pool_block ptr_size note_failures
header_pool-overruns p m size hp lp hm lm big small =
    let c = (alloc_align_ptr_lem (p + 72) (omega arith)).0 (omega arith) in
    let d = (alloc_align_ptr_lem (m + 32) (omega arith)).0 (omega arith) in
    let e : alloc_align_ptr (p + 72) ≡ p + 72 = omega arith in
    let none_left : leb size (sub_size (p + 72) (alloc_align_ptr (p + 72))) ≡ false =
      rw e (ground arith) in
    (
      alloc_align_ptr (m + 32),
      record {
        blocks =
            record { base = p; last = p + 72; end = p + 72; failed = 0 }
            ∷ new_block m (sub_size (p + 72) p) size
            ∷ [];
        max = 0x8fff;
        current = 0;
        large = [];
        cleanup = [];
      },
      ap (λ r. r.0) (small_request (header_pool p) size none (some m) small)
          ∙ no_room (header_pool p) size (some m) (rw none_left),
      omega arith,
    )
