-- ===== src/AllocPool/Large.antt =====
-- Large requests, the reset and the end of a pool.
use hystack.Prelude.{
  ℕ, ◌+◌, ◌≤◌, ◌≡◌, refl, ap, Bool, true, Option, none, some, List, [], ◌∷◌, ◌++◌, arith, All, ltb,
  inl, inr, Bool-cases, Option-cases, map, length-map,
}
use hystack.AllocPool.{
  Block, Pool, sizeof_pool, sizeof_pool_large, reuse, alloc_pool_small, alloc_pool_large,
  alloc_pool_block, rewind, alloc_pool_reset, taken,
}
use hystack.AllocPool.Align.{IsBlock, IsPool}

-- An entry that is reused takes the address, and none is lost.
pub record Added (p : ℕ) (ls ls' : List (Option ℕ)) : Type 0 where
  pub before : List ℕ
  pub after : List ℕ
  pub was : taken ls ≡ before ++ after
  pub becomes : taken ls' ≡ before ++ p ∷ after

reuse-Added : (p n : ℕ) (ls ls' : List (Option ℕ)) → reuse p n ls ≡ some ls' → Added p ls ls'
unfolding reuse taken
reuse-Added p n [] ls' e = cc
reuse-Added p n (none ∷ ls) ls' e =
    let s : some p ∷ ls ≡ ls' = ground arith in
    rw (← s) (record { before = []; after = taken ls; was = refl; becomes = refl })
reuse-Added p n (some a ∷ ls) ls' e = elim (Bool-cases (ltb 3 n)) [
  | inl t ↦ absurd (ground arith)
  | inr t ↦ elim (Option-cases (reuse p (n + 1) ls)) [
    | inl r ↦ absurd (ground arith)
    | inr (ls1, r) ↦
        let s : some a ∷ ls1 ≡ ls' = ground arith in
        let w = reuse-Added p (n + 1) ls ls1 r in
        rw (← s) (record {
          before = a ∷ w.before;
          after = w.after;
          was = ap (λ l. a ∷ l) w.was;
          becomes = ap (λ l. a ∷ l) w.becomes;
        })
  ]
]

small-large :
    (pool : Pool) (size : ℕ) (align : Bool) (fresh : Option ℕ) {m : ℕ} {pool' : Pool}
    → alloc_pool_small pool size align fresh ≡ some (m, pool')
    → pool'.large ≡ pool.large
unfolding alloc_pool_small alloc_pool_block
small-large pool size align none e = ground arith
small-large pool size align (some f) e = ground arith

-- What became of the address that `malloc` returned for a large request: the pool holds it beside
-- all that it held, or it was freed and the request failed.
abbrev pub Settled : Pool → ℕ → Option (ℕ × Pool) × List ℕ → Type 0
Settled pool p (none, freed) = freed ≡ p ∷ []
Settled pool p (some (a, pool'), freed) = (a ≡ p) × (freed ≡ []) × Added p pool.large pool'.large

-- `alloc_pool_large` neither leaks the memory that it gets nor loses what the pool holds, on any
-- branch.
pub alloc_pool_large-Settled :
    (pool : Pool) (p : ℕ) (fresh : Option ℕ) → Settled pool p (alloc_pool_large pool (some p) fresh)
unfolding alloc_pool_large taken
alloc_pool_large-Settled pool p fresh = elim (Option-cases (reuse p 0 pool.large)) [
  | inr (ls, e) ↦ rw (e, alloc_pool_large) (refl, refl, reuse-Added p 0 pool.large ls e)
  | inl e ↦ elim (Option-cases (alloc_pool_small pool sizeof_pool_large true fresh)) [
    | inl f ↦ rw (e, alloc_pool_large) (rw f refl)
    | inr ((m, pool'), f) ↦
        let same = small-large pool sizeof_pool_large true fresh f in
        rw (e, alloc_pool_large)
          (rw f (
            refl,
            refl,
            record {
              before = [];
              after = taken pool.large;
              was = refl;
              becomes = ap (λ ls. p ∷ taken ls) same;
            },
          ))
  ]
]

abbrev pub extent : Block → ℕ × ℕ
extent b = (b.base, b.end)

abbrev pub HasHeader : Block → Type 0
HasHeader b = b.base + sizeof_pool ≤ b.end

abbrev pub IsFresh : Block → Type 0
IsFresh b = (b.last ≡ b.base + sizeof_pool) × (b.failed ≡ 0)

rewound :
    (bs : List Block)
    → All IsBlock bs
    → All HasHeader bs
    → All IsBlock (map rewind bs)
      × All IsFresh (map rewind bs)
      × (map extent (map rewind bs) ≡ map extent bs)
rewound [] v h = (tt, tt, refl)
rewound (b ∷ bs) v h =
    let r = rewound bs v.1 h.1 in
    (
      (
        record {
          placed = v.0.placed;
          started = omega arith;
          within = h.0;
          aligned = v.0.aligned;
          low = v.0.low;
        },
        r.0,
      ),
      ((refl, refl), r.1),
      ap (λ l. extent b ∷ l) r.2,
    )

-- Let each block of a well-formed pool in the lower 4 GB have room for a header. A reset frees the
-- large allocations and forgets them; the whole of every block behind a header is free again and no
-- block has failed, the first one is current, the blocks are at the same places, the limit and the
-- clean-up entries are as they were, and the pool is well-formed.
pub alloc_pool_reset-IsPool :
    (pool : Pool)
    → IsPool pool
    → All HasHeader pool.blocks
    → let (pool', freed) = alloc_pool_reset pool in
      (freed ≡ taken pool.large)
      × (pool'.large ≡ [])
      × All IsFresh pool'.blocks
      × (pool'.current ≡ 0)
      × (map extent pool'.blocks ≡ map extent pool.blocks)
      × (pool'.max ≡ pool.max)
      × (pool'.cleanup ≡ pool.cleanup)
      × IsPool pool'
unfolding alloc_pool_reset
alloc_pool_reset-IsPool pool v room =
    let r = rewound pool.blocks v.sound room in
    (
      refl,
      refl,
      r.1,
      refl,
      r.2,
      refl,
      refl,
      record {
        sound = r.0;
        current_in = omega (arith, v.current_in, length-map pool.blocks rewind);
      },
    )
