-- ===== src/AllocPool/Tests.antt =====
-- Pools at concrete addresses, and the theorems at them.
use hystack.Prelude.{
  ℕ, ◌+◌, ◌^◌, ◌≤◌, ◌<◌, ◌%◌, ◌≡◌, refl, true, List, [], ◌∷◌, ◌++◌, some, none, arith, All, map,
  ◌>>=◌,
}
use hystack.AllocPool.{
  Block, Pool, alloc_align_ptr, alloc_pool_create, alloc_pool_block, alloc_pool_small,
  alloc_pool_large, alloc_pool_ptr, alloc_pool_reset, alloc_pool_destory, first_fit, ptr_size,
  taken, free_blocks,
}
use hystack.AllocPool.Align.{IsPool, alloc_align_ptr_lem, alloc_pool_create-IsPool}
use hystack.AllocPool.Small.{alloc_pool_small-carves}
use hystack.AllocPool.Grow.{span, alloc_pool_block-grows, header_pool-overruns}
use hystack.AllocPool.Large.{
  Settled, extent, IsFresh, alloc_pool_large-Settled, alloc_pool_reset-IsPool,
}

-- A pool of 1 KB, 100 bytes of it given out.
abbrev block : Block
block = record { base = 4096; last = 4268; end = 5120; failed = 0 }

abbrev pool : Pool
pool = record {
  blocks = block ∷ [];
  max = 0x8fff;
  current = 0;
  large = some 9000 ∷ [];
  cleanup = [];
}

pool-IsPool : IsPool pool
pool-IsPool = record {
  sound = (
    record {
      placed = refl;
      started = omega arith;
      within = omega arith;
      aligned = refl;
      low = omega arith;
    },
    tt,
  );
  current_in = omega arith;
}

create_and_use :
    (alloc_pool_create 1024 (some 4096) >>= λ p. (alloc_pool_ptr p 100 none none).0)
    ≡ some (4168, record pool { large = [] })
unfolding alloc_pool_create alloc_pool_ptr alloc_pool_small first_fit alloc_align_ptr
create_and_use = refl

destory_frees : (alloc_pool_destory pool).1 ≡ 9000 ∷ 4096 ∷ []
unfolding alloc_pool_destory taken free_blocks
destory_frees = refl

-- A heap above 4 GB: the request gets an address from below it.
truncated :
    (alloc_pool_create 1024 (some (2 ^ 32 + 4096)) >>= λ p. (alloc_pool_ptr p 100 none none).0)
    ≡ some (
      4168,
      record pool {
        blocks = record { base = 2 ^ 32 + 4096; last = 4268; end = 2 ^ 32 + 5120; failed = 0 } ∷ [];
        large = [];
      },
    )
unfolding alloc_pool_create alloc_pool_ptr alloc_pool_small first_fit alloc_align_ptr
truncated = refl

alloc_align_ptr_example :
    (4090 + 7 < 2 ^ 32
      → (4090 ≤ alloc_align_ptr 4090)
        × (alloc_align_ptr 4090 < 4098)
        × (alloc_align_ptr 4090 % 8 ≡ 0))
    × (2 ^ 32 ≤ 4090 + 7 → 4090 < 2 ^ 32 → alloc_align_ptr 4090 ≡ 0)
    × (2 ^ 32 ≤ 4090 → alloc_align_ptr 4090 < 4090)
alloc_align_ptr_example = alloc_align_ptr_lem 4090 (omega arith)

alloc_pool_create-IsPool_example :
    IsPool (record pool { blocks = record block { last = 4168 } ∷ []; large = [] })
unfolding alloc_pool_create
alloc_pool_create-IsPool_example =
    alloc_pool_create-IsPool 1024 4096 (omega arith) refl refl (omega arith) refl

-- The first block is used no more, the second one is full, and the third has room.
abbrev three_blocks : Pool
three_blocks = record pool {
  blocks =
      record { base = 16384; last = 16500; end = 17408; failed = 5 }
      ∷ record { base = 8192; last = 9210; end = 9216; failed = 0 }
      ∷ block
      ∷ [];
  current = 1;
}

three_blocks-IsPool : IsPool three_blocks
three_blocks-IsPool = record {
  sound = (
    record {
      placed = refl;
      started = omega arith;
      within = omega arith;
      aligned = refl;
      low = omega arith;
    },
    (
      record {
        placed = refl;
        started = omega arith;
        within = omega arith;
        aligned = refl;
        low = omega arith;
      },
      pool-IsPool.sound,
    ),
  );
  current_in = omega arith;
}

alloc_pool_small-carves_example :
    (alloc_pool_small three_blocks 50 true none
      ≡ some (
        4272,
        record three_blocks {
          blocks =
              record { base = 16384; last = 16500; end = 17408; failed = 5 }
              ∷ record { base = 8192; last = 9210; end = 9216; failed = 0 }
              ∷ record block { last = 4322 }
              ∷ [];
        },
      ))
    × IsPool (record three_blocks {
      blocks =
          record { base = 16384; last = 16500; end = 17408; failed = 5 }
          ∷ record { base = 8192; last = 9210; end = 9216; failed = 0 }
          ∷ record block { last = 4322 }
          ∷ [];
    })
alloc_pool_small-carves_example =
    alloc_pool_small-carves three_blocks 50
      (record { base = 16384; last = 16500; end = 17408; failed = 5 } ∷ [])
      (record { base = 8192; last = 9210; end = 9216; failed = 0 } ∷ []) [] block none
      three_blocks-IsPool refl refl (omega arith) (omega arith)

alloc_pool_block-grows_example :
    (old : List Block) × (new : Block) × (pool' : Pool) × (alloc_pool_block pool 900 (some 8192)
      ≡ some (8224, pool'))
    × (pool'.blocks ≡ old ++ new ∷ [])
    × (map span old ≡ map span pool.blocks)
    × (new.base ≡ 8192)
    × (new.last ≡ 9124)
    × (new.last ≤ new.end)
    × IsPool pool'
unfolding ptr_size
alloc_pool_block-grows_example =
    alloc_pool_block-grows pool pool-IsPool 900 8192 (omega arith) refl refl (omega arith)

header_pool-overruns_example :
    (a : ℕ) × (pool' : Pool) × ((alloc_pool_create 72 (some 4096) >>= λ p.
    (alloc_pool_ptr p 64 none (some 8192)).0)
      ≡ some (a, pool'))
    × (8192 + 72 < a + 64)
header_pool-overruns_example =
    header_pool-overruns 4096 8192 64 refl (omega arith) refl (omega arith) (omega arith)
      (omega arith)

alloc_pool_large-Settled_example : Settled pool 7000 (alloc_pool_large pool (some 7000) none)
alloc_pool_large-Settled_example = alloc_pool_large-Settled pool 7000 none

alloc_pool_reset-IsPool_example :
    ((alloc_pool_reset pool).1 ≡ 9000 ∷ [])
    × ((alloc_pool_reset pool).0.large ≡ [])
    × All IsFresh (alloc_pool_reset pool).0.blocks
    × ((alloc_pool_reset pool).0.current ≡ 0)
    × (map extent (alloc_pool_reset pool).0.blocks ≡ (4096, 5120) ∷ [])
    × ((alloc_pool_reset pool).0.max ≡ 0x8fff)
    × ((alloc_pool_reset pool).0.cleanup ≡ [])
    × IsPool (alloc_pool_reset pool).0
unfolding taken
alloc_pool_reset-IsPool_example = alloc_pool_reset-IsPool pool pool-IsPool (omega arith)
