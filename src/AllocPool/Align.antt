-- ===== src/AllocPool/Align.antt =====
-- `alloc_align_ptr` below and above 2 ^ 32, and the well-formed blocks and pools.
use hystack.Prelude.{ℕ, ◌+◌, ◌%◌, ◌^◌, ◌≤◌, ◌<◌, ◌≡◌, arith, All, length, some}
use hystack.AllocPool.{Block, Pool, alloc_align_ptr, alloc_pool_create, sizeof_pool}

-- Up to 2 ^ 32 - 8 the result is the next multiple of eight. For the seven addresses from there to
-- 2 ^ 32 it is 0, and from 2 ^ 32 on it lies below the argument.
pub alloc_align_ptr_lem :
    (p : ℕ)
    → p + 8 < 2 ^ 64
    → (p + 7 < 2 ^ 32
        → (p ≤ alloc_align_ptr p) × (alloc_align_ptr p < p + 8) × (alloc_align_ptr p % 8 ≡ 0))
      × (2 ^ 32 ≤ p + 7 → p < 2 ^ 32 → alloc_align_ptr p ≡ 0)
      × (2 ^ 32 ≤ p → alloc_align_ptr p < p)
unfolding alloc_align_ptr
alloc_align_ptr_lem p h = omega arith

-- A block in the lower 4 GB whose bounds are aligned, with its free space behind `last`.
pub record IsBlock (b : Block) : Type 0 where
  pub placed : b.base % 8 ≡ 0
  pub started : b.base ≤ b.last
  pub within : b.last ≤ b.end
  pub aligned : b.end % 8 ≡ 0
  pub low : b.end + 8 < 2 ^ 32

pub record IsPool (pool : Pool) : Type 0 where
  pub sound : All IsBlock pool.blocks
  pub current_in : pool.current < length pool.blocks

-- `alloc_pool_create` gives a well-formed pool for a multiple of eight that holds the header.
pub alloc_pool_create-IsPool :
    (size p : ℕ) {pool : Pool}
    → sizeof_pool ≤ size
    → size % 8 ≡ 0
    → p % 8 ≡ 0
    → p + size + 8 < 2 ^ 32
    → alloc_pool_create size (some p) ≡ some pool
    → IsPool pool
unfolding alloc_pool_create
alloc_pool_create-IsPool size p h a b low e = ground arith
