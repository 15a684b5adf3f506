-- ===== src/AllocPool.antt =====
-- src/kits/alloc/alloc_pool.cpp and .h, at 64 bits: an address is a number, `size_t` wraps at
-- 2 ^ 64, and the structs have their sizes on x86-64. The blocks of a pool are a list in the order
-- of `d.next`, and `current` is a place in it. What `malloc` returns is an argument, `none` for
-- `nullptr`; what `free` and the clean-up handlers are called on is a result.
pub mod Align
pub mod Small
pub mod Grow
pub mod Large
mod Tests
use hystack.Prelude.{
  ℕ, zero, suc, ◌+◌, ◌-◌, ◌*◌, ◌/◌, ◌%◌, ◌^◌, Bool, true, false, Option, none, some, List, [], ◌∷◌,
  ◌++◌, map, ltb, leb, ◌==◌, if◌then◌else◌, ◌>>=◌, length, take, drop,
}

abbrev pub sizeof_pool : ℕ
sizeof_pool = 72

abbrev pub sizeof_pool_data : ℕ
sizeof_pool_data = 32

abbrev pub sizeof_pool_large : ℕ
sizeof_pool_large = 16

abbrev pub sizeof_pool_cleanup : ℕ
sizeof_pool_cleanup = 24

-- `tag_pool_data` of one block, with the address of the block.
pub record Block : Type 0 where
  pub base : ℕ
  pub last : ℕ
  pub end : ℕ
  pub failed : ℕ

-- A registered clean-up: whether it has a handler, and the argument of that.
pub record Cleanup : Type 0 where
  pub handler : Option ℕ
  pub argument : Option ℕ

-- The fields of the first block beyond `d`. A large allocation is the address in `alloc`.
pub record Pool : Type 0 where
  pub blocks : List Block
  pub max : ℕ
  pub current : ℕ
  pub large : List (Option ℕ)
  pub cleanup : List Cleanup

-- `alloc_align_ptr` with `alloc_align_ment`, 8. The mask is an `unsigned int`, so its complement
-- clears the upper 32 bits of the address as well as the lower three.
unfoldable pub alloc_align_ptr : ℕ → ℕ
alloc_align_ptr p = (p + 7) % 2 ^ 64 % 2 ^ 32 / 8 * 8

-- `(size_t)(a - b)`
abbrev pub sub_size : ℕ → ℕ → ℕ
sub_size a b = (a + 2 ^ 64 - b) % 2 ^ 64

pub alloc_pool_create : ℕ → Option ℕ → Option Pool
alloc_pool_create size none = none
alloc_pool_create size (some p) = some (record {
  blocks = record { base = p; last = p + sizeof_pool; end = p + size; failed = 0 } ∷ [];
  max = 0x8fff;
  current = 0;
  large = [];
  cleanup = [];
})

-- The loop of `alloc_pool_block`: every block but the last one fails once more, and a block that
-- had failed five times or more is passed over from now on.
unfoldable pub note_failures : ℕ → ℕ → List Block → List Block × ℕ
note_failures at current [] = ([], current)
note_failures at current (b ∷ []) = (b ∷ [], current)
note_failures at current (b ∷ c ∷ bs) =
    let (rest, current') =
      note_failures (at + 1) (if ltb 4 b.failed then at + 1 else current) (c ∷ bs) in
    (record b { failed = (b.failed + 1) % 2 ^ 32 } ∷ rest, current')

-- The size of the first block.
unfoldable pub ptr_size : List Block → ℕ
ptr_size [] = 0
ptr_size (b ∷ bs) = sub_size b.end b.base

-- The block that `alloc_pool_block` makes of the memory at `m`.
unfoldable pub new_block : ℕ → ℕ → ℕ → Block
new_block m block_size size = record {
  base = m;
  last = alloc_align_ptr (m + sizeof_pool_data) + size;
  end = m + block_size;
  failed = 0;
}

pub alloc_pool_block : Pool → ℕ → Option ℕ → Option (ℕ × Pool)
alloc_pool_block pool size none = none
alloc_pool_block pool size (some m) =
    let (walked, current') =
      note_failures pool.current pool.current (drop pool.current pool.blocks) in
    some (
      alloc_align_ptr (m + sizeof_pool_data),
      record pool {
        blocks =
            take pool.current pool.blocks
            ++ (walked ++ new_block m (ptr_size pool.blocks) size ∷ []);
        current = current';
      },
    )

-- The start of a request in a block, aligned on demand.
abbrev pub start : Bool → Block → ℕ
start align b = if align then alloc_align_ptr b.last else b.last

-- The loop of `alloc_pool_small` over the blocks from `current` on.
pub first_fit : Bool → ℕ → List Block → Option (ℕ × List Block)
first_fit align size [] = none
first_fit align size (b ∷ bs) =
    let rest = (do (m, bs') ← first_fit align size bs; some (m, b ∷ bs')) in
    if leb size (sub_size b.end (start align b))
    then some (start align b, record b { last = start align b + size } ∷ bs)
    else rest

pub alloc_pool_small : Pool → ℕ → Bool → Option ℕ → Option (ℕ × Pool)
alloc_pool_small pool size align fresh =
    elim (first_fit align size (drop pool.current pool.blocks)) [
      | none ↦ alloc_pool_block pool size fresh
      | some (m, bs) ↦ some (m, record pool { blocks = take pool.current pool.blocks ++ bs })
    ]

-- The loop of `alloc_pool_large`: a free entry among the first five takes the address.
pub reuse : ℕ → ℕ → List (Option ℕ) → Option (List (Option ℕ))
reuse p n [] = none
reuse p n (none ∷ ls) = some (some p ∷ ls)
reuse p n (some a ∷ ls) =
    let rest = (do ls' ← reuse p (n + 1) ls; some (some a ∷ ls')) in if ltb 3 n then none else rest

-- The result, and what was freed: `p` if no entry could be made.
pub alloc_pool_large : Pool → Option ℕ → Option ℕ → Option (ℕ × Pool) × List ℕ
alloc_pool_large pool none fresh = (none, [])
alloc_pool_large pool (some p) fresh = elim (reuse p 0 pool.large) [
  | some ls ↦ (some (p, record pool { large = ls }), [])
  | none ↦ elim (alloc_pool_small pool sizeof_pool_large true fresh) [
    | none ↦ (none, p ∷ [])
    | some (_, pool') ↦ (some (p, record pool' { large = some p ∷ pool'.large }), [])
  ]
]

pub alloc_pool_ptr : Pool → ℕ → Option ℕ → Option ℕ → Option (ℕ × Pool) × List ℕ
alloc_pool_ptr pool size big fresh =
    if leb (size + sizeof_pool) pool.max
    then (alloc_pool_small pool size true fresh, [])
    else alloc_pool_large pool big fresh

-- The addresses of the entries that are not null.
unfoldable pub taken : List (Option ℕ) → List ℕ
taken [] = []
taken (none ∷ ls) = taken ls
taken (some a ∷ ls) = a ∷ taken ls

abbrev rewind : Block → Block
rewind b = record b { last = b.base + sizeof_pool; failed = 0 }

-- The pool after the reset, and what was freed.
pub alloc_pool_reset : Pool → Pool × List ℕ
alloc_pool_reset pool =
    (record pool { blocks = map rewind pool.blocks; current = 0; large = [] }, taken pool.large)

-- The handlers run, with their arguments, in the order of the list.
unfoldable pub handlers : List Cleanup → List (ℕ × Option ℕ)
handlers [] = []
handlers (c ∷ cs) = elim c.handler [ none ↦ handlers cs | some f ↦ (f, c.argument) ∷ handlers cs ]

-- The loop with `p` and the block behind it, `n`.
unfoldable pub free_blocks : Block → List Block → List ℕ
free_blocks p [] = p.base ∷ []
free_blocks p (n ∷ bs) = p.base ∷ free_blocks n bs

-- The handlers run, and what was freed. (A pool has a first block.)
pub alloc_pool_destory : Pool → List (ℕ × Option ℕ) × List ℕ
alloc_pool_destory pool = elim pool.blocks [
  | [] ↦ ([], [])
  | p ∷ bs ↦ (handlers pool.cleanup, taken pool.large ++ free_blocks p bs)
]

-- The clean-up entry has no handler until the caller sets one. The four arguments are what
-- `malloc` returns, for the entry and for its data.
pub alloc_pool_add_cleanup :
    Pool → ℕ → (big fresh big_data fresh_data : Option ℕ) → Option Pool × List ℕ
alloc_pool_add_cleanup pool size big fresh big_data fresh_data =
    let (c, freed) = alloc_pool_ptr pool sizeof_pool_cleanup big fresh in
    elim c [
      | none ↦ (none, freed)
      | some (_, pool') ↦
          if ltb 0 size
          then (let (d, freed') = alloc_pool_ptr pool' size big_data fresh_data in
              elim d [
                | none ↦ (none, freed ++ freed')
                | some (p, pool'') ↦ (
                  some (record pool'' {
                    cleanup = record { handler = none; argument = some p } ∷ pool''.cleanup;
                  }),
                  freed ++ freed',
                )
              ])
          else (
            some (record pool' {
              cleanup = record { handler = none; argument = none } ∷ pool'.cleanup;
            }),
            freed,
          )
    ]
