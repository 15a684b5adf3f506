-- ===== src/CircuitQueue.antt =====
-- src/kits/method/circuit_queue.hpp, at `unsigned char`, the type that nodes_testing.cpp takes.
-- The recursive mutex round every member makes each call one step; it holds no data.
-- `m_data` is the list of the allocated bytes, empty for `nullptr`. `none` is a fault: a `memcpy`
-- out of range or of a negative size, or a remainder by zero. The `int`s are taken without their
-- bound: `m_tail += length` and `m_head += length` stay below 2 ^ 31 if the size and the request are
-- at most 2 ^ 30.
pub mod Shape
pub mod Enqueue
pub mod Dequeue
pub mod Views
mod Tests
use hystack.Prelude.{
  ℕ, ◌+◌, ◌-◌, ◌%◌, Bool, true, false, not, Option, none, some, List, [], ◌++◌, ltb, leb, ◌==◌,
  if◌then◌else◌, ◌>>=◌, length, take, drop,
}
use hystack.Prelude.Int.{ℤ, pos, negsuc, pos_part, ◌+ℤ◌, ◌-ℤ◌, ltb_ℤ}
use hystack.Prelude.Slices.{memcpy}

pub record CircuitQueue : Type 0 where
  pub store : List ℕ
  pub len : ℤ
  pub size : ℕ
  pub head : ℕ
  pub tail : ℕ
  pub extra_size : ℕ

-- The constructor leaves `m_extra_size` as it finds it.
pub init : ℕ → CircuitQueue
init extra = record { store = []; len = pos 0; size = 0; head = 0; tail = 0; extra_size = extra }

-- `fresh` holds what `new T[length + extra_length]` returns.
pub create : CircuitQueue → List ℕ → ℕ → ℕ → CircuitQueue
create q fresh length extra_length = record q {
  store = fresh;
  size = length;
  extra_size = extra_length;
}

pub clear : CircuitQueue → CircuitQueue
clear q = record q { len = pos 0; head = 0; tail = 0 }

unfoldable pub get_space : CircuitQueue → ℤ
get_space q = pos q.size -ℤ q.len

unfoldable pub get_length : CircuitQueue → ℤ
get_length q = q.len

unfoldable pub get_back_data_count : CircuitQueue → ℤ
get_back_data_count q = pos q.size -ℤ pos q.head

-- The offsets of `get_read_ptr` and `get_write_ptr` from `m_data`.
pub get_read_ptr : CircuitQueue → ℕ
get_read_ptr q = q.head

pub get_write_ptr : CircuitQueue → ℕ
get_write_ptr q = q.tail

pub get_readable_len : CircuitQueue → ℤ
unfolding get_length
get_readable_len q =
    if q.head == q.tail
    then (if ltb_ℤ (pos 0) (get_length q) then pos q.size -ℤ pos q.head else pos 0)
    else if ltb q.head q.tail
    then pos q.tail -ℤ pos q.head
    else pos q.size -ℤ pos q.head

pub get_writable_len : CircuitQueue → ℤ
unfolding get_length
get_writable_len q =
    if q.head == q.tail
    then (if ltb_ℤ (pos 0) (get_length q) then pos 0 else pos q.size -ℤ pos q.tail)
    else if ltb q.head q.tail
    then pos q.size -ℤ pos q.tail
    else pos q.head -ℤ pos q.tail

-- A `memcpy` whose size is an `int`: a negative one becomes a huge `size_t`.
unfoldable pub memcpy_int : List ℕ → ℕ → List ℕ → ℕ → ℤ → Option (List ℕ)
memcpy_int dst off src start (pos n) = memcpy dst off src start n
memcpy_int dst off src start (negsuc n) = none

-- `i %= size`
unfoldable pub wrap : ℕ → ℕ → Option ℕ
wrap i size = if size == 0 then none else some (i % size)

-- The copies that `enqueue` makes at a source that is not null.
pub copy_in : CircuitQueue → List ℕ → ℕ → Option (List ℕ)
copy_in q src length =
    let back = pos q.size -ℤ pos q.tail in
    if leb q.head q.tail
    then (if ltb_ℤ back (pos length)
        then (do
          first ← memcpy_int q.store q.tail src 0 back
          memcpy_int first 0 src (pos_part back) (pos length -ℤ back))
        else memcpy q.store q.tail src 0 length)
    else memcpy q.store q.tail src 0 length

source_copy : CircuitQueue → Option (List ℕ) → ℕ → Option (List ℕ)
source_copy q none length = some q.store
source_copy q (some src) length = copy_in q src length

-- `none` for the source is `nullptr`.
pub enqueue : CircuitQueue → Option (List ℕ) → ℕ → Option (Bool × CircuitQueue)
unfolding get_space source_copy
enqueue q src length = if ltb_ℤ (get_space q) (pos length) then some (false, q) else (do
  store ← source_copy q src length
  tail ← wrap (q.tail + length) q.size
  some (true, record q { store = store; tail = tail; len = q.len +ℤ pos length }))

-- The bytes that a `memcpy` from `store + off` brings to the target.
unfoldable pub fetch : List ℕ → ℕ → ℕ → Option (List ℕ)
fetch store off n = if leb (off + n) (length store) then some (take n (drop off store)) else none

unfoldable pub fetch_int : List ℕ → ℕ → ℤ → Option (List ℕ)
fetch_int store off (pos n) = fetch store off n
fetch_int store off (negsuc n) = none

pub copy_out : CircuitQueue → ℕ → Option (List ℕ)
copy_out q length =
    if ltb q.head q.tail
    then fetch q.store q.head length
    else if ltb_ℤ (get_back_data_count q) (pos length)
    then (do
      first ← fetch_int q.store q.head (get_back_data_count q)
      rest ← fetch_int q.store 0 (pos length -ℤ get_back_data_count q)
      some (first ++ rest))
    else fetch q.store q.head length

-- The flag says whether the target is not null; with the result come the bytes put there.
pub peek : CircuitQueue → Bool → ℕ → Option (Bool × List ℕ)
unfolding copy_out
peek q target length =
    if ltb_ℤ q.len (pos length)
    then some (false, [])
    else if target
    then (do bytes ← copy_out q length; some (true, bytes))
    else some (true, [])

-- The test is `!peek(ptr_tar, length) == 0`, which C++ reads as `(!peek(…)) == 0`.
pub dequeue : CircuitQueue → Bool → ℕ → Option (Bool × List ℕ × CircuitQueue)
dequeue q target length = do
  (found, bytes) ← peek q target length
  let short = do
    head ← wrap (q.head + length) q.size
    some (true, bytes, record q { head = head; len = q.len -ℤ pos length })
  if not (not found) then some (false, bytes, q) else short

pub copy_head_data_to_extra_buffer : CircuitQueue → ℕ → Option CircuitQueue
copy_head_data_to_extra_buffer q length = do
  store ← memcpy q.store q.size q.store 0 length
  some (record q { store = store })

-- The bytes that `dump_buffer` writes to its file.
pub dump_buffer : CircuitQueue → Option (List ℕ)
dump_buffer q =
    if ltb q.head q.tail then fetch_int q.store q.head (pos q.tail -ℤ pos q.head) else (do
      first ← fetch_int q.store q.head (pos q.size -ℤ pos q.head)
      rest ← fetch q.store 0 q.tail
      some (first ++ rest))
