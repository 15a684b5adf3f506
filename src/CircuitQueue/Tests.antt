-- ===== src/CircuitQueue/Tests.antt =====
-- A ring of four bytes with one spare, and the theorems at it.
use hystack.Prelude.{ℕ, ◌+◌, ◌≡◌, refl, true, false, [], ◌∷◌, some, arith, get_or, ◌<◌}
use hystack.Prelude.Int.{pos, negsuc, ◌+ℤ◌, ◌-ℤ◌}
use hystack.Prelude.Slices.{memcpy}
use hystack.CircuitQueue.{
  copy_in, wrap, memcpy_int, copy_out, fetch, fetch_int, get_back_data_count, CircuitQueue, enqueue,
  dequeue, peek, copy_head_data_to_extra_buffer, dump_buffer,
}
use hystack.CircuitQueue.Shape.{IsValid, contents}
use hystack.CircuitQueue.Enqueue.{enqueue-contents}
use hystack.CircuitQueue.Dequeue.{peek-contents, dequeue_inverted}
use hystack.CircuitQueue.Views.{dump_buffer-contents, copy_head-extends}

-- Bytes 7, 8 and 9 round the end of the ring.
abbrev wrapped : CircuitQueue
wrapped = record {
  store = 8 ∷ 9 ∷ 0 ∷ 7 ∷ 0 ∷ [];
  len = pos 3;
  size = 4;
  head = 3;
  tail = 2;
  extra_size = 1;
}

wrapped-IsValid : IsValid wrapped
wrapped-IsValid = record {
  nonempty = omega arith;
  allocated = omega arith;
  counted = refl;
  bounded = omega arith;
  head_in = omega arith;
  tail_at = refl;
}

contents-wrapped : contents wrapped ≡ 7 ∷ 8 ∷ 9 ∷ []
contents-wrapped = refl

enqueue_runs :
    enqueue (record wrapped { len = pos 1; tail = 0 }) (some (1 ∷ 2 ∷ 3 ∷ [])) 3
    ≡ some (true, record wrapped { store = 1 ∷ 2 ∷ 3 ∷ 7 ∷ 0 ∷ []; len = pos 4; tail = 3 })
unfolding enqueue copy_in wrap memcpy memcpy_int ◌+ℤ◌ ◌-ℤ◌
enqueue_runs = refl

dequeue_runs : dequeue wrapped true 2 ≡ some (false, 7 ∷ 8 ∷ [], wrapped)
unfolding dequeue peek copy_out fetch fetch_int get_back_data_count ◌-ℤ◌
dequeue_runs = refl

enqueue-contents_example :
    (q' : CircuitQueue) × (enqueue wrapped (some (5 ∷ 6 ∷ [])) 1 ≡ some (true, q'))
    × IsValid q'
    × (contents q' ≡ 7 ∷ 8 ∷ 9 ∷ 5 ∷ [])
    × (q'.size ≡ 4)
enqueue-contents_example =
    enqueue-contents wrapped-IsValid (5 ∷ 6 ∷ []) 1 (omega arith) (omega arith)

peek-contents_example : peek wrapped true 2 ≡ some (true, 7 ∷ 8 ∷ [])
peek-contents_example = peek-contents wrapped-IsValid 2

dequeue_inverted_example :
    dequeue wrapped true 4 ≡ some (true, [], record wrapped { len = negsuc 0 })
dequeue_inverted_example = dequeue_inverted wrapped-IsValid 4

dump_buffer-contents_example : dump_buffer wrapped ≡ some (7 ∷ 8 ∷ 9 ∷ [])
dump_buffer-contents_example = dump_buffer-contents wrapped-IsValid

copy_head-extends_example :
    (q' : CircuitQueue) × (copy_head_data_to_extra_buffer wrapped 1 ≡ some q')
    × (contents q' ≡ 7 ∷ 8 ∷ 9 ∷ [])
    × ((i : ℕ) → i < 1 → get_or q'.store (4 + i) 0 ≡ get_or q'.store i 0)
copy_head-extends_example = copy_head-extends wrapped-IsValid 1 (omega arith) (omega arith)
