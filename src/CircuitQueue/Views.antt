-- ===== src/CircuitQueue/Views.antt =====
-- The members that look at a queue or reset it, and `dump_buffer`.
use hystack.Prelude.{
  tabulate, ℕ, ◌+◌, ◌-◌, ◌≤◌, ◌<◌, ◌≡◌, refl, inl, inr, true, false, List, [], ◌++◌, some, arith,
  ltb, ◌==◌, if◌then◌else◌, length, get_or, take, ◌∙◌, length-take, ap, sym, ltb→lt, Bool-cases,
}
use hystack.Prelude.Int.{sub_pos}
use native.Mathlib.Nat.{mod-lt}
use hystack.Prelude.Slices.{
  tabulate_ext, splice, get_or-take, memcpy_lem, splice_before, splice_inside,
}
use hystack.CircuitQueue.{
  CircuitQueue, init, create, clear, copy_head_data_to_extra_buffer, dump_buffer, fetch_int,
}
use hystack.CircuitQueue.Shape.{IsValid, stored, byte_at, contents, tail_cases, mod_inside}
use hystack.CircuitQueue.Dequeue.{fetch_lem, around, block}

-- A queue that was never used is valid and empty after `create` with a positive size and as many
-- bytes allocated as the size and the extra space say.
pub create-IsValid :
    (extra : ℕ) (fresh : List ℕ) (n more : ℕ)
    → 0 < n
    → length fresh ≡ n + more
    → IsValid (create (init extra) fresh n more)
      × (contents (create (init extra) fresh n more) ≡ [])
unfolding create init
create-IsValid extra fresh n more p e = (
  record {
    nonempty = p;
    allocated = omega arith;
    counted = refl;
    bounded = omega arith;
    head_in = p;
    tail_at = sym (mod_inside 0 n p);
  },
  refl,
)

-- `clear` makes a valid ring empty and keeps it valid.
pub clear-IsValid : {q : CircuitQueue} → IsValid q → IsValid (clear q) × (contents (clear q) ≡ [])
unfolding clear
clear-IsValid {q} v = (
  record {
    nonempty = v.nonempty;
    allocated = v.allocated;
    counted = refl;
    bounded = omega arith;
    head_in = v.nonempty;
    tail_at = sym (mod_inside 0 q.size v.nonempty);
  },
  refl,
)

-- `create` on a queue in use keeps the old counters: with more bytes stored than the new size
-- the queue that results is not valid.
pub create_stale :
    (q : CircuitQueue) (fresh : List ℕ) (n more : ℕ)
    → n < stored q
    → ¬ IsValid (create q fresh n more)
unfolding create
create_stale q fresh n more over v = absurd (omega (arith, v.bounded))

module _ {q : CircuitQueue} (v : IsValid q) where
  dump_two :
      (n : ℕ)
      → n ≤ q.size
      → q.size - q.head + q.tail ≡ n
      → ltb q.head q.tail ≡ false
      → dump_buffer q ≡ some (tabulate n (byte_at q))
  unfolding dump_buffer fetch_int
  dump_two n fits e out =
      let h = v.head_in in
      let last : q.tail ≡ n - (q.size - q.head) = omega arith in
      rw
        (
          out,
          sub_pos q.size q.head (omega arith),
          fetch_lem q.store q.head (q.size - q.head) (omega (arith, v.allocated)),
          fetch_lem q.store 0 q.tail (omega (arith, v.allocated, tail_cases v)),
        )
        (ap some (
          ap
            (λ k.
              tabulate (q.size - q.head) (λ i. get_or q.store (q.head + i) 0)
              ++ tabulate k (λ i. get_or q.store (0 + i) 0))
            last
          ∙ around v n fits (q.size - q.head) refl (omega arith)))

  dump_one : ltb q.head q.tail ≡ true → dump_buffer q ≡ some (contents q)
  unfolding dump_buffer fetch_int
  dump_one e =
      let h = ltb→lt _ _ e in
      let t : q.tail ≡ q.head + stored q = omega (arith, tail_cases v, v.bounded) in
      let k : q.tail - q.head ≡ stored q = omega arith in
      rw (e, sub_pos q.tail q.head (omega arith), k)
        (block v (stored q) v.bounded (omega (arith, tail_cases v)))

-- `dump_buffer` writes the stored bytes, oldest first, unless there are none: then it writes a
-- whole turn of the ring, bytes that are not in the queue.
pub dump_buffer-contents :
    {q : CircuitQueue}
    → IsValid q
    → dump_buffer q ≡ some (if stored q == 0 then tabulate q.size (byte_at q) else contents q)
dump_buffer-contents {q} v = elim (Bool-cases (ltb q.head q.tail)) [
  | inl e ↦
      let h = ltb→lt _ _ e in
      let z : (stored q == 0) ≡ false = ground (arith, tail_cases v) in rw z (dump_one v e)
  | inr e ↦ elim (Bool-cases (stored q == 0)) [
    | inl z ↦ rw z (dump_two v q.size (omega arith) (ground (arith, tail_cases v)) e)
    | inr z ↦ rw z (dump_two v (stored q) v.bounded (ground (arith, tail_cases v)) e)
  ]
]

-- With room for `n` bytes behind the ring, the copy succeeds, leaves the stored bytes alone, and
-- lets the first `n` bytes of the ring be read on past its end.
pub copy_head-extends :
    {q : CircuitQueue}
    → IsValid q
    → (n : ℕ) → n ≤ q.extra_size
    → n ≤ q.size
    → (q' : CircuitQueue) × (copy_head_data_to_extra_buffer q n ≡ some q')
      × (contents q' ≡ contents q)
      × ((i : ℕ) → i < n → get_or q'.store (q.size + i) 0 ≡ get_or q'.store i 0)
unfolding copy_head_data_to_extra_buffer
copy_head-extends {q} v n room fits =
    let len : length (take n q.store) ≡ n = omega (arith, length-take n q.store, v.allocated) in
    let inside : q.size + length (take n q.store) ≤ length q.store = omega (arith, v.allocated) in
    (
      record q { store = splice q.store q.size (take n q.store) },
      rw (
          memcpy_lem q.store q.size q.store 0 n (omega (arith, v.allocated))
            (omega (arith, v.allocated))),
      tabulate_ext (stored q) _ _
          (λ i p. splice_before q.store q.size _ 0 inside _ (mod-lt (q.head + i) v.nonempty)),
      λ i p.
          splice_inside q.store q.size _ 0 inside _ i refl (omega arith)
          ∙ (get_or-take n q.store i 0 p
              ∙ sym (splice_before q.store q.size _ 0 inside i (omega arith))),
    )
