-- ===== src/CircuitQueue/Dequeue.antt =====
-- `peek` reads the oldest bytes; `dequeue` has its test the wrong way round.
use hystack.Prelude.{
  tabulate, ℕ, ◌+◌, ◌-◌, ◌%◌, ◌≤◌, ◌<◌, ◌≡◌, refl, inl, inr, true, false, List, [], ◌++◌, some,
  arith, ltb, if◌then◌else◌, length, get_or, take, ◌∙◌, ap, ap₂, sym, ltb→lt, le→leb, Bool-cases,
}
use hystack.Prelude.Int.{pos, negsuc, ◌-ℤ◌, sub_pos, sub_neg, lt→ltb_ℤ}
use hystack.Prelude.Slices.{tabulate-add, tabulate_ext, take_of_tabulate, block-tabulate}
use hystack.CircuitQueue.{
  CircuitQueue, copy_out, peek, dequeue, fetch, fetch_int, wrap, get_back_data_count,
}
use hystack.CircuitQueue.Shape.{
  IsValid, stored, byte_at, contents, ring_cases, tail_cases, positive, short,
}

-- In range, the bytes that a read brings.
pub fetch_lem :
    (store : List ℕ) (off n : ℕ)
    → off + n ≤ length store
    → fetch store off n ≡ some (tabulate n (λ i. get_or store (off + i) 0))
unfolding fetch
fetch_lem store off n h = rw (le→leb _ _ h, block-tabulate store off n 0 h)

module _ {q : CircuitQueue} (v : IsValid q) (n : ℕ) (fits : n ≤ q.size) where
  pub back_count : get_back_data_count q ≡ pos (q.size - q.head)
  unfolding get_back_data_count
  back_count = let h = v.head_in in sub_pos q.size q.head (omega arith)

  -- Up to the end of the ring, and round it.
  pub block : q.head + n ≤ q.size → fetch q.store q.head n ≡ some (tabulate n (byte_at q))
  block h =
      fetch_lem q.store q.head n (omega (arith, v.allocated))
      ∙ ap some (
          tabulate_ext n _ _ (λ i p.
            ap (λ j. get_or q.store j 0)
              (omega (arith, ring_cases (q.head + i) q.size (omega arith)))))

  pub around :
      (back : ℕ)
      → back ≡ q.size - q.head
      → back ≤ n
      → tabulate back (λ i. get_or q.store (q.head + i) 0)
          ++ tabulate (n - back) (λ i. get_or q.store (0 + i) 0)
        ≡ tabulate n (byte_at q)
  around back e h = sym (
      ap (λ k. tabulate k (byte_at q)) (omega arith)
      ∙ (tabulate-add back (n - back) (byte_at q)
          ∙ ap₂ ◌++◌
              (tabulate_ext back _ _ (λ i p.
                ap (λ j. get_or q.store j 0)
                  (omega
                    (arith, v.head_in, ring_cases (q.head + i) q.size (omega (arith, v.head_in))))))
              (tabulate_ext (n - back) _ _ (λ i p.
                ap (λ j. get_or q.store j 0)
                  (omega (
                    arith,
                    v.head_in,
                    v.bounded,
                    ring_cases (q.head + (back + i)) q.size (omega (arith, v.head_in, v.bounded)),
                  ))))))

  copy_out_around :
      q.tail ≤ q.head → q.size < q.head + n → copy_out q n ≡ some (tabulate n (byte_at q))
  unfolding copy_out fetch_int
  copy_out_around below over =
      rw
        (
          back_count,
          lt→ltb_ℤ (q.size - q.head) n (omega arith),
          sub_pos n (q.size - q.head) (omega (arith, v.head_in)),
        )
        (elim (Bool-cases (ltb q.head q.tail)) [
          | inl e ↦ absurd (let h = ltb→lt _ _ e in omega arith)
          | inr e ↦
              rw
                (
                  e,
                  fetch_lem q.store q.head (q.size - q.head)
                      (omega (arith, v.allocated, v.head_in)),
                  fetch_lem q.store 0 (n - (q.size - q.head)) (omega (arith, v.allocated)),
                )
                (ap some (around (q.size - q.head) refl (omega (arith, v.head_in))))
        ])

  copy_out_block : q.head + n ≤ q.size → copy_out q n ≡ some (tabulate n (byte_at q))
  unfolding copy_out
  copy_out_block h = rw back_count (ground (arith, block h))

pub copy_out-contents :
    {q : CircuitQueue}
    → IsValid q
    → (n : ℕ) → n ≤ stored q
    → copy_out q n ≡ some (take n (contents q))
copy_out-contents {q} v n held =
    elim (Bool-cases (ltb q.size (q.head + n))) [
      | inl e ↦
          copy_out_around v n (omega (arith, v.bounded))
            (omega (arith, tail_cases v, ltb→lt _ _ e, v.bounded)) (ltb→lt _ _ e)
      | inr e ↦
          let h : q.head + n ≤ q.size = ground arith in
          copy_out_block v n (omega (arith, v.bounded)) h
    ]
    ∙ ap some (sym (take_of_tabulate n (stored q) (byte_at q) held))

-- On a valid queue `peek` copies the oldest `n` bytes if there are as many, and else reports
-- that there are not and copies none.
pub peek-contents :
    {q : CircuitQueue}
    → IsValid q
    → (n : ℕ)
    → peek q true n
      ≡ (if ltb (stored q) n then some (false, []) else some (true, take n (contents q)))
unfolding peek
peek-contents {q} v n = elim (Bool-cases (ltb (stored q) n)) [
  | inl e ↦ rw (short v n, e)
  | inr e ↦ rw (short v n, e, copy_out-contents v n (ground arith))
]

-- What a `dequeue` that is not served does to the queue.
abbrev pub overdrawn : CircuitQueue → ℕ → CircuitQueue
overdrawn q n = record q { head = (q.head + n) % q.size; len = negsuc (n - stored q - 1) }

-- The result of `dequeue` on a valid queue, on both branches. Where the `n` bytes are there, it
-- copies them and then reports failure, leaving the queue as it was. Where they are not, it
-- reports success, moves the head past bytes that were never stored, and leaves a negative count.
pub dequeue_inverted :
    {q : CircuitQueue}
    → IsValid q
    → (n : ℕ)
    → dequeue q true n ≡ (
        if ltb (stored q) n
        then some (true, [], overdrawn q n)
        else some (false, take n (contents q), q))
unfolding dequeue wrap
dequeue_inverted {q} v n = elim (Bool-cases (ltb (stored q) n)) [
  | inl e ↦
      rw (peek-contents v n, e, positive v)
        (ap (λ l. some (true, [], record q { head = (q.head + n) % q.size; len = l }))
          (ap (λ l. l -ℤ pos n) v.counted ∙ sub_neg (stored q) n (ltb→lt _ _ e)))
  | inr e ↦ rw (peek-contents v n, e)
]
