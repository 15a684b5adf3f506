-- ===== src/CircuitQueue/Enqueue.antt =====
-- `enqueue` appends to the stored bytes, in one block or in two.
use native.Mathlib.Nat.{mod-add-mod}
use hystack.Prelude.{
  ℕ, ◌+◌, ◌-◌, ◌%◌, ◌≤◌, ◌<◌, ◌≡◌, refl, inl, inr, true, List, ◌++◌, some, arith, ltb, length,
  get_or, take, drop, ◌∙◌, length-take, length-drop, ap, ap₂, sym, ltb→lt, le→leb, Bool-cases,
}
use hystack.Prelude.Int.{pos, ◌-ℤ◌, sub_pos, lt→ltb_ℤ, le→ltb_ℤ}
use hystack.Prelude.Slices.{
  splice, length-splice, splice_before, splice_inside, splice_after, memcpy, memcpy_lem,
  get_or-take, get_or-drop, tabulate-add, tabulate_ext, take-tabulate,
}
use hystack.CircuitQueue.{CircuitQueue, copy_in, enqueue, memcpy_int, wrap}
use hystack.CircuitQueue.Shape.{
  IsValid, stored, byte_at, contents, ring_cases, tail_cases, space, more, positive,
}

-- The stored bytes stay, and `n` new ones follow them round the ring.
record Written (q : CircuitQueue) (src : List ℕ) (n : ℕ) (store : List ℕ) : Type 0 where
  same_length : length store ≡ length q.store
  kept : (i : ℕ) → i < stored q → get_or store ((q.head + i) % q.size) 0 ≡ byte_at q i
  added : (i : ℕ) → i < n → get_or store ((q.head + (stored q + i)) % q.size) 0 ≡ get_or src i 0

module _ {q : CircuitQueue} (v : IsValid q) (src : List ℕ) (n : ℕ) (given : n ≤ length src)
    (room : stored q + n ≤ q.size) where
  one_block : q.tail + n ≤ q.size → Written q src n (splice q.store q.tail (take n src))
  one_block fits =
      let len : length (take n src) ≡ n = omega (arith, length-take n src) in
      let inside : q.tail + length (take n src) ≤ length q.store = omega (arith, v.allocated) in
      record {
        same_length = length-splice q.store q.tail (take n src) 0 inside;
        kept = λ i h. elim (ring_cases (q.head + i) q.size (omega arith)) [
          | inl c ↦ elim (tail_cases v) [
            | inl t ↦ splice_before q.store q.tail (take n src) 0 inside _ (omega arith)
            | inr t ↦ splice_after q.store q.tail (take n src) 0 inside _ (omega arith)
          ]
          | inr c ↦
              splice_before q.store q.tail (take n src) 0 inside _ (omega (arith, tail_cases v))
        ];
        added = λ i h.
            splice_inside q.store q.tail (take n src) 0 inside _ i
              (omega
                (arith, tail_cases v, ring_cases (q.head + (stored q + i)) q.size (omega arith)))
              (omega arith)
            ∙ get_or-take n src i 0 h;
      }

  module _ (over : q.size < q.tail + n) where
    back : ℕ
    back = q.size - q.tail

    first : List ℕ
    unfolding back
    first = splice q.store q.tail (take back src)

    second : List ℕ
    unfolding back
    second = take (n - back) (drop back src)

    unwrapped : (q.head + stored q < q.size) × (q.tail ≡ q.head + stored q)
    unwrapped = elim (tail_cases v) [ inl t ↦ t | inr t ↦ absurd (omega arith) ]

    len_first : length first ≡ length q.store
    unfolding first back
    len_first =
        length-splice q.store q.tail (take (q.size - q.tail) src) 0
          (omega (arith, v.allocated, unwrapped, length-take (q.size - q.tail) src))

    two_blocks : Written q src n (splice first 0 second)
    unfolding first second back
    two_blocks =
        let len1 : length (take (q.size - q.tail) src) ≡ q.size - q.tail =
          omega (arith, length-take (q.size - q.tail) src, unwrapped) in
        let in1 : q.tail + length (take (q.size - q.tail) src) ≤ length q.store =
          omega (arith, v.allocated, unwrapped) in
        let len2 : length second ≡ n - (q.size - q.tail) = omega (
          arith,
          length-take (n - (q.size - q.tail)) (drop (q.size - q.tail) src),
          length-drop (q.size - q.tail) src,
          unwrapped,
        ) in
        let in2 : 0 + length second ≤ length first =
          omega (arith, v.allocated, unwrapped, len_first) in
        record {
          same_length = length-splice first 0 second 0 in2 ∙ len_first;
          kept = λ i h.
              splice_after first 0 second 0 in2 _
                (omega (arith, unwrapped, ring_cases (q.head + i) q.size (omega arith)))
              ∙ splice_before q.store q.tail _ 0 in1 _
                  (omega (arith, unwrapped, ring_cases (q.head + i) q.size (omega arith)));
          added = λ i h. elim (ring_cases (q.head + (stored q + i)) q.size (omega arith)) [
            | inl c ↦
                splice_after first 0 second 0 in2 _ (omega (arith, unwrapped))
                ∙ (splice_inside q.store q.tail _ 0 in1 _ i (omega (arith, unwrapped))
                      (omega (arith, unwrapped))
                    ∙ get_or-take (q.size - q.tail) src i 0 (omega (arith, unwrapped)))
            | inr c ↦
                splice_inside first 0 second 0 in2 _ (i - (q.size - q.tail))
                  (omega (arith, unwrapped)) (omega (arith, unwrapped))
                ∙ (get_or-take (n - (q.size - q.tail)) (drop (q.size - q.tail) src) _ 0
                      (omega (arith, unwrapped))
                    ∙ (get_or-drop (q.size - q.tail) src _ 0
                        ∙ ap (λ j. get_or src j 0) (omega (arith, unwrapped))))
          ];
        }

  back_sub : pos q.size -ℤ pos q.tail ≡ pos (q.size - q.tail)
  back_sub = sub_pos q.size q.tail (omega (arith, tail_cases v))

  direct :
      q.tail + n ≤ q.size
      → memcpy q.store q.tail src 0 n ≡ some (splice q.store q.tail (take n src))
  direct h = memcpy_lem q.store q.tail src 0 n (omega (arith, v.allocated)) (omega arith)

  copy_in_direct : q.tail + n ≤ q.size → copy_in q src n ≡ some (splice q.store q.tail (take n src))
  unfolding copy_in
  copy_in_direct h = rw back_sub (ground (arith, direct h))

  copy_in_around :
      (over : q.size < q.tail + n) → copy_in q src n ≡ some (splice (first over) 0 (second over))
  unfolding copy_in memcpy_int first second back
  copy_in_around over =
      let u = unwrapped over in
      let d : pos n -ℤ pos (q.size - q.tail) ≡ pos (n - (q.size - q.tail)) =
        sub_pos n (q.size - q.tail) (omega arith) in
      rw
        (
          back_sub,
          le→leb q.head q.tail (omega arith),
          lt→ltb_ℤ (q.size - q.tail) n (omega arith),
          d,
        )
        (rw
          (memcpy_lem q.store q.tail src 0 (q.size - q.tail) (omega (arith, v.allocated))
            (omega arith))
          (memcpy_lem _ 0 src (q.size - q.tail) (n - (q.size - q.tail))
            (omega (arith, v.allocated, len_first over)) (omega arith)))

  copy_in_lem : (store : List ℕ) × (copy_in q src n ≡ some store) × Written q src n store
  copy_in_lem = elim (Bool-cases (ltb q.size (q.tail + n))) [
    | inl e ↦
        let over : q.size < q.tail + n = ltb→lt _ _ e in
        (splice (first over) 0 (second over), copy_in_around over, two_blocks over)
    | inr e ↦
        let fits : q.tail + n ≤ q.size = ground arith in
        (splice q.store q.tail (take n src), copy_in_direct fits, one_block fits)
  ]

  next : List ℕ → CircuitQueue
  next store = record q { store = store; tail = (q.tail + n) % q.size; len = pos (stored q + n) }

  enqueue-copy :
      (store : List ℕ)
      → copy_in q src n ≡ some store
      → enqueue q (some src) n ≡ some (true, next store)
  unfolding enqueue next wrap
  enqueue-copy store e =
      rw (space v, le→ltb_ℤ (q.size - stored q) n (omega arith), e, positive v, more v n)

  contents-next :
      (store : List ℕ) → Written q src n store → contents (next store) ≡ contents q ++ take n src
  unfolding next
  contents-next store w =
      tabulate-add (stored q) n _
      ∙ ap₂ ◌++◌ (tabulate_ext (stored q) _ _ w.kept)
          (tabulate_ext n _ _ w.added ∙ sym (take-tabulate src n 0 given))

  next-IsValid : (store : List ℕ) → Written q src n store → IsValid (next store)
  unfolding next
  next-IsValid store w = record {
    nonempty = v.nonempty;
    allocated = omega (arith, v.allocated, w.same_length);
    counted = refl;
    bounded = room;
    head_in = v.head_in;
    tail_at = rw (v.tail_at, mod-add-mod) (ap (λ i. i % q.size) (omega arith));
  }

-- Where the bytes fit, `enqueue` succeeds on a valid queue, appends the first `n` bytes of the
-- source to the stored ones, and leaves the queue valid and of the same size.
pub enqueue-contents :
    {q : CircuitQueue}
    → IsValid q
    → (src : List ℕ) (n : ℕ) → n ≤ length src
    → stored q + n ≤ q.size
    → (q' : CircuitQueue) × (enqueue q (some src) n ≡ some (true, q'))
      × IsValid q'
      × (contents q' ≡ contents q ++ take n src)
      × (q'.size ≡ q.size)
unfolding next
enqueue-contents v src n given room =
    let (store, e, w) = copy_in_lem v src n given room in
    (
      next v src n given room store,
      enqueue-copy v src n given room store e,
      next-IsValid v src n given room store w,
      contents-next v src n given room store w,
      refl,
    )
