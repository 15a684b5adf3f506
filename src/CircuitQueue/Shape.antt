-- ===== src/CircuitQueue/Shape.antt =====
-- The well-formed queues, and the bytes that one holds.
use native.Mathlib.Nat.{mod-eq_of_lt, mod-eq-sub-mod}
use native.Mathlib.Decide.{dec_lt}
use hystack.Prelude.{
  tabulate, ltb, ◌==◌, false, ap, ℕ, ◌+◌, ◌-◌, ◌%◌, ◌≤◌, ◌<◌, ◌≡◌, ◌⊎◌, inl, inr, false, List,
  arith, ltb, length, get_or, ◌∙◌,
}
use hystack.Prelude.Int.{ltb_ℤ, ◌+ℤ◌, ◌-ℤ◌, sub_pos, add_pos, pos, pos_part, ◌-ℤ◌}
use hystack.CircuitQueue.{CircuitQueue}

abbrev pub stored : CircuitQueue → ℕ
stored q = pos_part q.len

-- What `create` and `enqueue` keep up.
pub record IsValid (q : CircuitQueue) : Type 0 where
  pub nonempty : 0 < q.size
  pub allocated : q.size + q.extra_size ≤ length q.store
  pub counted : q.len ≡ pos (stored q)
  pub bounded : stored q ≤ q.size
  pub head_in : q.head < q.size
  pub tail_at : q.tail ≡ (q.head + stored q) % q.size

-- The byte `i` places behind the head, and all the stored ones, oldest first.
abbrev pub byte_at : CircuitQueue → ℕ → ℕ
byte_at q i = get_or q.store ((q.head + i) % q.size) 0

abbrev pub contents : CircuitQueue → List ℕ
contents q = tabulate (stored q) (byte_at q)

-- One turn round the ring.
pub mod_inside : (x m : ℕ) → x < m → x % m ≡ x
mod_inside x m h = mod-eq_of_lt h

pub mod_outside : (x m : ℕ) → m ≤ x → x < m + m → x % m ≡ x - m
mod_outside x m h k = mod-eq-sub-mod h ∙ mod-eq_of_lt (omega arith)

pub ring_cases : (x m : ℕ) → x < m + m → ((x < m) × (x % m ≡ x)) ⊎ ((m ≤ x) × (x % m ≡ x - m))
ring_cases x m h = elim (dec_lt x m) [
  | yes p ↦ inl (p, mod_inside x m p)
  | no p ↦ inr (omega arith, mod_outside x m (omega arith) h)
]

-- A queue without wrap has its bytes in one block, else in two.
pub tail_cases :
    {q : CircuitQueue}
    → IsValid q
    → ((q.head + stored q < q.size) × (q.tail ≡ q.head + stored q))
      ⊎ ((q.size ≤ q.head + stored q) × (q.tail ≡ q.head + stored q - q.size))
tail_cases {q} v = elim (ring_cases (q.head + stored q) q.size (omega arith)) [
  | inl h ↦ inl (h.0, v.tail_at ∙ h.1)
  | inr h ↦ inr (h.0, v.tail_at ∙ h.1)
]

-- What the guards and the updates of the members come to.
module _ {q : CircuitQueue} (v : IsValid q) where
  pub space : pos q.size -ℤ q.len ≡ pos (q.size - stored q)
  space = ap (λ l. pos q.size -ℤ l) v.counted ∙ sub_pos q.size (stored q) v.bounded

  pub more : (n : ℕ) → q.len +ℤ pos n ≡ pos (stored q + n)
  more n = ap (λ l. l +ℤ pos n) v.counted ∙ add_pos (stored q) n

  pub positive : (q.size == 0) ≡ false
  positive = let h = v.nonempty in ground arith

  pub short : (n : ℕ) → ltb_ℤ q.len (pos n) ≡ ltb (stored q) n
  short n = ap (λ l. ltb_ℤ l (pos n)) v.counted ∙ ground arith
