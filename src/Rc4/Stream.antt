-- ===== src/Rc4/Stream.antt =====
-- The cipher runs without fault under an ASCII key, and undoes itself.
use Prim.Native.Nat.{bit_xor}
use mathlib.Core.Option.{some-injective}
use hystack.Prelude.{
  tabulate, ℕ, zero, suc, ◌+◌, ◌*◌, ◌/◌, ◌%◌, ◌≤◌, ◌<◌, ◌≡◌, ◌∙◌, sym, refl, false, take, drop, ltb,
  get_elem?, take-all, take-front, drop-front, length-append, Bool-cases, inl, inr, ◌++◌, List, [],
  ◌∷◌, some, arith, ◌==◌, length, set, ap, All, All-set, All-get_elem?, All-tabulate, length-set,
  lt→ltb, drop_rest, append-nil,
}
use hystack.Prelude.Bits.{bit_xor_twice, bit_xor-lt_256}
use hystack.Prelude.Slices.{length-tabulate, memcpy_lem, splice_front}
use hystack.Rc4.{
  key_at, mix, swap, schedule, stream, conv_rc4_to_rc4, conv_rc4_encode, conv_rc4_decode,
  conv_rc4_char_to_hex, read_text, cipher_front,
}
use hystack.Rc4.Hex.{IsByte, hex_to_char-char_to_hex, length-char_to_hex}

abbrev IsState : List ℕ → Type 0
IsState S = (length S ≡ 256) × All IsByte S

swap-IsState :
    (S : List ℕ) (i j : ℕ)
    → IsState S
    → i < 256
    → j < 256
    → (S' : List ℕ) × (swap S i j ≡ some S') × IsState S'
unfolding swap
swap-IsState S i j h p q =
    let (tmp, e, b) = All-get_elem? IsByte S j h.1 (omega arith) in
    let (s, f, c) = All-get_elem? IsByte S i h.1 (omega arith) in
    (
      set (set S j s) i tmp,
      rw (e, f),
      (
        omega (arith, length-set (set S j s) i tmp, length-set S j s),
        All-set IsByte (set S j s) i tmp (All-set IsByte S j s h.1 c) b,
      ),
    )

abbrev pub IsKey : List ℕ → Type 0
IsKey key = (0 < length key) × All (λ c. c < 128) key

key_at-ok : (key : List ℕ) (i : ℕ) → IsKey key → (t : ℕ) × (key_at key i ≡ some t) × (t < 128)
unfolding key_at
key_at-ok key i h =
    let z : (length key == 0) ≡ false = ground arith in
    let (t, e, p) = All-get_elem? (λ c. c < 128) key (i % length key) h.1 (omega arith) in
    (t, rw (z, e), p)

schedule-ok :
    (key : List ℕ) (rounds i j : ℕ) (S : List ℕ)
    → IsKey key
    → IsState S
    → i + rounds ≤ 256
    → j < 256
    → (S' : List ℕ) × (schedule key rounds i j S ≡ some S') × IsState S'
unfolding schedule mix
schedule-ok key zero i j S k h p q = (S, refl, h)
schedule-ok key (suc rounds) i j S k h p q =
    let (s, e, b) = All-get_elem? IsByte S i h.1 (omega arith) in
    let (t, f, c) = key_at-ok key i k in
    let (S', g, h') = swap-IsState S i ((j + s + t) % 256) h (omega arith) (omega arith) in
    let (S'', r, h'') =
      schedule-ok key rounds (i + 1) ((j + s + t) % 256) S' k h' (omega arith) (omega arith) in
    (S'', rw (e, f, lt→ltb t 128 c, g) r, h'')

-- The result of the loop, run on bytes and then on its own result.
record Twice (i j : ℕ) (S chs out : List ℕ) : Type 0 where
  there : stream i j S chs ≡ some out
  back : stream i j S out ≡ some chs
  bytes : All IsByte out
  same : length out ≡ length chs

stream-Twice :
    (i j : ℕ) (S chs : List ℕ) → IsState S → All IsByte chs → (out : List ℕ) × Twice i j S chs out
unfolding stream
stream-Twice i j S [] h b = ([], record { there = refl; back = refl; bytes = tt; same = refl })
stream-Twice i j S (c ∷ chs) h b =
    let i' = (i + 1) % 256 in
    let (s, e, p) = All-get_elem? IsByte S i' h.1 (omega arith) in
    let j' = (j + s) % 256 in
    let (S', f, h') = swap-IsState S i' j' h (omega arith) (omega arith) in
    let (x, ex, px) = All-get_elem? IsByte S' i' h'.1 (omega arith) in
    let (y, ey, py) = All-get_elem? IsByte S' j' h'.1 (omega arith) in
    let (k, ek, pk) = All-get_elem? IsByte S' ((x + y) % 256) h'.1 (omega arith) in
    let (out, t) = stream-Twice i' j' S' chs h' b.1 in
    let low : bit_xor c k < 256 = bit_xor-lt_256 c k b.0 pk in
    let one : bit_xor c k % 256 ≡ bit_xor c k = omega arith in
    let two : bit_xor (bit_xor c k) k % 256 ≡ c = omega (arith, bit_xor_twice c k, b.0) in
    (
      bit_xor c k ∷ out,
      record {
        there = rw (e, f, ex, ey, ek, t.there, one);
        back = rw (e, f, ex, ey, ek, t.back, two);
        bytes = (low, t.bytes);
        same = ap suc t.same;
      },
    )

initial-IsState : IsState (tabulate 256 (λ i. i))
initial-IsState = (length-tabulate 256 (λ i. i), All-tabulate IsByte 256 (λ i. i) (λ i p. p))

rc4-twice :
    (key chs : List ℕ)
    → IsKey key
    → All IsByte chs
    → (out : List ℕ) × (conv_rc4_to_rc4 key chs ≡ some out)
      × (conv_rc4_to_rc4 key out ≡ some chs)
      × All IsByte out
      × (length out ≡ length chs)
unfolding conv_rc4_to_rc4
rc4-twice key chs k b =
    let (S, e, h) =
      schedule-ok key 256 0 0 (tabulate 256 (λ i. i)) k initial-IsState (omega arith)
        (omega arith) in
    let (out, t) = stream-Twice 0 0 S chs h b in (out, rw e t.there, rw e t.back, t.bytes, t.same)

-- An array with a zero byte can be read as a text.
read_text_lem :
    (chs : List ℕ) (i : ℕ)
    → get_elem? chs i ≡ some 0
    → (text : List ℕ) × (read_text chs ≡ some text)
unfolding read_text
read_text_lem [] i e = cc
read_text_lem (c ∷ chs) zero e = let z : c ≡ 0 = some-injective c 0 e in ([], rw z refl)
read_text_lem (c ∷ chs) (suc i) e =
    let (text, f) = read_text_lem chs i e in
    elim (Bool-cases (c == 0)) [ inl z ↦ ([], rw z refl) | inr z ↦ (c ∷ text, rw (z, f) refl) ]

cipher_front_lem :
    (key chs spare out : List ℕ)
    → conv_rc4_to_rc4 key chs ≡ some out
    → cipher_front key (chs ++ spare) (length chs) ≡ some (out ++ spare)
unfolding cipher_front
cipher_front_lem key chs spare out e =
    let fits : ltb (length (chs ++ spare)) (length chs) ≡ false =
      ground (arith, length-append chs spare) in
    rw (fits, take-front chs spare, drop-front chs spare, e) refl

-- Let the key be ASCII and not empty, and let each of the two arrays of characters hold a zero byte
-- anywhere. Then encoding the first bytes of the one runs without a fault and fills an array of
-- twice their number with hexadecimal digits, and decoding that array under the same key into the
-- front of the other gives the bytes back; both leave what is behind the bytes as it was.
pub decode-encode :
    (key chs spare hex old after : List ℕ) (i j : ℕ)
    → IsKey key
    → All IsByte chs
    → get_elem? (chs ++ spare) i ≡ some 0
    → get_elem? (old ++ after) j ≡ some 0
    → length hex ≡ length chs + length chs
    → length old ≡ length chs
    → (hex' out : List ℕ) × (conv_rc4_encode hex (chs ++ spare) (length chs) key
        ≡ some (hex', out ++ spare))
      × (length out ≡ length chs)
      × (length hex' ≡ length hex)
      × (conv_rc4_decode (old ++ after) (length chs) hex' (length hex') key ≡ some (chs ++ after))
unfolding conv_rc4_encode conv_rc4_decode
decode-encode key chs spare hex old after i j k b ends ends' n m =
    let (out, there, back, bytes, same) = rc4-twice key chs k b in
    let (tmp, reads) = read_text_lem (chs ++ spare) i ends in
    let (tmp', reads') = read_text_lem (old ++ after) j ends' in
    let len = length-char_to_hex out in
    let digits = conv_rc4_char_to_hex out in
    let whole = take-all digits in
    let front = sym (ap (λ n. take n (out ++ spare)) same) ∙ take-front out spare in
    let behind = ap (λ n. drop n (old ++ after)) (same ∙ sym m) ∙ drop-front old after in
    let room : ltb (length digits) (length digits / 2 * 2) ≡ false = ground (arith, len) in
    (
      digits,
      out,
      rw (
        reads,
        cipher_front_lem key chs spare out there,
        front,
        memcpy_lem hex 0 digits 0 (length digits) (omega arith) (omega arith),
        splice_front hex digits,
        drop_rest hex (length digits) (omega arith),
        append-nil digits,
      ),
      same,
      omega arith,
      rw
          (
            reads',
            room,
            whole,
            hex_to_char-char_to_hex out bytes,
            memcpy_lem (old ++ after) 0 out 0 (length out) (omega (arith, length-append old after))
                (omega arith),
            splice_front (old ++ after) out,
            behind,
            ← same,
          )
          (cipher_front_lem key out after chs back),
    )
