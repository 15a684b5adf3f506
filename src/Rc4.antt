-- ===== src/Rc4.antt =====
-- src/kits/conv/conv_rc4.cpp. `S` and `T` are arrays of 256 numbers, and a byte is a number below
-- 256. `none` is a fault: an empty key (a remainder by zero) or an access out of range.
pub mod Hex
pub mod Stream
mod Tests
use Prim.Native.Nat.{bit_xor}
use hystack.Prelude.{
  tabulate, ℕ, zero, suc, ◌+◌, ◌-◌, ◌*◌, ◌/◌, ◌%◌, Bool, Option, none, some, List, [], ◌∷◌, ◌++◌,
  ltb, leb, ◌==◌, if◌then◌else◌, ◌>>=◌, length, get_elem?, get_or, set, take, drop,
}
use hystack.Prelude.Slices.{memcpy}

-- One hexadecimal digit and back.
pub to_hex : ℕ → ℕ
to_hex h = if ltb 9 h then h - 10 + 65 else h + 48

-- `int` subtraction, up to multiples of 256, which the cast to `char` drops.
pub of_hex : ℕ → ℕ
of_hex c = if leb 65 c then c - 65 + 10 else c + 256 - 48

pub conv_rc4_char_to_hex : List ℕ → List ℕ
conv_rc4_char_to_hex [] = []
conv_rc4_char_to_hex (c ∷ chs) = to_hex (c / 16) ∷ to_hex (c % 16) ∷ conv_rc4_char_to_hex chs

-- `hex_len / 2` pairs: a last odd digit is passed over.
pub conv_rc4_hex_to_char : List ℕ → List ℕ
conv_rc4_hex_to_char (h ∷ l ∷ hex) = (of_hex h * 16 + of_hex l) % 256 ∷ conv_rc4_hex_to_char hex
conv_rc4_hex_to_char (h ∷ []) = []
conv_rc4_hex_to_char [] = []

-- `T[i]`. `char` is signed: a key byte of 128 or more stands for itself less 256.
pub key_at : List ℕ → ℕ → Option ℕ
key_at key i = if length key == 0 then none else get_elem? key (i % length key)

-- `(j + S[i] + T[i]) % 256`: where the sum is negative so is the remainder, and `S[j]` then reads
-- in front of the array.
pub mix : ℕ → ℕ → ℕ → Option ℕ
mix j s t =
    if ltb t 128
    then some ((j + s + t) % 256)
    else if ltb (j + s + t) 256
    then none
    else some ((j + s + t - 256) % 256)

-- `tmp = S[j]; S[j] = S[i]; S[i] = tmp;`
pub swap : List ℕ → ℕ → ℕ → Option (List ℕ)
swap S i j = do tmp ← get_elem? S j; s ← get_elem? S i; some (set (set S j s) i tmp)

-- The second loop, with the rounds left.
pub schedule : List ℕ → ℕ → ℕ → ℕ → List ℕ → Option (List ℕ)
schedule key zero i j S = some S
schedule key (suc rounds) i j S = do
  s ← get_elem? S i
  t ← key_at key i
  j ← mix j s t
  S ← swap S i j
  schedule key rounds (i + 1) j S

-- The third loop, over the bytes left.
pub stream : ℕ → ℕ → List ℕ → List ℕ → Option (List ℕ)
stream i j S [] = some []
stream i j S (c ∷ chs) = do
  let i' = (i + 1) % 256
  s ← get_elem? S i'
  let j' = (j + s) % 256
  S' ← swap S i' j'
  a ← get_elem? S' i'
  b ← get_elem? S' j'
  k ← get_elem? S' ((a + b) % 256)
  rest ← stream i' j' S' chs
  some (bit_xor c k % 256 ∷ rest)

pub conv_rc4_to_rc4 : List ℕ → List ℕ → Option (List ℕ)
conv_rc4_to_rc4 key chs = do S ← schedule key 256 0 0 (tabulate 256 (λ i. i)); stream 0 0 S chs

-- `std::string tmp = (char *)chs` reads the array up to its first zero, which it must hold.
pub read_text : List ℕ → Option (List ℕ)
read_text [] = none
read_text (c ∷ chs) =
    let rest = read_text chs in if c == 0 then some [] else (do text ← rest; some (c ∷ text))

-- The cipher on the first `chs_len` bytes of an array.
pub cipher_front : List ℕ → List ℕ → ℕ → Option (List ℕ)
cipher_front key chs chs_len =
    if ltb (length chs) chs_len
    then none
    else (do chs' ← conv_rc4_to_rc4 key (take chs_len chs); some (chs' ++ drop chs_len chs))

-- The arrays `hex` and `chs` after the call.
pub conv_rc4_encode : List ℕ → List ℕ → ℕ → List ℕ → Option (List ℕ × List ℕ)
conv_rc4_encode hex chs chs_len key = do
  tmp ← read_text chs
  chs' ← cipher_front key chs chs_len
  let digits = conv_rc4_char_to_hex (take chs_len chs')
  hex' ← memcpy hex 0 digits 0 (length digits)
  some (hex', chs')

-- The array `chs` after the call. The digits are the first `hex_len` of their array.
pub conv_rc4_decode : List ℕ → ℕ → List ℕ → ℕ → List ℕ → Option (List ℕ)
conv_rc4_decode chs chs_len hex hex_len key = do
  tmp ← read_text chs
  if ltb (length hex) (hex_len / 2 * 2) then none else (do
    let bytes = conv_rc4_hex_to_char (take hex_len hex)
    chs' ← memcpy chs 0 bytes 0 (length bytes)
    cipher_front key chs' chs_len)
