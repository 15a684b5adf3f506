-- ===== src/Base64.antt =====
-- src/kits/conv/conv_base64.cpp. A byte is a number below 256. `char` is signed, as on the
-- platforms that the build files name, so a right shift of a byte of 128 or more is negative.
pub mod Digits
pub mod Encode
pub mod RoundTrip
mod Tests
use Prim.Native.Nat.{bit_and, bit_or}
use Prim.Native.Char.{code}
use Prim.Native.String
use Prim.Native.String.{String}
use hystack.Prelude.{
  ℕ, suc, ◌+◌, ◌*◌, ◌/◌, ◌%◌, Bool, true, false, Option, none, some, List, [], ◌∷◌, ◌++◌, ltb, ◌==◌,
  if◌then◌else◌, ◌>>=◌, length, get_elem?, get_or,
}
use hystack.Prelude.Slices.{memcpy}

abbrev pub codes : String → List ℕ
codes String.[] = []
codes (String.◌∷◌ c s) = code c ∷ codes s

-- `basis64` of the two encoders.
unfoldable pub url_basis : List ℕ
url_basis = codes "ABCDEFGHIJKLMNOPQRSTUVWXYZabcdefghijklmnopqrstuvwxyz0123456789-_"

unfoldable pub bin_basis : List ℕ
bin_basis = codes "ABCDEFGHIJKLMNOPQRSTUVWXYZabcdefghijklmnopqrstuvwxyz0123456789+/"

-- `basis64` of the decoder: the value of each byte, 77 where it is no digit.
unfoldable pub decode_basis : List ℕ
decode_basis =
    77 ∷ 77 ∷ 77 ∷ 77 ∷ 77 ∷ 77 ∷ 77 ∷ 77 ∷ 77 ∷ 77 ∷ 77 ∷ 77 ∷ 77 ∷ 77 ∷ 77 ∷ 77 ∷ 77 ∷ 77 ∷ 77
    ∷ 77 ∷ 77 ∷ 77 ∷ 77 ∷ 77 ∷ 77 ∷ 77 ∷ 77 ∷ 77 ∷ 77 ∷ 77 ∷ 77 ∷ 77 ∷ 77 ∷ 77 ∷ 77 ∷ 77 ∷ 77 ∷ 77
    ∷ 77 ∷ 77 ∷ 77 ∷ 77 ∷ 77 ∷ 62 ∷ 77 ∷ 77 ∷ 77 ∷ 63 ∷ 52 ∷ 53 ∷ 54 ∷ 55 ∷ 56 ∷ 57 ∷ 58 ∷ 59 ∷ 60
    ∷ 61 ∷ 77 ∷ 77 ∷ 77 ∷ 77 ∷ 77 ∷ 77 ∷ 77 ∷ 0 ∷ 1 ∷ 2 ∷ 3 ∷ 4 ∷ 5 ∷ 6 ∷ 7 ∷ 8 ∷ 9 ∷ 10 ∷ 11 ∷ 12
    ∷ 13 ∷ 14 ∷ 15 ∷ 16 ∷ 17 ∷ 18 ∷ 19 ∷ 20 ∷ 21 ∷ 22 ∷ 23 ∷ 24 ∷ 25 ∷ 77 ∷ 77 ∷ 77 ∷ 77 ∷ 77 ∷ 77
    ∷ 26 ∷ 27 ∷ 28 ∷ 29 ∷ 30 ∷ 31 ∷ 32 ∷ 33 ∷ 34 ∷ 35 ∷ 36 ∷ 37 ∷ 38 ∷ 39 ∷ 40 ∷ 41 ∷ 42 ∷ 43 ∷ 44
    ∷ 45 ∷ 46 ∷ 47 ∷ 48 ∷ 49 ∷ 50 ∷ 51 ∷ 77 ∷ 77 ∷ 77 ∷ 77 ∷ 77 ∷ 77 ∷ 77 ∷ 77 ∷ 77 ∷ 77 ∷ 77 ∷ 77
    ∷ 77 ∷ 77 ∷ 77 ∷ 77 ∷ 77 ∷ 77 ∷ 77 ∷ 77 ∷ 77 ∷ 77 ∷ 77 ∷ 77 ∷ 77 ∷ 77 ∷ 77 ∷ 77 ∷ 77 ∷ 77 ∷ 77
    ∷ 77 ∷ 77 ∷ 77 ∷ 77 ∷ 77 ∷ 77 ∷ 77 ∷ 77 ∷ 77 ∷ 77 ∷ 77 ∷ 77 ∷ 77 ∷ 77 ∷ 77 ∷ 77 ∷ 77 ∷ 77 ∷ 77
    ∷ 77 ∷ 77 ∷ 77 ∷ 77 ∷ 77 ∷ 77 ∷ 77 ∷ 77 ∷ 77 ∷ 77 ∷ 77 ∷ 77 ∷ 77 ∷ 77 ∷ 77 ∷ 77 ∷ 77 ∷ 77 ∷ 77
    ∷ 77 ∷ 77 ∷ 77 ∷ 77 ∷ 77 ∷ 77 ∷ 77 ∷ 77 ∷ 77 ∷ 77 ∷ 77 ∷ 77 ∷ 77 ∷ 77 ∷ 77 ∷ 77 ∷ 77 ∷ 77 ∷ 77
    ∷ 77 ∷ 77 ∷ 77 ∷ 77 ∷ 77 ∷ 77 ∷ 77 ∷ 77 ∷ 77 ∷ 77 ∷ 77 ∷ 77 ∷ 77 ∷ 77 ∷ 77 ∷ 77 ∷ 77 ∷ 77 ∷ 77
    ∷ 77 ∷ 77 ∷ 77 ∷ 77 ∷ 77 ∷ 77 ∷ 77 ∷ 77 ∷ 77 ∷ 77 ∷ 77 ∷ 77 ∷ 77 ∷ 77 ∷ 77 ∷ 77 ∷ 77 ∷ 77 ∷ 77
    ∷ 77 ∷ 77 ∷ 77 ∷ 77 ∷ 77 ∷ 77 ∷ 77 ∷ []

-- `x >> k` of a `char`, or-ed with a number that is not negative, as an index: a negative index
-- is a read in front of the table.
abbrev shifted_index : ℕ → ℕ → ℕ → Option ℕ
shifted_index high c divisor = if ltb c 128 then some (bit_or high (c / divisor)) else none

pub template_base64_encode : List ℕ → Bool → List ℕ → Option (List ℕ)
template_base64_encode basis padding [] = some []
template_base64_encode basis padding (s0 ∷ []) = do
  d0 ← get_elem? basis (s0 / 4 % 64)
  d1 ← get_elem? basis (s0 % 4 * 16)
  some (d0 ∷ d1 ∷ (if padding then b'=' ∷ b'=' ∷ [] else []))
template_base64_encode basis padding (s0 ∷ s1 ∷ []) = do
  d0 ← get_elem? basis (s0 / 4 % 64)
  i1 ← shifted_index (s0 % 4 * 16) s1 16
  d1 ← get_elem? basis i1
  d2 ← get_elem? basis (s1 % 16 * 4)
  some (d0 ∷ d1 ∷ d2 ∷ (if padding then b'=' ∷ [] else []))
template_base64_encode basis padding (s0 ∷ s1 ∷ s2 ∷ s) = do
  d0 ← get_elem? basis (s0 / 4 % 64)
  i1 ← shifted_index (s0 % 4 * 16) s1 16
  d1 ← get_elem? basis i1
  i2 ← shifted_index (s1 % 16 * 4) s2 64
  d2 ← get_elem? basis i2
  d3 ← get_elem? basis (s2 % 64)
  d ← template_base64_encode basis padding s
  some (d0 ∷ d1 ∷ d2 ∷ d3 ∷ d)

-- The bytes before the first zero; `none` where the array has no zero.
unfoldable pub strlen : List ℕ → Option ℕ
strlen [] = none
strlen (c ∷ s) = let rest = strlen s in if c == 0 then some 0 else (do n ← rest; some (suc n))

-- The encoder over a string, into an array `dst`: what it returns, and the array then.
pub conv_base64_encode : List ℕ → List ℕ → Option (ℕ × List ℕ)
conv_base64_encode dst src = do
  d ← template_base64_encode url_basis false src
  dst ← memcpy dst 0 d 0 (length d)
  n ← strlen dst
  some (n, dst)

-- The loop of the encoder over bytes: what it writes.
pub encode_bytes : List ℕ → List ℕ
encode_bytes [] = []
encode_bytes (b0 ∷ []) =
    get_or bin_basis (bit_and (b0 / 4) 0x3f) 0
    ∷ get_or bin_basis (bit_and (b0 * 16 % 256) 0x30) 0
    ∷ b'='
    ∷ b'='
    ∷ []
encode_bytes (b0 ∷ b1 ∷ []) =
    get_or bin_basis (bit_and (b0 / 4) 0x3f) 0
    ∷ get_or bin_basis (bit_or (bit_and (b0 * 16 % 256) 0x30) (bit_and (b1 / 16) 0x0f)) 0
    ∷ get_or bin_basis (bit_and (b1 * 4 % 256) 0x3c) 0
    ∷ b'='
    ∷ []
encode_bytes (b0 ∷ b1 ∷ b2 ∷ b) =
    get_or bin_basis (bit_and (b0 / 4) 0x3f) 0
    ∷ get_or bin_basis (bit_or (bit_and (b0 * 16 % 256) 0x30) (bit_and (b1 / 16) 0x0f)) 0
    ∷ get_or bin_basis (bit_or (bit_and (b1 * 4 % 256) 0x3c) (bit_and (b2 / 64) 0x03)) 0
    ∷ get_or bin_basis (bit_and b2 0x3f) 0
    ∷ encode_bytes b

-- With its terminator; the result is the count before it.
pub conv_base64_encode_bytes : List ℕ → ℕ × List ℕ
conv_base64_encode_bytes bin = (length (encode_bytes bin), encode_bytes bin ++ 0 ∷ [])

-- The digits before the first `=`; `none` at a byte that is no digit.
unfoldable pub digits_of : List ℕ → List ℕ → Option (List ℕ)
digits_of basis [] = some []
digits_of basis (c ∷ src) =
    let rest = digits_of basis src in
    if c == b'='
    then some []
    else if get_or basis c 77 == 77
    then none
    else (do s ← rest; some (c ∷ s))

-- The loop over groups of four, and what is left over.
unfoldable pub decode_groups : List ℕ → List ℕ → List ℕ
decode_groups basis (s0 ∷ s1 ∷ s2 ∷ s3 ∷ s) =
    bit_or (get_or basis s0 77 * 4) (get_or basis s1 77 / 16) % 256
    ∷ bit_or (get_or basis s1 77 * 16) (get_or basis s2 77 / 4) % 256
    ∷ bit_or (get_or basis s2 77 * 64) (get_or basis s3 77) % 256
    ∷ decode_groups basis s
decode_groups basis (s0 ∷ s1 ∷ s2 ∷ []) =
    bit_or (get_or basis s0 77 * 4) (get_or basis s1 77 / 16) % 256
    ∷ bit_or (get_or basis s1 77 * 16) (get_or basis s2 77 / 4) % 256
    ∷ []
decode_groups basis (s0 ∷ s1 ∷ []) =
    bit_or (get_or basis s0 77 * 4) (get_or basis s1 77 / 16) % 256 ∷ []
decode_groups basis (s0 ∷ []) = []
decode_groups basis [] = []

-- `none` is the result -1. The function does not look at the size of the target.
unfoldable pub template_base64_decode : List ℕ → List ℕ → Option (List ℕ)
template_base64_decode basis src = do
  s ← digits_of basis src
  if length s % 4 == 1 then none else some (decode_groups basis s)

unfoldable pub conv_base64_decode : List ℕ → Option (List ℕ)
conv_base64_decode src = template_base64_decode decode_basis src
