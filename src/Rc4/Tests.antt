-- ===== src/Rc4/Tests.antt =====
-- Known ciphertexts, and the theorems at a key.
use hystack.Prelude.{ℕ, ◌≡◌, refl, List, [], ◌∷◌, ◌++◌, some, none, arith, length, replicate}
use hystack.Prelude.Slices.{memcpy}
use hystack.Base64.{codes}
use hystack.Rc4.{
  conv_rc4_to_rc4, read_text, cipher_front, conv_rc4_encode, conv_rc4_decode, conv_rc4_char_to_hex,
  conv_rc4_hex_to_char, schedule, stream, swap, mix, key_at, to_hex, of_hex,
}
use hystack.Rc4.Stream.{decode-encode}

abbrev key : List ℕ
key = codes "Key"

abbrev text : List ℕ
text = codes "Plaintext"

encode_text :
    conv_rc4_encode (replicate 18 0) (text ++ 0 ∷ []) 9 key
    ≡ some (codes "BBF316E8D940AF0AD3", 187 ∷ 243 ∷ 22 ∷ 232 ∷ 217 ∷ 64 ∷ 175 ∷ 10 ∷ 211 ∷ 0 ∷ [])
unfolding conv_rc4_encode read_text cipher_front conv_rc4_to_rc4 schedule stream swap mix key_at
    conv_rc4_char_to_hex to_hex memcpy
encode_text = refl

-- Without a zero byte in the array, its copy reads on behind it.
no_end : conv_rc4_encode (replicate 18 0) text 9 key ≡ none
unfolding conv_rc4_encode read_text
no_end = refl

empty_key : conv_rc4_to_rc4 [] text ≡ none
unfolding conv_rc4_to_rc4 schedule key_at
empty_key = refl

-- The digits of other programs, in lower case, are not read as such.
lower_case : conv_rc4_hex_to_char (codes "bb") ≡ 219 ∷ []
unfolding conv_rc4_hex_to_char of_hex
lower_case = refl

decode-encode_example :
    (hex' out : List ℕ) × (conv_rc4_encode (replicate 4 0) (7 ∷ 200 ∷ 0 ∷ []) 2 key
      ≡ some (hex', out ++ 0 ∷ []))
    × (length out ≡ 2)
    × (length hex' ≡ 4)
    × (conv_rc4_decode (9 ∷ 9 ∷ 9 ∷ 0 ∷ []) 2 hex' (length hex') key ≡ some (7 ∷ 200 ∷ 9 ∷ 0 ∷ []))
decode-encode_example =
    decode-encode key (7 ∷ 200 ∷ []) (0 ∷ []) (replicate 4 0) (9 ∷ 9 ∷ []) (9 ∷ 0 ∷ []) 2 3
      (omega arith) (omega arith) refl refl refl refl
