-- ===== src/Base64/Tests.antt =====
-- Runs of the encoders and the decoder, and the theorems at texts.
use hystack.Prelude.{◌≡◌, refl, false, [], ◌∷◌, ◌++◌, some, none, arith, ◌>>=◌, map}
use hystack.Base64.{
  codes, url_basis, bin_basis, decode_basis, template_base64_encode, encode_bytes,
  conv_base64_decode, template_base64_decode, digits_of, decode_groups,
}
use hystack.Base64.Digits.{sextets, bin}
use hystack.Base64.Encode.{encode_bytes-sextets, template_base64_encode-sextets}
use hystack.Base64.RoundTrip.{decode-encode_bytes, decode-template_base64_encode}

encode_hello : encode_bytes (codes "hello") ≡ codes "aGVsbG8="
unfolding encode_bytes bin_basis
encode_hello = refl

decode_hello : conv_base64_decode (codes "aGVsbG8=") ≡ some (codes "hello")
unfolding conv_base64_decode template_base64_decode decode_basis digits_of decode_groups
decode_hello = refl

decode_length_5 : conv_base64_decode (codes "aGVsb") ≡ none
unfolding conv_base64_decode template_base64_decode decode_basis digits_of decode_groups
decode_length_5 = refl

encode_high : template_base64_encode url_basis false (1 ∷ 200 ∷ []) ≡ none
unfolding template_base64_encode url_basis
encode_high = refl

decode-encode_bytes_example :
    conv_base64_decode (encode_bytes (0 ∷ 255 ∷ 254 ∷ 7 ∷ [])) ≡ some (0 ∷ 255 ∷ 254 ∷ 7 ∷ [])
decode-encode_bytes_example = decode-encode_bytes (0 ∷ 255 ∷ 254 ∷ 7 ∷ []) (omega arith)

encode_bytes-sextets_example : encode_bytes (255 ∷ 1 ∷ []) ≡ map bin (63 ∷ 48 ∷ 4 ∷ []) ++ b'=' ∷ []
unfolding sextets
encode_bytes-sextets_example = encode_bytes-sextets (255 ∷ 1 ∷ []) (omega arith)

template_base64_encode-sextets_example :
    template_base64_encode url_basis false (65 ∷ 66 ∷ 200 ∷ []) ≡ none
template_base64_encode-sextets_example =
    template_base64_encode-sextets (65 ∷ 66 ∷ 200 ∷ []) (omega arith)

decode-template_base64_encode_example :
    (template_base64_encode url_basis false (codes "ab?") >>= conv_base64_decode) ≡ none
decode-template_base64_encode_example = decode-template_base64_encode (codes "ab?") (omega arith)
