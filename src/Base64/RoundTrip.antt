-- ===== src/Base64/RoundTrip.antt =====
-- Which encoded texts the decoder takes back, and what the string encoder leaves in its array.
use hystack.Prelude.{
  ℕ, zero, ◌+◌, ◌-◌, ◌*◌, ◌/◌, ◌%◌, ◌<◌, ◌≡◌, refl, Bool, true, false, not, ◌&&◌, List, [], ◌∷◌,
  ◌++◌, map, some, none, arith, ◌==◌, length, if◌then◌else◌, ◌>>=◌, ap, ◌∙◌, All, ltb, inl, inr,
  Bool-cases, ltb→lt, append-nil, replicate, length-map, length-replicate, drop-replicate,
  replicate_pos,
}
use hystack.Prelude.Bits.{holds_below, holds_below_sound}
use hystack.Prelude.Slices.{memcpy_lem, splice_front}
use hystack.Base64.{
  url_basis, decode_basis, template_base64_encode, conv_base64_encode, encode_bytes, digits_of,
  template_base64_decode, conv_base64_decode, strlen,
}
use hystack.Base64.Digits.{
  sextets, IsByte, unpack-sextets, length-sextets, Spells, digits_of-map, digits_of-bad,
  digits_of-none, decode_groups-map, Spells-bin, Spells-url, url, bin, url_unread,
}
use hystack.Base64.Encode.{padding, encode_bytes-sextets, plain, template_base64_encode-sextets}

-- Decoding after the digits were found.
decode_spelled :
    (ch : ℕ → ℕ) (src xs : List ℕ)
    → digits_of decode_basis src ≡ some (map ch (sextets xs))
    → All (Spells ch) (sextets xs)
    → All IsByte xs
    → conv_base64_decode src ≡ some xs
unfolding conv_base64_decode template_base64_decode
decode_spelled ch src xs e sp h =
    let n : (length (map ch (sextets xs)) % 4 == 1) ≡ false =
      ground (arith, length-map (sextets xs) ch, length-sextets xs) in
    rw (e, n) (ap some (decode_groups-map ch (sextets xs) sp ∙ unpack-sextets xs h))

sextets-Spells : (xs : List ℕ) → All IsByte xs → All (Spells bin) (sextets xs)
unfolding sextets
sextets-Spells [] h = tt
sextets-Spells (a ∷ []) h = (Spells-bin _ (omega arith), (Spells-bin _ (omega arith), tt))
sextets-Spells (a ∷ b ∷ []) h =
    (Spells-bin _ (omega arith), (Spells-bin _ (omega arith), (Spells-bin _ (omega arith), tt)))
sextets-Spells (a ∷ b ∷ c ∷ s) h = (
  Spells-bin _ (omega arith),
  (
    Spells-bin _ (omega arith),
    (Spells-bin _ (omega arith), (Spells-bin _ (omega arith), sextets-Spells s h.1.1.1)),
  ),
)

padding-digits : (xs : List ℕ) → digits_of decode_basis (padding xs) ≡ some []
unfolding digits_of
padding-digits [] = refl
padding-digits (a ∷ []) = refl
padding-digits (a ∷ b ∷ []) = refl
padding-digits (a ∷ b ∷ c ∷ s) = padding-digits s

-- The decoder takes back everything that the byte encoder writes, whatever the bytes are.
pub decode-encode_bytes :
    (xs : List ℕ) → All IsByte xs → conv_base64_decode (encode_bytes xs) ≡ some xs
decode-encode_bytes xs h =
    decode_spelled bin (encode_bytes xs) xs
      (rw (encode_bytes-sextets xs h)
        (digits_of-map bin (sextets xs) (padding xs) (sextets-Spells xs h) (padding-digits xs)))
      (sextets-Spells xs h) h

-- No third byte of a group of three is `>`, `?`, `~` or DEL.
abbrev pub readable : List ℕ → Bool
readable [] = true
readable (a ∷ []) = true
readable (a ∷ b ∷ []) = true
readable (a ∷ b ∷ c ∷ s) = ltb (c % 64) 62 && readable s

abbrev pub IsAscii : ℕ → Type 0
IsAscii x = x < 128

ascii-plain : (xs : List ℕ) → All IsAscii xs → plain xs ≡ true
ascii-plain [] h = refl
ascii-plain (a ∷ []) h = refl
ascii-plain (a ∷ b ∷ []) h = ground arith
ascii-plain (a ∷ b ∷ c ∷ s) h = ground (arith, ascii-plain s)

ascii-IsByte : (xs : List ℕ) → All IsAscii xs → All IsByte xs
ascii-IsByte [] h = tt
ascii-IsByte (x ∷ xs) h = (omega arith, ascii-IsByte xs h.1)

group-Spells :
    (a b c : ℕ)
    → a < 128
    → b < 128
    → c < 128
    → All (Spells url) (a / 4 ∷ (a % 4 * 16 + b / 16) ∷ (b % 16 * 4 + c / 64) ∷ [])
group-Spells a b c ha hb hc =
    (Spells-url _ (omega arith), (Spells-url _ (omega arith), (Spells-url _ (omega arith), tt)))

readable-Spells :
    (xs : List ℕ) → All IsAscii xs → readable xs ≡ true → All (Spells url) (sextets xs)
unfolding sextets
readable-Spells [] h r = tt
readable-Spells (a ∷ []) h r = (Spells-url _ (omega arith), (Spells-url _ (omega arith), tt))
readable-Spells (a ∷ b ∷ []) h r =
    (Spells-url _ (omega arith), (Spells-url _ (omega arith), (Spells-url _ (omega arith), tt)))
readable-Spells (a ∷ b ∷ c ∷ s) h r =
    let g = group-Spells a b c h.0 h.1.0 h.1.1.0 in
    (
      g.0,
      (g.1.0, (g.1.1.0, (Spells-url _ (ground arith), readable-Spells s h.1.1.1 (ground arith)))),
    )

unreadable-none :
    (xs : List ℕ)
    → All IsAscii xs
    → readable xs ≡ false
    → digits_of decode_basis (map url (sextets xs)) ≡ none
unfolding sextets
unreadable-none [] h r = cc
unreadable-none (a ∷ []) h r = cc
unreadable-none (a ∷ b ∷ []) h r = cc
unreadable-none (a ∷ b ∷ c ∷ s) h r =
    let g = group-Spells a b c h.0 h.1.0 h.1.1.0 in
    elim (Bool-cases (ltb (c % 64) 62)) [
      | inl e ↦
          digits_of-none url (a / 4 ∷ (a % 4 * 16 + b / 16) ∷ (b % 16 * 4 + c / 64) ∷ c % 64 ∷ []) _
            (g.0, (g.1.0, (g.1.1.0, (Spells-url _ (ltb→lt _ _ e), tt))))
            (unreadable-none s h.1.1.1 (ground arith))
      | inr e ↦
          let bad = url_unread (c % 64) (ground arith) (omega arith) in
          digits_of-bad url (a / 4 ∷ (a % 4 * 16 + b / 16) ∷ (b % 16 * 4 + c / 64) ∷ [])
            (url (c % 64)) _ g bad.0 bad.1
    ]

no_pad :
    (xs : List ℕ)
    → All (Spells url) (sextets xs)
    → digits_of decode_basis (map url (sextets xs)) ≡ some (map url (sextets xs))
unfolding digits_of
no_pad xs sp = rw (append-nil (map url (sextets xs))) at (digits_of-map url (sextets xs) [] sp refl)

-- On ASCII text the string encoder succeeds; the decoder takes its result back exactly when no
-- third byte of a group of three is `>`, `?`, `~` or DEL, and else refuses it.
pub decode-template_base64_encode :
    (xs : List ℕ)
    → All IsAscii xs
    → (template_base64_encode url_basis false xs >>= conv_base64_decode)
      ≡ (if readable xs then some xs else none)
unfolding conv_base64_decode template_base64_decode
decode-template_base64_encode xs h =
    rw (template_base64_encode-sextets xs (ascii-IsByte xs h), ascii-plain xs h)
      (elim (Bool-cases (readable xs)) [
        | inl e ↦
            let sp = readable-Spells xs h e in
            rw e
              (decode_spelled url (map url (sextets xs)) xs (no_pad xs sp) sp (ascii-IsByte xs h))
        | inr e ↦ rw (e, unreadable-none xs h e)
      ])

nonzero_table : holds_below (λ v. not (url v == 0)) 64 ≡ true
unfolding holds_below url_basis
nonzero_table = refl

strlen-url :
    (vs rest : List ℕ) → All (λ v. v < 64) vs → strlen (map url vs ++ 0 ∷ rest) ≡ some (length vs)
unfolding strlen
strlen-url [] rest h = refl
strlen-url (v ∷ vs) rest h =
    let nz = holds_below_sound (λ v. not (url v == 0)) 64 v h.0 nonzero_table in
    let z : (url v == 0) ≡ false = ground arith in rw (z, strlen-url vs rest h.1)

sextets-below : (xs : List ℕ) → All IsByte xs → All (λ v. v < 64) (sextets xs)
unfolding sextets
sextets-below [] h = tt
sextets-below (a ∷ []) h = omega arith
sextets-below (a ∷ b ∷ []) h = omega arith
sextets-below (a ∷ b ∷ c ∷ s) h =
    (omega arith, (omega arith, (omega arith, (omega arith, sextets-below s h.1.1.1))))

-- Into an array of `n` zeros the string encoder returns the number of digits, if the array holds
-- them and one zero more: the zero is what ends the text.
pub conv_base64_encode-length :
    (xs : List ℕ) (n : ℕ)
    → All IsAscii xs
    → length (sextets xs) < n
    → conv_base64_encode (replicate n 0) xs
      ≡ some (length (sextets xs), map url (sextets xs) ++ replicate (n - length (sextets xs)) 0)
unfolding conv_base64_encode
conv_base64_encode-length xs n h room =
    let len = length-map (sextets xs) url in
    rw (
      template_base64_encode-sextets xs (ascii-IsByte xs h),
      ascii-plain xs h,
      memcpy_lem (replicate n 0) 0 (map url (sextets xs)) 0 (length (map url (sextets xs)))
          (omega (arith, length-replicate n zero)) (omega arith),
      splice_front (replicate n 0) (map url (sextets xs)),
      len,
      drop-replicate (length (sextets xs)) n zero,
      replicate_pos (n - length (sextets xs)) zero (omega arith),
      strlen-url (sextets xs) (replicate (n - length (sextets xs) - 1) 0)
          (sextets-below xs (ascii-IsByte xs h)),
    )
