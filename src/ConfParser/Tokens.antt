-- ===== src/ConfParser/Tokens.antt =====
-- What a line is read as: `read_token` undoes the printing of a directive.
use hystack.Prelude.{
  take-front, ℕ, suc, ◌<◌, ◌≢◌, ◌≡◌, refl, sym, ap, ◌∙◌, none, some, List, [], ◌∷◌, ◌++◌, arith,
  length, All, append-nil, append_assoc,
}
use hystack.ConfParser.{
  Conf, find_hash, plain, to_sentence, push_word, word_step, to_words, read_sentence, read_token,
  conf_block_start, conf_block_done,
}

-- A character that belongs to a word as it is.
pub record IsLetter (c : ℕ) : Type 0 where
  pub visible : 32 < c
  pub not_quote : c ≢ 34
  pub not_hash : c ≢ 35
  pub not_semicolon : c ≢ 59
  pub not_open : c ≢ 123
  pub not_close : c ≢ 125

abbrev pub IsWord : List ℕ → Type 0
IsWord w = (0 < length w) × All IsLetter w

-- A character of a directive: one of a word, or a blank.
abbrev InLine : ℕ → Type 0
InLine c = (plain c ≡ c) × (c ≢ 35) × (c ≢ 59) × (c ≢ 123) × (c ≢ 125)

-- The characters that end a directive, with what `read_token` returns for them.
pub data Ends : ℕ → ℕ → Type 0 where
  semicolon : Ends 59 0
  open_brace : Ends 123 conf_block_start
  close_brace : Ends 125 conf_block_done

-- The words of a directive, with one blank between two.
unfoldable pub spaced : List (List ℕ) → List ℕ
spaced [] = []
spaced (w ∷ []) = w
spaced (w ∷ v ∷ ws) = w ++ 32 ∷ spaced (v ∷ ws)

letter-InLine : (c : ℕ) → IsLetter c → InLine c
unfolding plain
letter-InLine c l =
    (ground (arith, l.visible), l.not_hash, l.not_semicolon, l.not_open, l.not_close)

All-append : (P : ℕ → Type 0) (xs ys : List ℕ) → All P xs → All P ys → All P (xs ++ ys)
All-append P [] ys a b = b
All-append P (x ∷ xs) ys (p, a) b = (p, All-append P xs ys a b)

word-InLine : (w : List ℕ) → All IsLetter w → All InLine w
word-InLine [] a = a
word-InLine (c ∷ w) (l, a) = (letter-InLine c l, word-InLine w a)

spaced-InLine : (ws : List (List ℕ)) → All IsWord ws → All InLine (spaced ws)
unfolding spaced plain
spaced-InLine [] a = a
spaced-InLine (w ∷ []) (p, a) = word-InLine w p.1
spaced-InLine (w ∷ v ∷ ws) (p, a) =
    All-append InLine w (32 ∷ spaced (v ∷ ws)) (word-InLine w p.1)
      ((refl, omega arith, omega arith, omega arith, omega arith), spaced-InLine (v ∷ ws) a)

snoc_append : (line : List ℕ) (c : ℕ) (text : List ℕ) → (line ++ c ∷ []) ++ text ≡ line ++ c ∷ text
snoc_append line c text = append_assoc line (c ∷ []) text

to_sentence_end :
    {c rc : ℕ} (e : Ends c rc) (line rest : List ℕ) → to_sentence line (c ∷ rest) ≡ some (rc, line)
unfolding to_sentence
to_sentence_end semicolon line rest = refl
to_sentence_end open_brace line rest = refl
to_sentence_end close_brace line rest = refl

to_sentence_step :
    (line : List ℕ) (c : ℕ) (text : List ℕ)
    → InLine c
    → to_sentence line (c ∷ text) ≡ to_sentence (line ++ c ∷ []) text
unfolding to_sentence
to_sentence_step line c text (p, h, s, o, b) = rw p (ground (arith, s, o, b))

to_sentence_text :
    {c rc : ℕ} (e : Ends c rc) (line text rest : List ℕ)
    → All InLine text
    → to_sentence line (text ++ c ∷ rest) ≡ some (rc, line ++ text)
to_sentence_text {rc = rc} e line [] rest a =
    to_sentence_end e line rest ∙ ap (λ l. some (rc, l)) (sym (append-nil line))
to_sentence_text {c = c} {rc = rc} e line (d ∷ text) rest (p, a) =
    to_sentence_step line d (text ++ c ∷ rest) p
    ∙ to_sentence_text e (line ++ d ∷ []) text rest a
    ∙ ap (λ l. some (rc, l)) (snoc_append line d text)

to_sentence_open : (line text : List ℕ) → All InLine text → to_sentence line text ≡ none
unfolding to_sentence
to_sentence_open line [] a = refl
to_sentence_open line (d ∷ text) (p, a) =
    to_sentence_step line d text p ∙ to_sentence_open (line ++ d ∷ []) text a

word_step_letter :
    (c : ℕ) (word : List ℕ) (args : List (List ℕ))
    → IsLetter c
    → word_step c (word, args) ≡ (word ++ c ∷ [], args)
unfolding word_step
word_step_letter c word args l = ground (arith, l.visible, l.not_quote)

to_words_letters :
    (word w : List ℕ) (args : List (List ℕ)) (more : List ℕ)
    → All IsLetter w
    → to_words (word, args) (w ++ more) ≡ to_words (word ++ w, args) more
unfolding to_words
to_words_letters word [] args more a = ap (λ v. to_words (v, args) more) (sym (append-nil word))
to_words_letters word (c ∷ w) args more (l, a) =
    ap (λ s. to_words s (w ++ more)) (word_step_letter c word args l)
    ∙ to_words_letters (word ++ c ∷ []) w args more a
    ∙ ap (λ v. to_words (v, args) more) (snoc_append word c w)

push_word_snoc :
    (w : List ℕ) (args : List (List ℕ)) → 0 < length w → push_word w args ≡ args ++ w ∷ []
unfolding push_word
push_word_snoc [] args h = absurd (omega (arith, h))
push_word_snoc (c ∷ w) args h = refl

to_words-spaced :
    (ws args : List (List ℕ)) → All IsWord ws → to_words ([], args) (spaced ws) ≡ args ++ ws
unfolding to_words spaced push_word word_step
to_words-spaced [] args a = sym (append-nil args)
to_words-spaced (w ∷ []) args (p, a) =
    ap (λ t. to_words ([], args) t) (sym (append-nil w))
    ∙ to_words_letters [] w args [] p.1
    ∙ push_word_snoc w args p.0
to_words-spaced (w ∷ v ∷ ws) args (p, a) =
    to_words_letters [] w args (32 ∷ spaced (v ∷ ws)) p.1
    ∙ ap (λ s. to_words ([], s) (spaced (v ∷ ws))) (push_word_snoc w args p.0)
    ∙ to_words-spaced (v ∷ ws) (args ++ w ∷ []) a
    ∙ append_assoc args (w ∷ []) (v ∷ ws)

find_hash-none : (line : List ℕ) → All (λ c. c ≢ 35) line → find_hash line ≡ none
unfolding find_hash
find_hash-none [] a = refl
find_hash-none (c ∷ line) (p, a) = rw (find_hash-none line a) (ground (arith, p))

find_hash_at :
    (line rest : List ℕ)
    → All (λ c. c ≢ 35) line
    → find_hash (line ++ 35 ∷ rest) ≡ some (length line)
unfolding find_hash
find_hash_at [] rest a = refl
find_hash_at (c ∷ line) rest (p, a) = rw (find_hash_at line rest a) (ground (arith, p))

no_hash : (line : List ℕ) → All InLine line → All (λ c. c ≢ 35) line
no_hash [] a = a
no_hash (c ∷ line) (p, a) = (p.1, no_hash line a)

length-snoc : (text : List ℕ) (c : ℕ) → length (text ++ c ∷ []) ≡ suc (length text)
length-snoc [] c = refl
length-snoc (d ∷ text) c = ap suc (length-snoc text c)

no_hash_spaced : (ws : List (List ℕ)) → All IsWord ws → All (λ c. c ≢ 35) (spaced ws)
no_hash_spaced ws a = no_hash (spaced ws) (spaced-InLine ws a)

module _ {C : Type 0} where
  read_sentence_directive :
      (conf : Conf C) {c rc : ℕ} (e : Ends c rc) (ws : List (List ℕ)) (rest : List ℕ)
      → All IsWord ws
      → read_sentence conf (spaced ws ++ c ∷ rest) ≡ (rc, record conf { args = ws })
  unfolding read_sentence
  read_sentence_directive conf e ws rest a =
      rw
        (
          read_sentence,
          to_sentence_text e [] (spaced ws) rest (spaced-InLine ws a),
          to_words-spaced ws [] a,
        )
        refl

  read_sentence_open :
      (conf : Conf C) (ws : List (List ℕ))
      → All IsWord ws
      → read_sentence conf (spaced ws) ≡ (0, record conf { args = [] })
  unfolding read_sentence
  read_sentence_open conf ws a =
      rw (read_sentence, to_sentence_open [] (spaced ws) (spaced-InLine ws a)) refl

  -- A line of words with one blank between two, ended by `;`, `{` or `}` and with no `#` behind
  -- that, is read as these words, with 0, CONF_BLOCK_START or CONF_BLOCK_DONE.
  pub read_token-spaced :
      (conf : Conf C) {c rc : ℕ} (e : Ends c rc) (ws : List (List ℕ)) (rest : List ℕ)
      → All IsWord ws
      → All (λ d. d ≢ 35) (c ∷ rest)
      → read_token (record conf { line = spaced ws ++ c ∷ rest })
        ≡ (rc, record conf { line = spaced ws ++ c ∷ rest; args = ws })
  unfolding read_token
  read_token-spaced conf {c = c} e ws rest a clean =
      let all = All-append (λ d. d ≢ 35) (spaced ws) (c ∷ rest) (no_hash_spaced ws a) clean in
      rw (read_token, find_hash-none (spaced ws ++ c ∷ rest) all)
        (read_sentence_directive (record conf { line = spaced ws ++ c ∷ rest }) e ws rest a)

  read_token_before :
      (conf : Conf C) (text : List ℕ) (c : ℕ) (rest : List ℕ)
      → All (λ d. d ≢ 35) (text ++ c ∷ [])
      → read_token (record conf { line = text ++ c ∷ 35 ∷ rest })
        ≡ read_sentence (record conf { line = text ++ c ∷ 35 ∷ rest }) text
  unfolding read_token
  read_token_before conf text c rest clean =
      let at : find_hash (text ++ c ∷ 35 ∷ rest) ≡ some (suc (length text)) =
        ap find_hash (sym (snoc_append text c (35 ∷ rest)))
        ∙ find_hash_at (text ++ c ∷ []) rest clean
        ∙ ap some (length-snoc text c) in
      rw (read_token, at, take-front text (c ∷ 35 ∷ rest)) refl

  -- A comment takes the character in front of it along: a directive whose `;` stands directly in
  -- front of the `#` is passed over, and where a blank stands between them it is read.
  pub read_token_comment :
      (conf : Conf C) (ws : List (List ℕ)) (rest : List ℕ)
      → All IsWord ws
      → (read_token (record conf { line = spaced ws ++ 59 ∷ 35 ∷ rest })
          ≡ (0, record conf { line = spaced ws ++ 59 ∷ 35 ∷ rest; args = [] }))
        × (read_token (record conf { line = (spaced ws ++ 59 ∷ []) ++ 32 ∷ 35 ∷ rest })
            ≡ (0, record conf { line = (spaced ws ++ 59 ∷ []) ++ 32 ∷ 35 ∷ rest; args = ws }))
  read_token_comment conf ws rest a =
      let ended : All (λ d. d ≢ 35) (spaced ws ++ 59 ∷ []) =
        All-append (λ d. d ≢ 35) (spaced ws) (59 ∷ []) (no_hash_spaced ws a) (omega arith, tt) in
      let blank =
        All-append (λ d. d ≢ 35) (spaced ws ++ 59 ∷ []) (32 ∷ []) ended (omega arith, tt) in
      (
        read_token_before conf (spaced ws) 59 rest ended
            ∙ read_sentence_open (record conf { line = spaced ws ++ 59 ∷ 35 ∷ rest }) ws a,
        read_token_before conf (spaced ws ++ 59 ∷ []) 32 rest blank
            ∙ read_sentence_directive
                (record conf { line = (spaced ws ++ 59 ∷ []) ++ 32 ∷ 35 ∷ rest }) semicolon ws [] a,
      )
