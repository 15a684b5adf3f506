-- ===== src/ConfParser/Include.antt =====
-- The loop of `include_file` ends.
use hystack.Prelude.{
  ℕ, zero, suc, ◌+◌, ◌<◌, ◌≤◌, ◌≡◌, refl, ap, Bool, true, false, ◌&&◌, ◌>>=◌, Option, none, some,
  List, [], ◌∷◌, arith, ◌==◌, if◌then◌else◌, length, take, All, Bool-cases, Option-cases, ◌⊎◌, inl,
  inr,
}
use hystack.ConfParser.{
  Conf, Module, read_token, read_sentence, to_sentence, find_hash, conf_block_start,
  conf_block_done, conf_file_done,
}
use hystack.ConfParser.Parser.{
  handler, ParseType, parse_file, parse_block, Turn, proceed, done, failed, is_block, is_param,
  after_token, turn, parse_lines, include_file,
}
use hystack.ConfParser.Faults.{Gives, gives, Gives-if, RespectsAll, Follows, handler_total}

stream_cases :
    (stream : Option (List (List ℕ)))
    → (stream ≡ none)
      ⊎ ((stream ≡ some [])
          ⊎ ((line : List ℕ) × (lines : List (List ℕ)) × (stream ≡ some (line ∷ lines))))
stream_cases none = inl refl
stream_cases (some []) = inr (inl refl)
stream_cases (some (line ∷ lines)) = inr (inr (line, lines, refl))

abbrev pub lines_left : Option (List (List ℕ)) → ℕ
lines_left none = 0
lines_left (some lines) = length lines

module _ {C : Type 0} where
  -- The lines that the stream has left.
  unfoldable pub remaining : Conf C → ℕ
  remaining conf = lines_left conf.stream

  -- No command puts lines back.
  unfoldable pub Consumes : Conf C → Conf C → Type 0
  Consumes cf cf' = remaining cf' ≤ remaining cf

  Consumes-nothing : (cf : Conf C) → Consumes cf cf
  unfolding Consumes
  Consumes-nothing cf = omega arith

  Advances : Conf C → Turn × Conf C → Type 0
  Advances cf t = remaining t.1 ≤ remaining cf

  read_sentence-stream :
      (conf : Conf C) (sentence : List ℕ) → (read_sentence conf sentence).1.stream ≡ conf.stream
  unfolding read_sentence
  read_sentence-stream conf sentence = elim (Option-cases (to_sentence [] sentence)) [
    | inl e ↦ rw (read_sentence, e) refl
    | inr (_, e) ↦ rw (read_sentence, e) refl
  ]

  read_token-stream : (conf : Conf C) → (read_token conf).1.stream ≡ conf.stream
  unfolding read_token
  read_token-stream conf = elim (Option-cases (find_hash conf.line)) [
    | inl e ↦ rw (read_token, e) (read_sentence-stream conf conf.line)
    | inr (zero, e) ↦ rw (read_token, e) refl
    | inr (suc pos, e) ↦ rw (read_token, e) (read_sentence-stream conf (take pos conf.line))
  ]

  handled :
      (conf : Conf C) {o : Option (Bool × Conf C)}
      → Gives (Follows Consumes conf) o
      → Gives
          (Advances conf)
          (o >>= λ r. some (if r.0 then (proceed, record r.1 { args = [] }) else (failed, r.1)))
  unfolding Follows Consumes Advances remaining
  handled conf ((true, conf'), e, q) = rw e ((proceed, record conf' { args = [] }), refl, q)
  handled conf ((false, conf'), e, q) = rw e ((failed, conf'), refl, q)

  -- What `after_token` does with words.
  with_words :
      (ms : List (Module C)) (rc : ℕ) (conf : Conf C)
      → All (RespectsAll Consumes) ms
      → Gives (Advances conf) (
          if length conf.args == 0
          then some (proceed, conf)
          else handler ms conf rc >>= λ r.
              some (if r.0 then (proceed, record r.1 { args = [] }) else (failed, r.1)))
  unfolding Advances
  with_words ms rc conf a = elim (Bool-cases (length conf.args == 0)) [
    | inl e ↦ rw e ((proceed, conf), refl, omega arith)
    | inr e ↦
        rw e (handled conf (handler_total Consumes Consumes-nothing ms conf rc a (ground arith)))
  ]

  after_token_total :
      (ms : List (Module C)) (type : ParseType) (rc : ℕ) (conf : Conf C)
      → All (RespectsAll Consumes) ms
      → Gives (Advances conf) (after_token ms type (rc, conf))
  unfolding after_token Advances
  after_token_total ms type rc conf a =
      let Q : Turn × Conf C → Type 0 = Advances conf in
      Gives-if Q (rc == conf_block_done)
        (gives Q (if is_block type then done else failed, conf) (omega arith))
        (Gives-if Q (rc == conf_file_done)
          (gives Q (if is_block type then failed else done, conf) (omega arith))
          (Gives-if Q ((rc == conf_block_start) && is_param type)
            (gives Q (failed, conf) (omega arith)) (with_words ms rc conf a)))

  turn_total :
      (ms : List (Module C)) (type : ParseType) (line : List ℕ) (conf : Conf C)
      → All (RespectsAll Consumes) ms
      → Gives (Advances conf) (turn ms type line conf)
  unfolding turn Advances remaining
  turn_total ms type line conf a =
      let Q : Turn × Conf C → Type 0 = Advances conf in
      let conf' : Conf C = record conf { line = line } in
      let (t, e, q) = after_token_total ms type (read_token conf').0 (read_token conf').1 a in
      let k : remaining t.1 ≤ remaining conf =
        omega (arith, q, ap lines_left (read_token-stream conf')) in
      Gives-if Q (length line == 0) (gives Q (proceed, conf) (omega arith)) (t, e, k)

  -- What `parse_lines` makes of a turn.
  abbrev pub follow :
      List (Module C) → ℕ → ParseType → Option (Turn × Conf C) → Option (Bool × Conf C)
  follow ms turns type o = elim o [
    | none ↦ none
    | some (failed, conf') ↦ some (false, conf')
    | some (done, conf') ↦ some (true, conf')
    | some (proceed, conf') ↦ parse_lines ms turns type conf'
  ]

  after_turn :
      (ms : List (Module C)) (turns : ℕ) (type : ParseType) (conf : Conf C)
      {o : Option (Turn × Conf C)}
      → Gives (Advances conf) o
      → ((next : Conf C)
          → remaining next ≤ remaining conf
          → (r : Bool × Conf C) × (parse_lines ms turns type next ≡ some r))
      → (r : Bool × Conf C) × (follow ms turns type o ≡ some r)
  unfolding Advances
  after_turn ms turns type conf ((proceed, next), e, q) k = rw e (k next q)
  after_turn ms turns type conf ((done, next), e, q) k = rw e ((true, next), refl)
  after_turn ms turns type conf ((failed, next), e, q) k = rw e ((false, next), refl)

  -- With a turn for each line left and one more, the loop ends.
  parse_lines_total :
      (ms : List (Module C)) (turns : ℕ) (type : ParseType) (conf : Conf C)
      → All (RespectsAll Consumes) ms
      → remaining conf < turns
      → (r : Bool × Conf C) × (parse_lines ms turns type conf ≡ some r)
  unfolding parse_lines Advances remaining
  parse_lines_total ms zero type conf a p = absurd (omega (arith, p))
  parse_lines_total ms (suc turns) type conf a p = elim (stream_cases conf.stream) [
    | inl e ↦ rw (parse_lines, e) ((true, conf), refl)
    | inr (inl e) ↦ rw (parse_lines, e) ((true, conf), refl)
    | inr (inr (line, lines, e)) ↦
        let conf' : Conf C = record conf { stream = some lines } in
        rw (parse_lines, e)
          (after_turn ms turns type conf' (turn_total ms type line conf' a) (λ next q.
            parse_lines_total ms turns type next a (omega (arith, p, q, ap lines_left e))))
  ]

  -- Where no command puts lines back, `include_file` returns within a turn for each line of the
  -- stream, or of the file if no stream is open, and one more.
  pub include_file_total :
      (ms : List (Module C)) (turns : ℕ) (conf : Conf C)
      → All (RespectsAll Consumes) ms
      → lines_left conf.stream + lines_left conf.file < turns
      → (r : Bool × Conf C) × (include_file ms turns conf ≡ some r)
  unfolding include_file remaining
  include_file_total ms turns conf a p = elim (Option-cases conf.stream) [
    | inr (lines, e) ↦
        rw (include_file, e) (parse_lines_total ms turns parse_block conf a (omega (arith, p)))
    | inl e ↦ elim (Option-cases conf.file) [
      | inl f ↦ rw (include_file, e, f) ((false, conf), refl)
      | inr (lines, f) ↦
          rw (include_file, e, f)
            (parse_lines_total ms turns parse_file (record conf { stream = some lines }) a
              (omega (arith, p, ap lines_left f)))
    ]
  ]
