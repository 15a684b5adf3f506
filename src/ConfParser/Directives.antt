-- ===== src/ConfParser/Directives.antt =====
-- A file of directives is given to the handler directive by directive, in their order.
use hystack.Prelude.{
  ℕ, zero, suc, ◌<◌, ◌≡◌, refl, ap, ◌∙◌, Bool, true, false, ◌>>=◌, Option, some, List, [], ◌∷◌,
  ◌++◌, map, arith, ◌==◌, if◌then◌else◌, length, All, length-append,
}
use hystack.ConfParser.{Conf, Module}
use hystack.ConfParser.Parser.{handler, ParseType, proceed, failed, after_token, turn, parse_lines}
use hystack.ConfParser.Faults.{RespectsAll, Follows, handler_total}
use hystack.ConfParser.Tokens.{IsWord, spaced, semicolon, read_token-spaced}
use hystack.ConfParser.Include.{follow}

-- A directive as the parser reads it.
unfoldable pub directive : List (List ℕ) → List ℕ
directive ws = spaced ws ++ 59 ∷ []

unfoldable pub IsDirective : List (List ℕ) → Type 0
IsDirective ws = (0 < length ws) × All IsWord ws

module _ {C : Type 0} where
  -- What the directives of a file should do: one after the other they are given to the handler,
  -- with the rest of the file still to read, until one is refused.
  unfoldable pub run_directives :
      List (Module C) → List (List (List ℕ)) → Conf C → Option (Bool × Conf C)
  run_directives ms [] conf = some (true, record conf { stream = some [] })
  run_directives ms (ws ∷ dirs) conf =
      handler ms
        (record conf { stream = some (map directive dirs); line = directive ws; args = ws }) 0
      >>= λ r. elim r.0 [
        | true ↦ run_directives ms dirs (record r.1 { args = [] })
        | false ↦ some (false, r.1)
      ]

  -- The command leaves the stream to the parser.
  unfoldable pub KeepsStream : Conf C → Conf C → Type 0
  KeepsStream cf cf' = cf'.stream ≡ cf.stream

  keeps_stream : (cf : Conf C) → KeepsStream cf cf
  unfolding KeepsStream
  keeps_stream cf = refl

  turn-directive :
      (ms : List (Module C)) (type : ParseType) (ws : List (List ℕ)) (conf : Conf C)
      → IsDirective ws
      → turn ms type (directive ws) conf ≡ (
          handler ms (record conf { line = directive ws; args = ws }) 0 >>= λ r.
          some (if r.0 then (proceed, record r.1 { args = [] }) else (failed, r.1)))
  unfolding turn after_token directive IsDirective
  turn-directive ms type ws conf (p, a) =
      let long : (length (spaced ws ++ 59 ∷ []) == 0) ≡ false =
        ground (arith, length-append (spaced ws) (59 ∷ [])) in
      let words : (length ws == 0) ≡ false = ground (arith, p) in
      rw
        (turn, long, read_token-spaced conf semicolon ws [] a (omega arith, tt), after_token, words)
        refl

  after_directive :
      (ms : List (Module C)) (turns : ℕ) (type : ParseType) (dirs : List (List (List ℕ)))
      (ok : Bool) (cf' : Conf C)
      → cf'.stream ≡ some (map directive dirs)
      → ((next : Conf C)
          → parse_lines ms turns type (record next { stream = some (map directive dirs) })
            ≡ run_directives ms dirs next)
      → follow ms turns type
          (some (if ok then (proceed, record cf' { args = [] }) else (failed, cf')))
        ≡ elim ok [
          | true ↦ run_directives ms dirs (record cf' { args = [] })
          | false ↦ some (false, cf')
        ]
  after_directive ms turns type dirs true cf' kept rest =
      let next : Conf C = record cf' { args = [] } in
      ap (λ s. parse_lines ms turns type (record next { stream = s })) kept ∙ rest next
  after_directive ms turns type dirs false cf' kept rest = refl

  -- A file of directives, each on its line, is read as these directives in their order. So is the
  -- rest of a file inside of a block, though the block is never closed.
  pub parse_lines-directives :
      (ms : List (Module C)) (turns : ℕ) (type : ParseType) (dirs : List (List (List ℕ)))
      (conf : Conf C)
      → All (RespectsAll KeepsStream) ms
      → All IsDirective dirs
      → length dirs < turns
      → parse_lines ms turns type (record conf { stream = some (map directive dirs) })
        ≡ run_directives ms dirs conf
  unfolding parse_lines run_directives IsDirective Follows KeepsStream
  parse_lines-directives ms zero type dirs conf a b p = absurd (omega (arith, p))
  parse_lines-directives ms (suc turns) type [] conf a b p = refl
  parse_lines-directives ms (suc turns) type (ws ∷ dirs) conf a (d, b) p =
      let conf' : Conf C = record conf {
        stream = some (map directive dirs);
        line = directive ws;
        args = ws;
      } in
      let ((ok, cf'), e, kept) = handler_total KeepsStream keeps_stream ms conf' 0 a (d.0) in
      rw
        (
          parse_lines,
          turn-directive ms type ws (record conf { stream = some (map directive dirs) }) d,
          e,
        )
        (after_directive ms turns type dirs ok cf' kept
          (λ next. parse_lines-directives ms turns type dirs next a b (omega (arith, p))))
