-- ===== src/ConfParser/Tests.antt =====
-- A configuration with a block, and the theorems at it.
use hystack.Prelude.{
  ℕ, ◌<◌, ◌≡◌, refl, Bool, true, false, Option, none, some, List, [], ◌∷◌, ◌++◌, map, arith, All,
  get_or,
}
use hystack.Base64.{codes}
use hystack.ConfParser.{
  Conf, Command, Module, Slot, find_hash, plain, to_sentence, push_word, word_step, to_words,
  read_sentence, read_token, same_text,
}
use hystack.ConfParser.Parser.{
  takes, slot, call, try_command, try_commands, try_modules, handler, is_block, is_param,
  after_token, turn, parse_lines, include_file, parse_block,
}
use hystack.ConfParser.Tokens.{
  IsLetter, IsWord, spaced, semicolon, read_token-spaced, read_token_comment,
}
use hystack.ConfParser.Handler.{Passes, PassesAll, in_place, settle, handler-settle}
use hystack.ConfParser.Faults.{Respects, RespectsAll}
use hystack.ConfParser.Include.{Consumes, include_file_total, remaining}
use hystack.ConfParser.Directives.{
  KeepsStream, directive, IsDirective, run_directives, parse_lines-directives,
}

-- The context is the words given so far.
abbrev set_word : Conf (List (List ℕ)) → Slot → Bool × Conf (List (List ℕ))
set_word cf s = (true, record cf { context = cf.context ++ get_or cf.args 1 [] ∷ [] })

abbrev worker : Command (List (List ℕ))
worker = record { name = codes "worker"; type = 0x1000002; conf = 0; ptr_set = set_word }

abbrev core : Module (List (List ℕ))
core = record { ctx_index = 0; index = 0; type = 7; commands = worker ∷ [] }

abbrev start : List (List ℕ) → Conf (List (List ℕ))
start lines = record {
  module_type = 7;
  cmd_type = 0x1000000;
  file = some lines;
  stream = none;
  args = [];
  line = [];
  has_context = true;
  context = [];
}

-- A block: its command calls `include_file` on the same stream.
abbrev events : ℕ → Command (List (List ℕ))
events turns = record {
  name = codes "events";
  type = 0x1000101;
  conf = 0;
  ptr_set = λ cf s. elim (include_file (core ∷ []) turns cf) [ none ↦ (false, cf) | some r ↦ r ];
}

abbrev blocks : Module (List (List ℕ))
blocks = record { ctx_index = 0; index = 1; type = 7; commands = events 9 ∷ [] }

words_of : Option (Bool × Conf (List (List ℕ))) → Option (Bool × List (List ℕ))
words_of none = none
words_of (some (ok, cf)) = some (ok, cf.context)

read_blocks :
    words_of (
      include_file (core ∷ blocks ∷ []) 9 (
        start (
          codes "worker 4;"
          ∷ codes ""
          ∷ codes "# all"
          ∷ codes "events {"
          ∷ codes "\tworker \"ab\";"
          ∷ codes "  worker c; # last"
          ∷ codes "}"
          ∷ codes "worker 5;"
          ∷ [])))
    ≡ some (true, codes "4" ∷ codes "ab" ∷ codes "c" ∷ codes "5" ∷ [])
unfolding words_of include_file parse_lines turn after_token handler try_modules try_commands
    try_command call slot takes same_text read_token read_sentence to_sentence plain to_words
    word_step push_word find_hash is_block is_param
read_blocks = refl

-- A value in quotation marks with a blank is two words, which `worker` does not take.
read_quoted :
    words_of (include_file (core ∷ blocks ∷ []) 9 (start (codes "worker \"a b\";" ∷ [])))
    ≡ some (false, [])
unfolding words_of include_file parse_lines turn after_token handler try_modules try_commands
    try_command call slot takes same_text read_token read_sentence to_sentence plain to_words
    word_step push_word find_hash is_block is_param
read_quoted = refl

abbrev two_words : List (List ℕ)
two_words = codes "worker" ∷ codes "4" ∷ []

letter : (c : ℕ) → 47 < c → c < 59 → IsLetter c
letter c p q = record {
  visible = omega arith;
  not_quote = omega arith;
  not_hash = omega arith;
  not_semicolon = omega arith;
  not_open = omega arith;
  not_close = omega arith;
}

small : (c : ℕ) → 96 < c → c < 123 → IsLetter c
small c p q = record {
  visible = omega arith;
  not_quote = omega arith;
  not_hash = omega arith;
  not_semicolon = omega arith;
  not_open = omega arith;
  not_close = omega arith;
}

two_words-IsWord : All IsWord two_words
two_words-IsWord = (
  (
    omega arith,
    (
      small 119 (omega arith) (omega arith),
      (
        small 111 (omega arith) (omega arith),
        (
          small 114 (omega arith) (omega arith),
          (
            small 107 (omega arith) (omega arith),
            (small 101 (omega arith) (omega arith), (small 114 (omega arith) (omega arith), tt)),
          ),
        ),
      ),
    ),
  ),
  ((omega arith, (letter 52 (omega arith) (omega arith), tt)), tt),
)

read_token-spaced_example :
    read_token (record (start []) { line = spaced two_words ++ 59 ∷ 32 ∷ [] })
    ≡ (0, record (start []) { line = spaced two_words ++ 59 ∷ 32 ∷ []; args = two_words })
read_token-spaced_example =
    read_token-spaced (start []) semicolon two_words (32 ∷ []) two_words-IsWord
      (omega arith, (omega arith, tt))

read_token_comment_example :
    (read_token (record (start []) { line = spaced two_words ++ 59 ∷ 35 ∷ [] })
      ≡ (0, record (start []) { line = spaced two_words ++ 59 ∷ 35 ∷ []; args = [] }))
    × (read_token (record (start []) { line = (spaced two_words ++ 59 ∷ []) ++ 32 ∷ 35 ∷ [] }) ≡ (
      0,
      record (start []) { line = (spaced two_words ++ 59 ∷ []) ++ 32 ∷ 35 ∷ []; args = two_words },
    ))
read_token_comment_example = read_token_comment (start []) two_words [] two_words-IsWord

abbrev given : Conf (List (List ℕ))
given = record (start []) { args = codes "worker" ∷ codes "4" ∷ [] }

abbrev unknown : Conf (List (List ℕ))
unknown = record (start []) { args = codes "events" ∷ codes "4" ∷ [] }

core_passes : All (PassesAll (codes "events") unknown) (core ∷ [])
unfolding PassesAll Passes same_text
core_passes = (((omega arith, refl), tt), tt)

worker-in_place : in_place core worker given ≡ true
unfolding in_place
worker-in_place = refl

handler-settle_example : handler (core ∷ blocks ∷ []) given 0 ≡ some (settle core worker 0 given)
handler-settle_example =
    handler-settle [] core (blocks ∷ []) [] worker [] (codes "4" ∷ []) 0 (start []) tt refl tt
      (omega arith) worker-in_place

core-Consumes : All (RespectsAll Consumes) (core ∷ [])
unfolding RespectsAll Respects Consumes remaining
core-Consumes = (((λ cf s. omega arith), tt), tt)

core_keeps : All (RespectsAll KeepsStream) (core ∷ [])
unfolding RespectsAll Respects KeepsStream
core_keeps = (((λ cf s. refl), tt), tt)

include_file_total_example :
    (r : Bool × Conf (List (List ℕ))) × (include_file (core ∷ []) 2 (start (codes "worker 4;" ∷ []))
      ≡ some r)
include_file_total_example =
    include_file_total (core ∷ []) 2 (start (codes "worker 4;" ∷ [])) core-Consumes (omega arith)

two_words-IsDirective : All IsDirective (two_words ∷ [])
unfolding IsDirective
two_words-IsDirective = ((omega arith, two_words-IsWord), tt)

parse_lines-directives_example :
    parse_lines
      (core ∷ [])
      2
      parse_block
      (record (start []) { stream = some (map directive (two_words ∷ [])) })
    ≡ run_directives (core ∷ []) (two_words ∷ []) (start [])
parse_lines-directives_example =
    parse_lines-directives (core ∷ []) 2 parse_block (two_words ∷ []) (start []) core_keeps
      two_words-IsDirective (omega arith)
