-- ===== src/ConfParser.antt =====
-- src/kits/module/modules_parse.cpp, the parser of the configuration files, and its structures in
-- modules_conf.h and modules.h. A string is the list of its character codes. The stream that the
-- parser shares with the commands it calls is the list of the lines left, `none` where no file is
-- open; `file` is what opening `conf_file` gives. `C` is what the commands build up (the contexts
-- of the modules). `none` as a result is a fault: an index behind an array, or no fuel.
pub mod Parser
pub mod Tokens
pub mod Handler
pub mod Faults
pub mod Include
pub mod Directives
pub mod Setters
mod Tests
use hystack.Prelude.{
  ℕ, zero, suc, ◌+◌, ◌-◌, ◌^◌, Bool, true, false, not, ◌&&◌, ◌||◌, Option, none, some, List, [],
  ◌∷◌, ◌++◌, ltb, ◌==◌, if◌then◌else◌, ◌>>=◌, length, get_elem?, take,
}

abbrev pub conf_block_start : ℕ
conf_block_start = 1

abbrev pub conf_block_done : ℕ
conf_block_done = 2

abbrev pub conf_file_done : ℕ
conf_file_done = 3

pub record Conf (C : Type 0) : Type 0 where
  pub module_type : ℕ
  pub cmd_type : ℕ
  pub file : Option (List (List ℕ))
  pub stream : Option (List (List ℕ))
  pub args : List (List ℕ)
  pub line : List ℕ
  pub has_context : Bool
  pub context : C

-- Where a command's values stand: nowhere, in or at an entry of the context's array, or in the
-- array that the context holds at an offset (which may be null there).
pub data Slot : Type 0 where
  no_slot : Slot
  entry : ℕ → Slot
  address_of : ℕ → Slot
  within : ℕ → ℕ → Slot

-- `ptr_set` answers whether it returned something else than `nullptr`.
pub record Command (C : Type 0) : Type 0 where
  pub name : List ℕ
  pub type : ℕ
  pub conf : ℕ
  pub ptr_set : Conf C → Slot → Bool × Conf C

pub record Module (C : Type 0) : Type 0 where
  pub ctx_index : ℕ
  pub index : ℕ
  pub type : ℕ
  pub commands : List (Command C)

-- `line.find_first_of('#', 0)`
pub find_hash : List ℕ → Option ℕ
find_hash [] = none
find_hash (ch ∷ line) =
    if ch == 35 then some 0 else elim (find_hash line) [ none ↦ none | some pos ↦ some (suc pos) ]

-- A line end, a null character or a tab becomes a blank.
pub plain : ℕ → ℕ
plain ch = if (ch == 10) || (ch == 13) || (ch == 0) || (ch == 9) then 32 else ch

-- The first loop of `read_token`: the text up to a `;`, `{` or `}`, with what that stands for.
pub to_sentence : List ℕ → List ℕ → Option (ℕ × List ℕ)
to_sentence line [] = none
to_sentence line (ch ∷ sentence) =
    let more = to_sentence (line ++ plain ch ∷ []) sentence in
    if ch == 59
    then some (0, line)
    else if ch == 123
    then some (conf_block_start, line)
    else if ch == 125
    then some (conf_block_done, line)
    else more

-- The word read so far, as an argument if there is one.
pub push_word : List ℕ → List (List ℕ) → List (List ℕ)
push_word [] args = args
push_word (ch ∷ word) args = args ++ (ch ∷ word) ∷ []

-- One turn of the second loop of `read_token`: words end at a blank or a quotation mark.
pub word_step : ℕ → List ℕ × List (List ℕ) → List ℕ × List (List ℕ)
word_step ch (word, args) =
    if (ch == 32) || (ch == 34) then ([], push_word word args) else (word ++ ch ∷ [], args)

pub to_words : List ℕ × List (List ℕ) → List ℕ → List (List ℕ)
to_words (word, args) [] = push_word word args
to_words state (ch ∷ sentence) = to_words (word_step ch state) sentence

-- `strcmp(...) == 0` of two names without a null character.
pub same_text : List ℕ → List ℕ → Bool
same_text [] [] = true
same_text [] (d ∷ ds) = false
same_text (c ∷ cs) [] = false
same_text (c ∷ cs) (d ∷ ds) = let rest = same_text cs ds in if c == d then rest else false

module _ {C : Type 0} where
  -- `line.substr(0, pos - 1)` and the two loops. Without a `#`, `pos - 1` is longer than any line.
  pub read_sentence : Conf C → List ℕ → ℕ × Conf C
  read_sentence conf sentence = elim (to_sentence [] sentence) [
    | none ↦ (0, record conf { args = [] })
    | some (rc, line) ↦ (rc, record conf { args = to_words ([], []) line })
  ]

  pub read_token : Conf C → ℕ × Conf C
  read_token conf = elim (find_hash conf.line) [
    | none ↦ read_sentence conf conf.line
    | some zero ↦ (0, conf)
    | some (suc pos) ↦ read_sentence conf (take pos conf.line)
  ]

-- The setters for one value. `post` is the command's `post_handler`, which takes the value's
-- address: it answers whether it returned something else than `nullptr`, and may change the value.
module _ {V : Type 0} (post : Option (V → Bool × V)) where
  pub posted : V → Bool × V
  posted value = elim post [ none ↦ (true, value) | some handle ↦ handle value ]

pub flag : Option (ℕ → Bool × ℕ) → List (List ℕ) → ℕ → Bool × ℕ
flag post (name ∷ word ∷ []) value = posted post (if same_text word (111 ∷ 110 ∷ []) then 1 else 0)
flag post args value = (false, value)

pub msec : List (List ℕ) → ℕ → Bool × ℕ
msec args value = (false, value)

pub string : Option (List ℕ → Bool × List ℕ) → List (List ℕ) → List ℕ → Bool × List ℕ
string post (name ∷ word ∷ []) value = posted post (value ++ word)
string post args value = (false, value)

pub number : Option (ℕ → Bool × ℕ) → List (List ℕ) → ℕ → Bool × ℕ
number post (name ∷ word ∷ []) value = posted post value
number post args value = (false, value)
