-- ===== src/ConfParser/Parser.antt =====
-- src/kits/module/modules_parse.cpp: modules_parse::handler and include_file.
use Prim.Native.Nat.{bit_and}
use hystack.Prelude.{
  ℕ, zero, suc, ◌-◌, Bool, true, false, not, ◌&&◌, Option, none, some, List, [], ◌∷◌, ltb, ◌==◌,
  if◌then◌else◌, ◌>>=◌, length, get_elem?,
}
use hystack.ConfParser.{
  Conf, Command, Module, Slot, no_slot, entry, address_of, within, conf_block_start,
  conf_block_done, conf_file_done, same_text, read_token,
}

abbrev pub conf_block : ℕ
conf_block = 0x100

-- `type & flag`
abbrev pub has : ℕ → ℕ → Bool
has type flag = not (bit_and type flag == 0)

-- `argument_number`
abbrev pub argument_number : List ℕ
argument_number = 0x01 ∷ 0x02 ∷ 0x04 ∷ 0x08 ∷ 0x10 ∷ 0x20 ∷ 0x40 ∷ 0x80 ∷ []

-- Whether a command of this type takes as many words, its name counted.
unfoldable pub takes : ℕ → ℕ → Option Bool
takes type size =
    if has type 0x400
    then some true
    else if has type 0x200
    then some (size == 2)
    else if has type 0x800
    then some (not (ltb size 2))
    else if has type 0x1000
    then some (not (ltb size 3))
    else if ltb 8 size
    then some false
    else if size == 0
    then none
    else do number ← get_elem? argument_number (size - 1); some (has type number)

pub data ParseType : Type 0 where
  parse_file : ParseType
  parse_block : ParseType
  parse_param : ParseType

pub data Turn : Type 0 where
  proceed : Turn
  done : Turn
  failed : Turn

unfoldable pub is_block : ParseType → Bool
is_block parse_block = true
is_block parse_file = false
is_block parse_param = false

unfoldable pub is_param : ParseType → Bool
is_param parse_param = true
is_param parse_file = false
is_param parse_block = false

-- What a turn of a loop over commands finds: the search goes on, knowing whether some command had
-- the name, or the handler returns.
pub data Search (C : Type 0) : Type 0 where
  looking : Bool → Search C
  returns : Bool → Conf C → Search C

module _ {C : Type 0} where
  -- (With a null context the first two cases are undefined; where the parser reads a file it is set.)
  unfoldable pub slot : Conf C → Module C → Command C → Slot
  slot cf m cmd =
      if has cmd.type 0x10000
      then entry m.index
      else if has cmd.type 0x1000000
      then address_of m.index
      else if cf.has_context
      then within cmd.conf m.ctx_index
      else no_slot

  unfoldable pub call : Module C → Command C → Conf C → Search C
  call m cmd cf = let (ok, cf') = cmd.ptr_set cf (slot cf m cmd) in returns ok cf'

  unfoldable pub try_command : Module C → Command C → Bool → List ℕ → ℕ → Conf C → Option (Search C)
  try_command m cmd found name last cf =
      if not (same_text name cmd.name)
      then some (looking found)
      else if not (m.type == 0x464e4f43) && not (m.type == cf.module_type)
      then some (looking true)
      else if not (has cmd.type cf.cmd_type)
      then some (looking true)
      else if not (has cmd.type conf_block) && not (last == 0)
      then some (returns false cf)
      else if has cmd.type conf_block && not (last == conf_block_start)
      then some (returns false cf)
      else do
        taken ← takes cmd.type (length cf.args)
        some (if taken then call m cmd cf else returns false cf)

  -- The inner loop ends at a command without a name.
  unfoldable pub try_commands :
      Module C → List (Command C) → Bool → List ℕ → ℕ → Conf C → Option (Search C)
  try_commands m [] found name last cf = some (looking found)
  try_commands m (cmd ∷ cmds) found name last cf = elim (length cmd.name) [
    | zero ↦ some (looking found)
    | suc _ ↦ elim (try_command m cmd found name last cf) [
      | none ↦ none
      | some (returns ok cf') ↦ some (returns ok cf')
      | some (looking found') ↦ try_commands m cmds found' name last cf
    ]
  ]

  unfoldable pub try_modules : List (Module C) → Bool → List ℕ → ℕ → Conf C → Option (Bool × Conf C)
  try_modules [] found name last cf = some (found, cf)
  try_modules (m ∷ ms) found name last cf = elim (try_commands m m.commands found name last cf) [
    | none ↦ none
    | some (returns ok cf') ↦ some (ok, cf')
    | some (looking found') ↦ try_modules ms found' name last cf
  ]

  -- Whether the result is 0, or else -1.
  unfoldable pub handler : List (Module C) → Conf C → ℕ → Option (Bool × Conf C)
  handler modules cf last = do name ← get_elem? cf.args 0; try_modules modules false name last cf

  -- The loop's body from the call of `read_token` on. That returns no -1, so the first test of the
  -- source never holds.
  unfoldable pub after_token : List (Module C) → ParseType → ℕ × Conf C → Option (Turn × Conf C)
  after_token modules type (rc, conf) =
      if rc == conf_block_done
      then some (if is_block type then done else failed, conf)
      else if rc == conf_file_done
      then some (if is_block type then failed else done, conf)
      else if (rc == conf_block_start) && is_param type
      then some (failed, conf)
      else if length conf.args == 0
      then some (proceed, conf)
      else do
        (ok, conf') ← handler modules conf rc
        some (if ok then (proceed, record conf' { args = [] }) else (failed, conf'))

  unfoldable pub turn : List (Module C) → ParseType → List ℕ → Conf C → Option (Turn × Conf C)
  turn modules type line conf =
      if length line == 0
      then some (proceed, conf)
      else after_token modules type (read_token (record conf { line = line }))

  -- The loop, with the turns left. `getline` fails at the end of the stream, or on a closed one.
  unfoldable pub parse_lines : List (Module C) → ℕ → ParseType → Conf C → Option (Bool × Conf C)
  parse_lines modules zero type conf = none
  parse_lines modules (suc turns) type conf = elim conf.stream [
    | none ↦ some (true, conf)
    | some [] ↦ some (true, conf)
    | some (line ∷ lines) ↦ elim (turn modules type line (record conf { stream = some lines })) [
      | none ↦ none
      | some (failed, conf') ↦ some (false, conf')
      | some (done, conf') ↦ some (true, conf')
      | some (proceed, conf') ↦ parse_lines modules turns type conf'
    ]
  ]

  -- Whether the result is not `nullptr`.
  unfoldable pub include_file : List (Module C) → ℕ → Conf C → Option (Bool × Conf C)
  include_file modules turns conf = elim conf.stream [
    | some _ ↦ parse_lines modules turns parse_block conf
    | none ↦ elim conf.file [
      | none ↦ some (false, conf)
      | some lines ↦ parse_lines modules turns parse_file (record conf { stream = some lines })
    ]
  ]
