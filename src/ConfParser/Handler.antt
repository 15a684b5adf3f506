-- ===== src/ConfParser/Handler.antt =====
-- Which command a directive is given to, and what the calls do to the stream.
use hystack.Prelude.{
  ℕ, zero, suc, ◌-◌, ◌^◌, ◌<◌, leb, ltb, get_elem?, Bool-cases, inl, inr, ◌≡◌, refl, sym, ap, ◌∙◌,
  Bool, true, false, ◌&&◌, ◌||◌, Option, none, some, List, [], ◌∷◌, ◌++◌, arith, ◌==◌,
  if◌then◌else◌, length, All, append-nil,
}
use hystack.ConfParser.{
  Conf, Command, Module, Slot, entry, address_of, within, no_slot, same_text, conf_block_start,
}
use hystack.ConfParser.Parser.{
  argument_number, Search, looking, returns, has, takes, slot, call, try_command, try_commands,
  try_modules, handler, conf_block,
}

same_text_self : (name : List ℕ) → same_text name name ≡ true
unfolding same_text
same_text_self [] = refl
same_text_self (c ∷ name) = rw (same_text_self name) (ground arith)

-- Whether a directive of `size` words, its name counted, suits a command of the type: CONF_ANY,
-- CONF_FLAG, CONF_1MORE and CONF_2MORE come first, and else the type has a bit for each number from
-- one to eight.
unfoldable pub words_fit : ℕ → ℕ → Bool
words_fit type size =
    if has type (2 ^ 10)
    then true
    else if has type (2 ^ 9)
    then size == 2
    else if has type (2 ^ 11)
    then leb 2 size
    else if has type (2 ^ 12)
    then leb 3 size
    else leb size 8 && has type (2 ^ (size - 1))

table : (n : ℕ) → n < 8 → get_elem? argument_number n ≡ some (2 ^ n)
table zero p = refl
table (suc zero) p = refl
table (suc (suc zero)) p = refl
table (suc (suc (suc zero))) p = refl
table (suc (suc (suc (suc zero)))) p = refl
table (suc (suc (suc (suc (suc zero))))) p = refl
table (suc (suc (suc (suc (suc (suc zero)))))) p = refl
table (suc (suc (suc (suc (suc (suc (suc zero))))))) p = refl
table (suc (suc (suc (suc (suc (suc (suc (suc n)))))))) p = absurd (omega arith)

-- The tests of the handler on a directive of at least one word.
takes_lem : (type n : ℕ) → takes type (suc n) ≡ some (words_fit type (suc n))
unfolding takes words_fit
takes_lem type n = elim (Bool-cases (ltb 8 (suc n))) [
  | inl many ↦ ground arith
  | inr few ↦
      let e : suc n - 1 ≡ n = omega arith in
      let t = table n (ground (arith, few)) in rw (few, e, t) (ground arith)
]

module _ {C : Type 0} where
  -- Whether the module and the command are for the place where the parser is.
  unfoldable pub in_place : Module C → Command C → Conf C → Bool
  in_place m cmd cf =
      ((m.type == 0x464e4f43) || (m.type == cf.module_type)) && has cmd.type cf.cmd_type

  -- Whether the end of the directive, `;` or `{`, fits the command.
  unfoldable pub fits : Command C → ℕ → Bool
  fits cmd last = if has cmd.type conf_block then last == conf_block_start else last == 0

  pub try_command_lem :
      (m : Module C) (cmd : Command C) (found : Bool) (name : List ℕ) (last : ℕ) (cf : Conf C)
      → try_command m cmd found name last cf ≡ (
          if same_text name cmd.name
          then (if in_place m cmd cf
              then (if fits cmd last
                  then elim (takes cmd.type (length cf.args)) [
                    | none ↦ none
                    | some taken ↦ some (if taken then call m cmd cf else returns false cf)
                  ]
                  else some (returns false cf))
              else some (looking true))
          else some (looking found))
  unfolding try_command in_place fits
  try_command_lem m cmd found name last cf = ground arith

  -- A command that the search goes past: its name differs, or it is for another place.
  unfoldable pub Passes : List ℕ → Conf C → Module C → Command C → Type 0
  Passes name cf m cmd =
      (0 < length cmd.name) × ((same_text name cmd.name && in_place m cmd cf) ≡ false)

  -- Whether one of the commands has the name.
  unfoldable pub any_named : List ℕ → List (Command C) → Bool
  any_named name [] = false
  any_named name (cmd ∷ cmds) = same_text name cmd.name || any_named name cmds

  unfoldable pub any_module : List ℕ → List (Module C) → Bool
  any_module name [] = false
  any_module name (m ∷ ms) = any_named name m.commands || any_module name ms

  -- What the command is told about where its values stand.
  unfoldable pub told : Module C → Command C → Conf C → Slot
  told m cmd cf =
      if has cmd.type 0x10000
      then entry m.index
      else if has cmd.type 0x1000000
      then address_of m.index
      else if cf.has_context
      then within cmd.conf m.ctx_index
      else no_slot

  -- What the first command in place makes of the directive: it is called where the directive's end
  -- and the number of its words fit.
  unfoldable pub settle : Module C → Command C → ℕ → Conf C → Bool × Conf C
  settle m cmd last cf =
      if fits cmd last && words_fit cmd.type (length cf.args)
      then cmd.ptr_set cf (told m cmd cf)
      else (false, cf)

  unfoldable pub PassesAll : List ℕ → Conf C → Module C → Type 0
  PassesAll name cf m = All (Passes name cf m) m.commands

  returned : Option (Bool × Conf C) → Option (Search C)
  returned none = none
  returned (some (ok, cf)) = some (returns ok cf)

  module _ (name : List ℕ) (last : ℕ) (cf : Conf C) where
    try_command-Passes :
        (m : Module C) (cmd : Command C) (found : Bool)
        → Passes name cf m cmd
        → try_command m cmd found name last cf ≡ some (looking (found || same_text name cmd.name))
    unfolding Passes
    try_command-Passes m cmd found p =
        try_command_lem m cmd found name last cf ∙ ground (arith, p.1)

    try_command-settles :
        (m : Module C) (cmd : Command C) (found : Bool)
        → same_text name cmd.name ≡ true
        → in_place m cmd cf ≡ true
        → (n : ℕ) → length cf.args ≡ suc n
        → try_command m cmd found name last cf ≡ returned (some (settle m cmd last cf))
    unfolding returned settle call told slot
    try_command-settles m cmd found e p n size =
        try_command_lem m cmd found name last cf
        ∙ rw (e, p, size, takes_lem cmd.type n) (ground arith)

    try_commands_named :
        (m : Module C) (cmd : Command C) (cmds : List (Command C)) (found : Bool)
        → 0 < length cmd.name
        → try_commands m (cmd ∷ cmds) found name last cf
          ≡ elim (try_command m cmd found name last cf) [
            | none ↦ none
            | some (returns ok cf') ↦ some (returns ok cf')
            | some (looking found') ↦ try_commands m cmds found' name last cf
          ]
    unfolding try_commands
    try_commands_named m cmd cmds found p =
        let e : length cmd.name ≡ suc (length cmd.name - 1) = omega (arith, p) in
        rw (try_commands, e) refl

    try_commands-Passes :
        (m : Module C) (before after : List (Command C)) (found : Bool)
        → All (Passes name cf m) before
        → try_commands m (before ++ after) found name last cf
          ≡ try_commands m after (found || any_named name before) name last cf
    unfolding any_named Passes
    try_commands-Passes m [] after found a =
        ap (λ b. try_commands m after b name last cf) (ground arith)
    try_commands-Passes m (cmd ∷ before) after found (p, a) =
        try_commands_named m cmd (before ++ after) found p.0
        ∙ rw (try_command-Passes m cmd found p) (
            try_commands-Passes m before after (found || same_text name cmd.name) a
            ∙ ap (λ b. try_commands m after b name last cf) (ground arith))

    try_commands-settles :
        (m : Module C) (cmd : Command C) (after : List (Command C)) (found : Bool)
        → 0 < length cmd.name
        → same_text name cmd.name ≡ true
        → in_place m cmd cf ≡ true
        → (n : ℕ) → length cf.args ≡ suc n
        → try_commands m (cmd ∷ after) found name last cf ≡ returned (some (settle m cmd last cf))
    unfolding returned
    try_commands-settles m cmd after found p e q n size =
        try_commands_named m cmd after found p
        ∙ rw (try_command-settles m cmd found e q n size) (ground arith)

    module_passes :
        (m : Module C) (found : Bool)
        → PassesAll name cf m
        → try_commands m m.commands found name last cf
          ≡ some (looking (found || any_named name m.commands))
    unfolding PassesAll try_commands
    module_passes m found a =
        ap (λ cmds. try_commands m cmds found name last cf) (sym (append-nil m.commands))
        ∙ try_commands-Passes m m.commands [] found a

    try_modules-passes :
        (before after : List (Module C)) (found : Bool)
        → All (PassesAll name cf) before
        → try_modules (before ++ after) found name last cf
          ≡ try_modules after (found || any_module name before) name last cf
    unfolding try_modules any_module PassesAll
    try_modules-passes [] after found a = ap (λ b. try_modules after b name last cf) (ground arith)
    try_modules-passes (m ∷ before) after found (p, a) =
        rw (try_modules, module_passes m found p)
          (try_modules-passes before after (found || any_named name m.commands) a
            ∙ ap (λ b. try_modules after b name last cf) (ground arith))

    try_modules-returned :
        (m : Module C) (after : List (Module C)) (found : Bool) (result : Option (Bool × Conf C))
        → try_commands m m.commands found name last cf ≡ returned result
        → try_modules (m ∷ after) found name last cf ≡ result
    unfolding try_modules returned
    try_modules-returned m after found none e = rw (try_modules, e) refl
    try_modules-returned m after found (some (ok, cf')) e = rw (try_modules, e) refl

  -- The first command with the name that is in place settles the directive. Where the end of the
  -- directive fits it (`{` for a block, `;` for others), and the number of words, as `words_fit` says,
  -- it is called with its slot, as `told` says, and its answer is the result; where they do not fit
  -- the directive is refused.
  pub handler-settle :
      (before : List (Module C)) (m : Module C) (after : List (Module C)) (above : List (Command C))
      (cmd : Command C) (below : List (Command C)) (words : List (List ℕ)) (last : ℕ) (cf : Conf C)
      → All (PassesAll cmd.name (record cf { args = cmd.name ∷ words })) before
      → m.commands ≡ above ++ cmd ∷ below
      → All (Passes cmd.name (record cf { args = cmd.name ∷ words }) m) above
      → 0 < length cmd.name
      → in_place m cmd (record cf { args = cmd.name ∷ words }) ≡ true
      → handler (before ++ m ∷ after) (record cf { args = cmd.name ∷ words }) last
        ≡ some (settle m cmd last (record cf { args = cmd.name ∷ words }))
  unfolding handler
  handler-settle before m after above cmd below words last cf a e b p q =
      let cf' : Conf C = record cf { args = cmd.name ∷ words } in
      let named = same_text_self cmd.name in
      let found = false || any_module cmd.name before in
      let search =
        ap (λ cmds. try_commands m cmds found cmd.name last cf') e
        ∙ try_commands-Passes cmd.name last cf' m above (cmd ∷ below) found b
        ∙ try_commands-settles cmd.name last cf' m cmd below (found || any_named cmd.name above) p
            named q (length words) refl in
      try_modules-passes cmd.name last cf' before (m ∷ after) false a
      ∙ try_modules-returned cmd.name last cf' m after found (some (settle m cmd last cf')) search
