-- ===== src/ConfParser/Faults.antt =====
-- The handler is never at fault on a directive with words, and what it leaves the parser's state
-- in is what the commands do.
use hystack.Prelude.{
  ℕ, zero, suc, ◌-◌, ◌<◌, ◌≡◌, refl, Bool, true, false, not, ◌>>=◌, get_elem?-eq-get_or, Option,
  none, some, List, [], ◌∷◌, arith, ◌==◌, if◌then◌else◌, length, get_elem?, get_or, ltb, All,
  Bool-cases, inl, inr,
}
use hystack.ConfParser.{Conf, Command, Module, Slot, same_text}
use hystack.ConfParser.Parser.{
  Search, looking, returns, has, takes, slot, call, try_command, try_commands, try_modules, handler,
  argument_number,
}
use hystack.ConfParser.Handler.{in_place, fits, try_command_lem}

-- An outcome that is no fault, with what holds of it.
abbrev pub Gives {ℓ κ} : {A : Type ℓ} → (A → Type κ) → Option A → Type (ℓ ⊔ κ)
Gives {A = A} Q o = (a : A) × (o ≡ some a) × Q a

module _ {ℓ κ} {A : Type ℓ} (Q : A → Type κ) where
  pub gives : (a : A) → Q a → Gives Q (some a)
  gives a q = (a, refl, q)

  pub Gives-if : (b : Bool) {x y : Option A} → Gives Q x → Gives Q y → Gives Q (if b then x else y)
  Gives-if true p q = p
  Gives-if false p q = q

abbrev Any : Bool → Type 0
Any b = Unit

-- The words of a directive are counted in the table of the source, so the table is never read
-- behind its end.
takes_counted :
    (type size : ℕ)
    → 0 < size
    → Gives Any (
        if ltb 8 size
        then some false
        else if size == 0
        then none
        else get_elem? argument_number (size - 1) >>= λ number. some (has type number))
takes_counted type size p = elim (Bool-cases (ltb 8 size)) [
  | inl e ↦ rw e (gives Any false tt)
  | inr e ↦
      let at = get_elem?-eq-get_or argument_number (size - 1) 0 (ground arith) in
      let z : (size == 0) ≡ false = ground arith in rw (e, z, at) (gives Any _ tt)
]

takes_total : (type size : ℕ) → 0 < size → Gives Any (takes type size)
unfolding takes
takes_total type size p = Gives-if Any (has type 0x400) (gives Any true tt) (
    Gives-if Any (has type 0x200) (gives Any (size == 2) tt) (
      Gives-if Any (has type 0x800) (gives Any (not (ltb size 2)) tt) (
        Gives-if Any (has type 0x1000) (gives Any (not (ltb size 3)) tt)
          (takes_counted type size p))))

module _ {C : Type 0} (R : Conf C → Conf C → Type 0) where
  -- What a command makes of the parser's state is related to what that was.
  unfoldable pub Respects : Command C → Type 0
  Respects cmd = (cf : Conf C) (s : Slot) → R cf (cmd.ptr_set cf s).1

  unfoldable pub RespectsAll : Module C → Type 0
  RespectsAll m = All Respects m.commands

  InSearch : Search C → Conf C → Type 0
  InSearch (looking found) cf = Unit
  InSearch (returns ok cf') cf = R cf cf'

  unfoldable pub Follows : Conf C → Bool × Conf C → Type 0
  Follows cf r = R cf r.1

  module _ (same : (cf : Conf C) → R cf cf) where
    called :
        (m : Module C) (cmd : Command C) (cf : Conf C) (taken : Bool)
        → Respects cmd
        → InSearch (if taken then call m cmd cf else returns false cf) cf
    unfolding InSearch Respects call
    called m cmd cf true c = c cf (slot cf m cmd)
    called m cmd cf false c = same cf

    try_command_total :
        (m : Module C) (cmd : Command C) (found : Bool) (name : List ℕ) (last : ℕ) (cf : Conf C)
        → Respects cmd
        → 0 < length cf.args
        → Gives (λ (s : Search C). InSearch s cf) (try_command m cmd found name last cf)
    unfolding InSearch
    try_command_total m cmd found name last cf c p =
        let Q : Search C → Type 0 = λ s. InSearch s cf in
        let (taken, e, _) = takes_total cmd.type (length cf.args) p in
        rw (try_command_lem m cmd found name last cf, e)
          (Gives-if Q (same_text name cmd.name)
            (Gives-if Q (in_place m cmd cf)
              (Gives-if Q (fits cmd last)
                (gives Q (if taken then call m cmd cf else returns false cf)
                  (called m cmd cf taken c))
                (gives Q (returns false cf) (same cf)))
              (gives Q (looking true) tt))
            (gives Q (looking found) tt))

    Gives-named :
        {Q : Search C → Type 0} (n : ℕ) {x y : Option (Search C)}
        → Gives Q x
        → Gives Q y
        → Gives Q (elim n [ zero ↦ x | suc _ ↦ y ])
    Gives-named zero p q = p
    Gives-named (suc n) p q = q

    after_search :
        (cf : Conf C) {o : Option (Search C)} {next : Bool → Option (Search C)}
        → Gives (λ (s : Search C). InSearch s cf) o
        → ((f : Bool) → Gives (λ (s : Search C). InSearch s cf) (next f))
        → Gives
            (λ (s : Search C). InSearch s cf)
            (elim o [
              | none ↦ none
              | some (returns ok cf') ↦ some (returns ok cf')
              | some (looking f) ↦ next f
            ])
    after_search cf (looking f, e, q) k = rw e (k f)
    after_search cf (returns ok cf', e, q) k = rw e (returns ok cf', refl, q)

    try_commands_total :
        (m : Module C) (cmds : List (Command C)) (found : Bool) (name : List ℕ) (last : ℕ)
        (cf : Conf C)
        → All Respects cmds
        → 0 < length cf.args
        → Gives (λ (s : Search C). InSearch s cf) (try_commands m cmds found name last cf)
    unfolding try_commands InSearch
    try_commands_total m [] found name last cf a p = (looking found, refl, tt)
    try_commands_total m (cmd ∷ cmds) found name last cf (c, a) p =
        let Q : Search C → Type 0 = λ s. InSearch s cf in
        let rest : (f : Bool) → Gives Q (try_commands m cmds f name last cf) =
          λ f. try_commands_total m cmds f name last cf a p in
        Gives-named (length cmd.name) (gives Q (looking found) tt)
          (after_search cf (try_command_total m cmd found name last cf c p) rest)

    after_module :
        (cf : Conf C) {o : Option (Search C)} {next : Bool → Option (Bool × Conf C)}
        → Gives (λ (s : Search C). InSearch s cf) o
        → ((f : Bool) → Gives (Follows cf) (next f))
        → Gives (Follows cf) (elim o [
          | none ↦ none
          | some (returns ok cf') ↦ some (ok, cf')
          | some (looking f) ↦ next f
        ])
    unfolding InSearch Follows
    after_module cf (looking f, e, q) k = rw e (k f)
    after_module cf (returns ok cf', e, q) k = rw e ((ok, cf'), refl, q)

    try_modules_total :
        (ms : List (Module C)) (found : Bool) (name : List ℕ) (last : ℕ) (cf : Conf C)
        → All RespectsAll ms
        → 0 < length cf.args
        → Gives (Follows cf) (try_modules ms found name last cf)
    unfolding try_modules Follows RespectsAll
    try_modules_total [] found name last cf a p = ((found, cf), refl, same cf)
    try_modules_total (m ∷ ms) found name last cf (c, a) p =
        after_module cf (try_commands_total m m.commands found name last cf c p)
          (λ f. try_modules_total ms f name last cf a p)

    pub handler_total :
        (ms : List (Module C)) (cf : Conf C) (last : ℕ)
        → All RespectsAll ms
        → 0 < length cf.args
        → Gives (Follows cf) (handler ms cf last)
    unfolding handler
    handler_total ms cf last a p =
        rw (get_elem?-eq-get_or cf.args 0 [] p)
          (try_modules_total ms false (get_or cf.args 0 []) last cf a p)
