-- ===== src/Paircheck/Config.antt =====
-- The rules of a configuration and what they compile to (paircheck/config.go). The functions of Go's
-- library that they call are a parameter: the identifiers of go/token, strconv.Atoi, as in Slot, and
-- strings.TrimSpace.
pub mod Distinct
pub mod Compile
pub mod Valid
use precept.Base.{
  ℕ, suc, Bool, true, false, not, ◌&&◌, ◌||◌, List, [], ◌∷◌, ◌++◌, Option, none, some, ◌⊎◌, inl,
  inr, ◌==◌, if◌then◌else◌,
}
use precept.Base.Results.{◌>>=◌, wrapped, each_from}
use precept.Base.Texts.{Text, same_text, starts_with, trim_byte}
use precept.Paircheck.Name.{
  QualifiedName, Identifiers, NameError, parse_name, without_type_parameters, is_empty,
}
use precept.Paircheck.Slot.{SlotKind, slot_none, Slot, SlotError, parse_slot}
use precept.Paircheck.Protocol.{
  Side, Implementation, Coverage, any_path, every_path, no_path, Escapes, Protocol,
}

pub record Library : Type 0 where
  pub go : Identifiers
  pub atoi : Text → Option ℕ
  pub trim_space : Text → Text

-- A function as a rule writes it, by its name and its slot.
pub record Call : Type 0 where
  pub name : Text
  pub slot : Text

pub record WrittenType : Type 0 where
  pub name : Text
  pub id : Text

-- A flag that is left out is none.
pub record Transfer : Type 0 where
  pub returned : Option Bool
  pub stored : Option Bool
  pub argument : Option Bool

pub record Rule : Type 0 where
  pub id : Text
  pub trigger : Call
  pub satisfiers : List Call
  pub open_on_error : Bool
  pub deferred_closure : Text
  pub transfer : Transfer
  pub require_defer : Bool
  pub idempotent : Bool
  pub defer_first : Bool
  pub on_success : Bool
  pub implementations : List WrittenType

pub record Config : Type 0 where
  pub rules : List Rule
  pub failures : List Text

-- The errors of the file, and the words that `fmt.Errorf` puts round one.
pub data ConfigError : Type 0 where
  no_id no_trigger no_satisfiers empty_satisfier call_slot no_type : ConfigError
  duplicate_id unknown_coverage unknown_transfer invalid_type : Text → ConfigError
  wrong_name : NameError → ConfigError
  wrong_slot : SlotError → ConfigError
  at_trigger : ConfigError → ConfigError
  at_satisfier at_implementation at_failure at_rule : ℕ → ConfigError → ConfigError
  about : Text → ConfigError → ConfigError

abbrev pub call_word : Text
call_word = b'c' ∷ b'a' ∷ b'l' ∷ b'l' ∷ []

abbrev pub all_word : Text
all_word = b'a' ∷ b'l' ∷ b'l' ∷ []

abbrev pub none_word : Text
none_word = b'n' ∷ b'o' ∷ b'n' ∷ b'e' ∷ []

abbrev pub path_word : Text
path_word = b'-' ∷ b'p' ∷ b'a' ∷ b't' ∷ b'h' ∷ []

abbrev pub any_word : Text
any_word = b'a' ∷ b'n' ∷ b'y' ∷ path_word

abbrev pub every_word : Text
every_word = b'e' ∷ b'v' ∷ b'e' ∷ b'r' ∷ b'y' ∷ path_word

unfoldable pub normalize : Text → ConfigError ⊎ Coverage
unfolding same_text
normalize written =
    if is_empty written || same_text written any_word
    then inr any_path
    else if same_text written every_word
    then inr every_path
    else if same_text written none_word
    then inr no_path
    else inl (unknown_coverage written)

unfoldable pub enabled : Option Bool → Bool
enabled none = true
enabled (some flag) = flag

unfoldable pub escapes_of : Transfer → Escapes
unfolding enabled
escapes_of t = record {
  returned = enabled t.returned;
  stored = enabled t.stored;
  passed = enabled t.argument;
}

-- `Transfer.UnmarshalText`
unfoldable pub read_transfer : Text → ConfigError ⊎ Transfer
unfolding same_text
read_transfer word =
    if same_text word all_word
    then inr (record { returned = some true; stored = some true; argument = some true })
    else if same_text word none_word
    then inr (record { returned = some false; stored = some false; argument = some false })
    else inl (unknown_transfer word)

-- The side that calls the value itself.
abbrev pub called_side : Side
called_side = record {
  name = record { path = []; receiver = []; name = []; relative = false };
  slot = record { kind = slot_none; index = 0 };
  called = true;
}

-- `taken[id]`, of the ids claimed
unfoldable pub is_taken : List Text → Text → Bool
unfolding same_text
is_taken [] id = false
is_taken (first ∷ taken) id = same_text first id || is_taken taken id

-- What is taken after a claim.
unfoldable pub claim : List Text → Text → ConfigError ⊎ List Text
unfolding is_taken
claim taken [] = inr taken
claim taken (c ∷ id) =
    if is_taken taken (c ∷ id) then inl (duplicate_id (c ∷ id)) else inr ((c ∷ id) ∷ taken)

module _ (library : Library) where
  unfoldable pub compile_call : Call → ConfigError ⊎ Side
  unfolding parse_name parse_slot
  compile_call call = do
    name ← wrapped wrong_name (parse_name library.go call.name)
    position ← wrapped wrong_slot (parse_slot library.atoi call.slot)
    inr (record { name = name; slot = position; called = false })

  unfoldable pub compile_satisfier : Call → ConfigError ⊎ Side
  unfolding compile_call same_text
  compile_satisfier call =
      if same_text call.name call_word
      then (if is_empty call.slot then inr called_side else inl call_slot)
      else compile_call call

  -- A satisfier of a rule, whose name may be missing.
  unfoldable pub compile_named : ℕ → Call → ConfigError ⊎ Side
  unfolding compile_satisfier
  compile_named index call =
      if is_empty call.name
      then inl (at_satisfier index empty_satisfier)
      else wrapped (at_satisfier index) (compile_satisfier call)

  unfoldable pub compile_satisfiers : List Call → ConfigError ⊎ List Side
  unfolding compile_named each_from
  compile_satisfiers [] = inl no_satisfiers
  compile_satisfiers (call ∷ calls) = each_from compile_named 0 (call ∷ calls)

  abbrev type_named :
      WrittenType → Text → Text → NameError ⊎ QualifiedName → ConfigError ⊎ Implementation
  type_named each written rule (inl wrong) = inl (invalid_type each.name)
  type_named each written rule (inr name) =
      if starts_with written b'('
      then inl (invalid_type each.name)
      else let id = library.trim_space each.id in
        inr (record { name = name; id = if is_empty id then rule else id })

  unfoldable pub compile_implementation : Text → WrittenType → ConfigError ⊎ Implementation
  unfolding parse_name without_type_parameters trim_byte starts_with
  compile_implementation rule each =
      if is_empty each.name
      then inl no_type
      else let written = without_type_parameters (trim_byte b'*' each.name) in
        type_named each written rule (parse_name library.go written)

  -- A rule whose id, trimmed, is not empty.
  unfoldable pub compile_parts : Text → Rule → ConfigError ⊎ Protocol
  unfolding compile_call compile_satisfiers normalize compile_implementation each_from escapes_of
  compile_parts id rule = do
    trigger ← wrapped (λ wrong. about id (at_trigger wrong)) (compile_call rule.trigger)
    satisfiers ← wrapped (about id) (compile_satisfiers rule.satisfiers)
    coverage ← wrapped (about id) (normalize rule.deferred_closure)
    implementations ←
        each_from
          (λ index each.
            wrapped (λ wrong. about id (at_implementation index wrong))
              (compile_implementation id each))
          0 rule.implementations
    inr (record {
      id = id;
      trigger = trigger;
      satisfiers = satisfiers;
      open_on_error = rule.open_on_error;
      coverage = coverage;
      escapes = escapes_of rule.transfer;
      require_defer = rule.require_defer;
      idempotent = rule.idempotent;
      defer_first = rule.defer_first;
      on_success = rule.on_success;
      failures = [];
      implementations = implementations;
    })

  unfoldable pub compile_rule : Rule → ConfigError ⊎ Protocol
  unfolding compile_parts
  compile_rule rule =
      let id = library.trim_space rule.id in
      if is_empty id
      then inl no_id
      else if is_empty rule.trigger.name
      then inl (about id no_trigger)
      else compile_parts id rule

  -- The claims of a rule's implementations.
  unfoldable pub claim_each : ℕ → List Text → List WrittenType → ConfigError ⊎ List Text
  unfolding claim
  claim_each index taken [] = inr taken
  claim_each index taken (each ∷ implementations) = do
    more ←
        wrapped (λ wrong. at_rule index (about each.name wrong))
          (claim taken (library.trim_space each.id))
    claim_each index more implementations

  unfoldable pub compile_failures : ℕ → List Text → ConfigError ⊎ List QualifiedName
  unfolding parse_name each_from
  compile_failures index names =
      each_from
        (λ i name. wrapped (λ wrong. at_failure i (wrong_name wrong)) (parse_name library.go name))
        index names

  abbrev pub with_failures : List QualifiedName → Protocol → Protocol
  with_failures failures p = if p.on_success then record p { failures = failures } else p

  unfoldable pub compile_from :
      List QualifiedName → ℕ → List Text → List Rule → ConfigError ⊎ List Protocol
  unfolding compile_rule claim claim_each
  compile_from failures index taken [] = inr []
  compile_from failures index taken (rule ∷ rules) = do
    compiled ← wrapped (at_rule index) (compile_rule rule)
    claimed ← wrapped (at_rule index) (claim taken compiled.id)
    all_claimed ← claim_each index claimed rule.implementations
    rest ← compile_from failures (suc index) all_claimed rules
    inr (with_failures failures compiled ∷ rest)

  unfoldable pub compile : Config → ConfigError ⊎ List Protocol
  unfolding compile_failures compile_from
  compile config = do
    failures ← compile_failures 0 config.failures
    compile_from failures 0 [] config.rules
