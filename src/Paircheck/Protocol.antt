-- ===== src/Paircheck/Protocol.antt =====
-- A rule after validation, a protocol (paircheck/protocol.go), its sides and the types it applies to as
-- well, and its names resolved against the module of the code analysed.
pub mod Within
use precept.Base.{
  ℕ, suc, Bool, true, false, not, ◌&&◌, ◌||◌, List, [], ◌∷◌, ◌++◌, Option, none, some, ◌⊎◌, inl,
  inr, if◌then◌else◌, contains_func, keep,
}
use precept.Base.Results.{◌>>=◌, wrapped, each_from}
use precept.Base.Texts.{Text}
use precept.Paircheck.Name.{
  QualifiedName, NameError, within, names_within, Declared, matches, spelled,
}
use precept.Paircheck.Slot.{Slot}

-- One end of a protocol; a called side is the call of the value itself, which names no function.
pub record Side : Type 0 where
  pub name : QualifiedName
  pub slot : Slot
  pub called : Bool

pub record Implementation : Type 0 where
  pub name : QualifiedName
  pub id : Text

pub data Coverage : Type 0 where
  any_path every_path no_path : Coverage

pub record Escapes : Type 0 where
  pub returned : Bool
  pub stored : Bool
  pub passed : Bool

pub record Protocol : Type 0 where
  pub id : Text
  pub trigger : Side
  pub satisfiers : List Side
  pub open_on_error : Bool
  pub coverage : Coverage
  pub escapes : Escapes
  pub require_defer : Bool
  pub idempotent : Bool
  pub defer_first : Bool
  pub on_success : Bool
  pub failures : List QualifiedName
  pub implementations : List Implementation

-- A name that cannot be resolved, and where it stands.
pub data WithinError : Type 0 where
  in_side : NameError → WithinError
  in_failures : NameError → WithinError
  in_implementation : ℕ → NameError → WithinError

unfoldable pub side_within : Text → Side → WithinError ⊎ Side
unfolding within
side_within module_path side =
    if side.called
    then inr side
    else wrapped in_side (within side.name module_path) >>= λ resolved.
        inr (record side { name = resolved })

unfoldable pub implementation_within : Text → ℕ → Implementation → WithinError ⊎ Implementation
unfolding within
implementation_within module_path index each = do
  resolved ← wrapped (in_implementation index) (within each.name module_path)
  inr (record each { name = resolved })

unfoldable pub protocol_within : Protocol → Text → WithinError ⊎ Protocol
unfolding within names_within each_from side_within implementation_within
protocol_within p module_path = do
  trigger ← wrapped in_side (within p.trigger.name module_path)
  satisfiers ← each_from (λ index. side_within module_path) 0 p.satisfiers
  failures ← wrapped in_failures (names_within p.failures module_path)
  implementations ← each_from (implementation_within module_path) 0 p.implementations
  inr (record p {
    trigger = record p.trigger { name = trigger };
    satisfiers = satisfiers;
    failures = failures;
    implementations = implementations;
  })

-- `withinModule`, where an error says which rule it is about.
unfoldable pub within_module : List Protocol → Text → (Text × WithinError) ⊎ List Protocol
unfolding protocol_within each_from
within_module protocols module_path =
    each_from
      (λ index current.
        wrapped (λ wrong. (current.id, wrong)) (protocol_within current module_path))
      0 protocols

-- `satisfierNamed`: the first satisfier that names the function.
unfoldable pub satisfier_from : ℕ → List Side → Declared → Option ℕ
unfolding matches
satisfier_from index [] function = none
satisfier_from index (satisfier ∷ satisfiers) function =
    let rest = satisfier_from (suc index) satisfiers function in
    if not satisfier.called && matches satisfier.name function then some index else rest

unfoldable pub satisfier_named : Protocol → Declared → Option ℕ
unfolding satisfier_from
satisfier_named p function = satisfier_from 0 p.satisfiers function

unfoldable pub named : Protocol → Declared → Bool
unfolding satisfier_named matches
named p function =
    if matches p.trigger.name function
    then true
    else elim (satisfier_named p function) [ none ↦ false | some index ↦ true ]

unfoldable pub relative : Protocol → Bool
relative p =
    p.trigger.name.relative
    || contains_func p.satisfiers (λ side. not side.called && side.name.relative)
    || contains_func p.implementations (λ each. each.name.relative)

unfoldable pub absolute : Protocol → Protocol
absolute p = record p { failures = keep (λ name. not name.relative) p.failures }
