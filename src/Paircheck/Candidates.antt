-- ===== src/Paircheck/Candidates.antt =====
-- The slots of a function that can carry the value, and when two of them link (paircheck/bind.go).
use precept.Base.{
  ℕ, suc, Bool, true, false, not, ◌&&◌, ◌||◌, List, [], ◌∷◌, ◌++◌, Option, none, some, ◌==◌,
  if◌then◌else◌, keep,
}
use precept.Base.Texts.{Text, same_text}
use precept.Paircheck.Slot.{
  SlotKind, slot_none, slot_receiver, slot_argument, slot_result, slot_callee, Slot,
}
use precept.Paircheck.Types.{
  Construction, construction_signature, GoType, composite, GoTypes, unalias,
  mentions_type_parameter, dereference, origin_of, same_type,
}
use precept.Paircheck.Correspondence.{correspond}

pub record Candidate : Type 0 where
  pub slot : Slot
  pub value_type : Option GoType
  pub written : Bool
  pub called : Bool

-- A types.Func: its name, and the types of its receiver, if it has one, its parameters and its results.
pub record Function : Type 0 where
  pub name : Text
  pub receiver : Option GoType
  pub parameters : List GoType
  pub results : List GoType

abbrev kind_number : SlotKind → ℕ
kind_number slot_none = 0
kind_number slot_receiver = 1
kind_number slot_argument = 2
kind_number slot_result = 3
kind_number slot_callee = 4

unfoldable pub same_slot : Slot → Slot → Bool
same_slot first second =
    kind_number first.kind == kind_number second.kind && first.index == second.index

abbrev is_signature : Construction → Bool
is_signature construction_signature = true
is_signature _ = false

abbrev signature_type : GoType → Bool
signature_type (composite shape parts) = is_signature shape.construction
signature_type _ = false

-- The path and the name of context.Context.
abbrev pub context_path : Text
context_path = b'c' ∷ b'o' ∷ b'n' ∷ b't' ∷ b'e' ∷ b'x' ∷ b't' ∷ []

abbrev pub context_name : Text
context_name = b'C' ∷ b'o' ∷ b'n' ∷ b't' ∷ b'e' ∷ b'x' ∷ b't' ∷ []

-- The last of a list, and its place.
unfoldable pub last_from : ℕ → List GoType → Option (ℕ × GoType)
last_from index [] = none
last_from index (t ∷ []) = some (index, t)
last_from index (t ∷ u ∷ ts) = last_from (suc index) (u ∷ ts)

unfoldable pub numbered : SlotKind → ℕ → List GoType → List Candidate
numbered kind index [] = []
numbered kind index (t ∷ ts) =
    record {
      slot = record { kind = kind; index = index };
      value_type = some t;
      written = false;
      called = false;
    }
    ∷ numbered kind (suc index) ts

unfoldable pub without_last : List GoType → List GoType
without_last [] = []
without_last (t ∷ []) = []
without_last (t ∷ u ∷ ts) = t ∷ without_last (u ∷ ts)

abbrev receiver_candidate : Option GoType → List Candidate
receiver_candidate none = []
receiver_candidate (some t) =
    record {
      slot = record { kind = slot_receiver; index = 0 };
      value_type = some t;
      written = false;
      called = false;
    }
    ∷ []

-- The candidate of the call satisfier.
abbrev pub called_candidate : Candidate
called_candidate = record {
  slot = record { kind = slot_callee; index = 0 };
  value_type = none;
  written = false;
  called = true;
}

module _ (go : GoTypes) where
  unfoldable pub is_function : Option GoType → Bool
  is_function none = false
  is_function (some t) = signature_type (go.underlying t)

  abbrev context_object : Option ℕ → Bool
  context_object none = false
  context_object (some object) = elim (go.package_path object) [
    | none ↦ false
    | some path ↦ same_text path context_path && same_text (go.object_name object) context_name
  ]

  unfoldable pub is_context : Option GoType → Bool
  unfolding unalias same_text
  is_context none = false
  is_context (some t) = context_object (origin_of (unalias t))

  unfoldable pub deducible : List Candidate → List Candidate
  unfolding is_context
  deducible offered = keep (λ current. not (is_context current.value_type)) offered

  -- The candidates of one slot, marked as written.
  unfoldable pub written_at : Slot → List Candidate → List Candidate
  unfolding same_slot
  written_at wanted [] = []
  written_at wanted (current ∷ offered) =
      let rest = written_at wanted offered in
      if same_slot current.slot wanted then record current { written = true } ∷ rest else rest

  abbrev pub is_deduced : SlotKind → Bool
  is_deduced slot_none = true
  is_deduced _ = false

  unfoldable pub restrict : List Candidate → Slot → List Candidate
  unfolding deducible written_at
  restrict offered wanted =
      if is_deduced wanted.kind then deducible offered else written_at wanted offered

  abbrev pub ends_in_error : Option (ℕ × GoType) → Bool
  ends_in_error none = false
  ends_in_error (some last) = go.identical last.1 go.error_type

  unfoldable pub failure_index : Function → Option ℕ
  unfolding last_from
  failure_index trigger = elim (last_from 0 trigger.results) [
    | none ↦ none
    | some last ↦ if go.identical last.1 go.error_type then some last.0 else none
  ]

  unfoldable pub candidates : Function → Bool → List Candidate
  unfolding numbered last_from without_last
  candidates function with_results =
      let inputs =
        receiver_candidate function.receiver ++ numbered slot_argument 0 function.parameters in
      if with_results
      then inputs
        ++ numbered slot_result 0 (
            if ends_in_error (last_from 0 function.results)
            then without_last function.results
            else function.results)
      else inputs

  abbrev pub mentions : Option GoType → Bool
  mentions none = false
  mentions (some t) = mentions_type_parameter t

  abbrev corresponding : Option GoType → Option GoType → Bool
  corresponding (some t) (some s) = correspond go (dereference t) (dereference s)
  corresponding _ _ = false

  abbrev same_types : Option GoType → Option GoType → Bool
  same_types (some t) (some s) = same_type go t s
  same_types _ _ = false

  unfoldable pub links : Candidate → Candidate → Bool
  unfolding is_function mentions_type_parameter correspond dereference same_type
  links first second =
      if first.called
      then is_function second.value_type
      else if second.called
      then is_function first.value_type
      else if first.written
          && second.written
          && (mentions first.value_type || mentions second.value_type)
      then corresponding first.value_type second.value_type
      else same_types first.value_type second.value_type
