-- ===== src/Paircheck/Bind.antt =====
-- A protocol bound in one pass (paircheck/bind.go): the slots that carry the value on each side, deduced
-- from the types of the functions that the pass sees. The packages it sees are a parameter, by the
-- functions and types that their scopes declare.
pub mod Link
pub mod Resolve
use precept.Base.{
  ℕ, suc, Bool, true, false, not, ◌&&◌, ◌||◌, List, [], ◌∷◌, ◌++◌, Option, none, some, ◌⊎◌, inl,
  inr, ◌==◌, if◌then◌else◌, contains_func, keep, length, get_or,
}
use precept.Base.Results.{◌>>=◌, wrapped}
use precept.Base.Texts.{Text, same_text}
use precept.Paircheck.Name.{QualifiedName, is_empty}
use precept.Paircheck.Slot.{
  SlotKind, slot_none, slot_receiver, slot_argument, slot_result, slot_callee, Slot,
}
use precept.Paircheck.Protocol.{Side, Protocol}
use precept.Paircheck.Types.{
  Construction, construction_signature, Shape, GoType, composite, GoTypes, unalias,
  mentions_type_parameter, is_named, dereference, origin_of, same_type,
}
use precept.Paircheck.Correspondence.{correspond}
use precept.Paircheck.Candidates.{
  Candidate, Function, called_candidate, links, mentions, is_deduced, restrict, candidates,
  failure_index,
}

-- The packages that a pass sees: whether it sees one, the function that its scope declares under a name,
-- whether it declares a type under a name, and the method that a lookup of a type's method finds.
pub record Visible : Type 0 where
  pub seen : Text → Bool
  pub function : Text → Text → Option Function
  pub is_type : Text → Text → Bool
  pub method : Text → Text → Text → Option Function

pub data BindError : Type 0 where
  unknown_function slot_not_in_signature ambiguous_slot : BindError
  -- whether a type parameter in a slot that the rule did not write says why
  no_linking_type : Bool → BindError
  in_trigger : BindError → BindError
  in_satisfier : ℕ → BindError → BindError

-- The candidates of a satisfier that the pass sees, and its function, none for a call of the value.
pub record Offer : Type 0 where
  pub offered : List Candidate
  pub function : Option Function

pub record Binding : Type 0 where
  pub value_type : Option GoType
  pub trigger_slot : Slot
  -- the zero slot for a satisfier that the pass does not see
  pub satisfier_slots : List Slot
  pub satisfiers : List (Option Function)
  pub failure : Option ℕ

abbrev pub zero_slot : Slot
zero_slot = record { kind = slot_none; index = 0 }

module _ (go : GoTypes) where
  -- The first candidate that links, and those after it: `find`, and the rest that `only` reads.
  unfoldable pub find : List Candidate → Candidate → Option (Candidate × List Candidate)
  unfolding links
  find [] link = none
  find (current ∷ offered) link =
      let rest = find offered link in
      if links go current link then some (current, offered) else rest

  unfoldable pub contains_link : List Candidate → Candidate → Bool
  unfolding links
  contains_link list link = contains_func list (λ current. links go current link)

  abbrev only_of : Candidate → Option (Candidate × List Candidate) → BindError ⊎ Slot
  only_of link none = inl (no_linking_type false)
  only_of link (some found) =
      if contains_link found.1 link then inl ambiguous_slot else inr found.0.slot

  unfoldable pub only : List Candidate → Candidate → BindError ⊎ Slot
  unfolding find contains_link
  only offered link = only_of link (find offered link)

  abbrev pub offers : List Candidate → Candidate → Bool
  offers offered link = elim (find offered link) [ none ↦ false | some found ↦ true ]

  unfoldable pub offered_by_all : List (Option Offer) → Candidate → Bool
  unfolding find
  offered_by_all [] link = true
  offered_by_all (none ∷ closing) link = offered_by_all closing link
  offered_by_all (some offer ∷ closing) link =
      offers offer.offered link && offered_by_all closing link

  unfoldable pub unwritten : Candidate → Bool
  unfolding mentions_type_parameter
  unwritten offered = not offered.written && mentions go offered.value_type

  unfoldable pub any_unwritten : List (Option Offer) → Bool
  unfolding unwritten
  any_unwritten [] = false
  any_unwritten (none ∷ closing) = any_unwritten closing
  any_unwritten (some offer ∷ closing) =
      contains_func offer.offered unwritten || any_unwritten closing

  unfoldable pub no_link : List Candidate → List (Option Offer) → BindError
  unfolding unwritten any_unwritten
  no_link opening closing =
      no_linking_type (contains_func opening unwritten || any_unwritten closing)

  -- The loop of `linkingType`, from what it has collected.
  unfoldable pub linking_from :
      List (Option Offer) → List Candidate → List Candidate → List Candidate
  unfolding contains_link offered_by_all
  linking_from closing linking [] = linking
  linking_from closing linking (offered ∷ opening) =
      linking_from closing
        (if contains_link linking offered
          then linking
          else if offered_by_all closing offered
          then linking ++ offered ∷ []
          else linking)
        opening

  abbrev pub one_link :
      List Candidate → List (Option Offer) → List Candidate → BindError ⊎ Candidate
  one_link opening closing [] = inl (no_link opening closing)
  one_link opening closing (link ∷ []) = inr link
  one_link opening closing (link ∷ other ∷ more) = inl ambiguous_slot

  unfoldable pub linking_type : List Candidate → List (Option Offer) → BindError ⊎ Candidate
  unfolding linking_from no_link
  linking_type opening closing = one_link opening closing (linking_from closing [] opening)

  -- The slots of the satisfiers, in `settle`.
  unfoldable pub settle_from : Candidate → ℕ → List (Option Offer) → BindError ⊎ List Slot
  unfolding only
  settle_from link index [] = inr []
  settle_from link index (none ∷ closing) = do
    rest ← settle_from link (suc index) closing
    inr (zero_slot ∷ rest)
  settle_from link index (some offer ∷ closing) = do
    slot ← wrapped (in_satisfier index) (only offer.offered link)
    rest ← settle_from link (suc index) closing
    inr (slot ∷ rest)

  -- The name of a method's receiver's type, empty where it has none.
  abbrev object_named : Option ℕ → Text
  object_named none = []
  object_named (some object) = go.object_name object

  unfoldable pub receiver_name : Function → Text
  unfolding dereference
  receiver_name function = elim function.receiver [
    | none ↦ []
    | some t ↦ object_named (origin_of (dereference t))
  ]

  module _ (visible : Visible) where
    abbrev declared_on : Text → Option Function → Option Function
    declared_on receiver none = none
    declared_on receiver (some function) =
        if same_text (receiver_name function) receiver then some function else none

    unfoldable pub lookup_func : QualifiedName → Option Function
    unfolding receiver_name same_text
    lookup_func wanted =
        if not (visible.seen wanted.path)
        then none
        else if is_empty wanted.receiver
        then visible.function wanted.path wanted.name
        else if not (visible.is_type wanted.path wanted.receiver)
        then none
        else declared_on wanted.receiver (visible.method wanted.path wanted.receiver wanted.name)

    abbrev offer_of : Side → Bool → Function → BindError ⊎ (List Candidate × Function)
    offer_of wanted with_results function =
        let offered = restrict go (candidates go function with_results) wanted.slot in
        if not (is_deduced go wanted.slot.kind) && not (contains_func offered (λ current. true))
        then inl slot_not_in_signature
        else inr (offered, function)

    unfoldable pub offered_by : Side → Bool → BindError ⊎ (List Candidate × Function)
    unfolding lookup_func candidates restrict
    offered_by wanted with_results = elim (lookup_func wanted.name) [
      | none ↦ inl unknown_function
      | some function ↦ offer_of wanted with_results function
    ]

    -- What a satisfier offers, none where the pass cannot see it.
    abbrev pub closing_of :
        Bool → ℕ → BindError ⊎ (List Candidate × Function) → BindError ⊎ Option Offer
    closing_of strict index (inr offer) =
        inr (some (record { offered = offer.0; function = some offer.1 }))
    closing_of strict index (inl unknown_function) =
        if strict then inl (in_satisfier index unknown_function) else inr none
    closing_of strict index (inl wrong) = inl (in_satisfier index wrong)

    unfoldable pub closing_side : Bool → ℕ → Side → BindError ⊎ Option Offer
    unfolding offered_by
    closing_side strict index side =
        if side.called
        then inr (some (record { offered = called_candidate ∷ []; function = none }))
        else closing_of strict index (offered_by side false)

    unfoldable pub closing_from : Bool → ℕ → List Side → BindError ⊎ List (Option Offer)
    unfolding closing_side
    closing_from strict index [] = inr []
    closing_from strict index (side ∷ sides) = do
      offer ← closing_side strict index side
      rest ← closing_from strict (suc index) sides
      inr (offer ∷ rest)

    abbrev pub functions_of : List (Option Offer) → List (Option Function)
    functions_of [] = []
    functions_of (none ∷ closing) = none ∷ functions_of closing
    functions_of (some offer ∷ closing) = offer.function ∷ functions_of closing

    unfoldable pub resolve : Protocol → Bool → BindError ⊎ Binding
    unfolding offered_by closing_from linking_type only settle_from failure_index
    resolve current strict = do
      opening ← wrapped in_trigger (offered_by current.trigger true)
      closing ← closing_from strict 0 current.satisfiers
      link ← linking_type opening.0 closing
      trigger_slot ← wrapped in_trigger (only opening.0 link)
      satisfier_slots ← settle_from link 0 closing
      inr (record {
        value_type = link.value_type;
        trigger_slot = trigger_slot;
        satisfier_slots = satisfier_slots;
        satisfiers = functions_of closing;
        failure = if current.open_on_error then none else failure_index go opening.1;
      })

    unfoldable pub sees : Side → Bool
    unfolding lookup_func
    sees side =
        if side.called then true else elim (lookup_func side.name) [ none ↦ false | some f ↦ true ]

    unfoldable pub sees_all : Protocol → Bool
    unfolding lookup_func sees
    sees_all current = elim (lookup_func current.trigger.name) [
      | none ↦ false
      | some trigger ↦ not (contains_func current.satisfiers (λ side. not (sees side)))
    ]

    -- `bind`: a binding, a protocol that the pass skips, or an error.
    unfoldable pub bind : Protocol → BindError ⊎ Option Binding
    unfolding resolve sees_all
    bind current = elim (resolve current false) [
      | inr resolved ↦ inr (some resolved)
      | inl wrong ↦ if sees_all current then inl wrong else inr none
    ]
