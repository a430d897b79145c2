-- ===== src/Paircheck/BindSamples.antt =====
-- A function that opens a value and a method that closes it, and the theorems on types and bindings at them.
use precept.Base.{
  ℕ, Bool, true, false, List, [], ◌∷◌, Option, none, some, inl, inr, ◌≡◌, ◌↔◌, refl, keep, ◌==◌,
}
use precept.Base.Texts.{Text}
use precept.Paircheck.Name.{QualifiedName}
use precept.Paircheck.Slot.{slot_none, slot_receiver, slot_result}
use precept.Paircheck.Protocol.{Side, any_path, Protocol}
use precept.Paircheck.Types.{
  construction_named, GoType, type_param, composite, alias, other, no_types, type_and, GoTypes,
  pointer_to, named_type,
}
use precept.Paircheck.Correspondence.{correspond}
use precept.Paircheck.Correspondence.Renaming.{IsOneToOne, Related}
use precept.Paircheck.Correspondence.Unify.{correspond_iff}
use precept.Paircheck.Candidates.{Candidate, Function, links}
use precept.Paircheck.Bind.{
  Visible, no_linking_type, Offer, Binding, offered_by_all, offered_by, closing_from, resolve,
  sees_all, bind,
}
use precept.Paircheck.Bind.Link.{link_of, slot_of}
use precept.Paircheck.Bind.Resolve.{AreSlots, bind-error, resolve-AreSlots}
use precept.Paircheck.Dispatch.{CallCommon, satisfier_of}
use precept.Paircheck.Dispatch.Found.{Finds, satisfier_of-Finds}

abbrev same_other : GoType → GoType → Bool
same_other (other i) (other j) = i == j
same_other _ _ = false

-- The type error is known by 0, the types of the package by the numbers of their objects.
abbrev pub go : GoTypes
go = record {
  identical = same_other;
  error_type = other 0;
  underlying = λ t. t;
  package_path = λ object. none;
  object_name = λ object. object ∷ [];
}

-- `map[P]*Q` and `map[R]*S`, and `map[P]*P`
abbrev table : ℕ → ℕ → GoType
table p q =
    composite
      (record {
        construction = construction_named;
        origin = 7;
        length = 0;
        direction = 0;
        parameters = 0;
        variadic = false;
      })
      (type_and (type_param p) (type_and (pointer_to (type_param q)) no_types))

correspond-table : correspond go (table 1 2) (alias (table 3 4)) ≡ true
unfolding correspond
correspond-table = refl

correspond-repeated : correspond go (table 1 2) (table 3 3) ≡ false
unfolding correspond
correspond-repeated = refl

correspond_iff_example :
    (correspond go (table 1 2) (alias (table 3 4)) ≡ true)
    ↔ ((R : ℕ → ℕ → Type 0) × IsOneToOne R × Related go R (table 1 2) (alias (table 3 4)))
correspond_iff_example = correspond_iff go (table 1 2) (alias (table 3 4))

abbrev file : GoType
file = named_type 5 no_types

-- `func Open(string) (*File, error)` and `func (*File) Close() error`
abbrev opening : Function
opening = record {
  name = 1 ∷ [];
  receiver = none;
  parameters = other 1 ∷ [];
  results = pointer_to file ∷ other 0 ∷ [];
}

abbrev closing : Function
closing = record {
  name = 2 ∷ [];
  receiver = some (pointer_to file);
  parameters = [];
  results = other 0 ∷ [];
}

abbrev visible : Visible
visible = record {
  seen = λ path. true;
  function = λ path name. some opening;
  is_type = λ path name. true;
  method = λ path type_name name. some closing;
}

abbrev name_of : Text → Text → QualifiedName
name_of receiver name = record { path = 9 ∷ []; receiver = receiver; name = name; relative = false }

abbrev side_of : Text → Text → Side
side_of receiver name = record {
  name = name_of receiver name;
  slot = record { kind = slot_none; index = 0 };
  called = false;
}

abbrev protocol : Protocol
protocol = record {
  id = 8 ∷ [];
  trigger = side_of [] (1 ∷ []);
  satisfiers = side_of (5 ∷ []) (2 ∷ []) ∷ [];
  open_on_error = false;
  coverage = any_path;
  escapes = record { returned = true; stored = true; passed = true };
  require_defer = false;
  idempotent = false;
  defer_first = false;
  on_success = false;
  failures = [];
  implementations = [];
}

abbrev binding : Binding
binding = record {
  value_type = some (pointer_to file);
  trigger_slot = record { kind = slot_result; index = 0 };
  satisfier_slots = record { kind = slot_receiver; index = 0 } ∷ [];
  satisfiers = some closing ∷ [];
  failure = some 1;
}

protocol_binds : resolve go visible protocol false ≡ inr binding
unfolding resolve
protocol_binds = refl

resolve-AreSlots_example :
    (openings : List Candidate) × (trigger : Function) × (closings : List (Option Offer))
    × (link : Candidate) × (offered_by go visible (side_of [] (1 ∷ [])) true
        ≡ inr (openings, trigger))
    × (closing_from go visible false 0 (side_of (5 ∷ []) (2 ∷ []) ∷ []) ≡ inr closings)
    × (link_of go openings closings (keep (offered_by_all go closings) openings) ≡ inr link)
    × (some (pointer_to file) ≡ link.value_type)
    × (slot_of go (keep (λ c. links go c link) openings)
        ≡ inr (record { kind = slot_result; index = 0 }))
    × AreSlots go link closings (record { kind = slot_receiver; index = 0 } ∷ [])
resolve-AreSlots_example = resolve-AreSlots go visible protocol false protocol_binds

-- A satisfier whose receiver's type is another.
abbrev unlinked : Protocol
unlinked = record protocol {
  satisfiers = side_of [] (1 ∷ []) ∷ [];
  trigger = side_of (5 ∷ []) (2 ∷ []);
}

bind-error_example : (bind go visible unlinked ≡ inl (no_linking_type false)) ↔ (
    (sees_all go visible unlinked ≡ true)
    × (resolve go visible unlinked true ≡ inl (no_linking_type false)))
bind-error_example = bind-error go visible unlinked (no_linking_type false)

bind-unlinked : bind go visible unlinked ≡ inl (no_linking_type false)
unfolding bind
bind-unlinked = refl

-- A call of `Close` through an interface that the file implements.
abbrev close_call : CallCommon
close_call = record {
  callee = some (record { name = 2 ∷ []; package_path = some (4 ∷ []); receiver_name = 6 ∷ [] });
  invoke = true;
  static = false;
  value = 0;
  value_type = other 2;
  contract = some 0;
}

satisfier_of-close_call :
    satisfier_of go (λ t contract. true) (λ value. []) protocol binding close_call ≡ some 0
unfolding satisfier_of
satisfier_of-close_call = refl

satisfier_of-Finds_example :
    Finds go
      (λ t contract. true)
      (λ value. [])
      protocol
      binding
      close_call
      (satisfier_of go (λ t contract. true) (λ value. []) protocol binding close_call)
satisfier_of-Finds_example =
    satisfier_of-Finds go (λ t contract. true) (λ value. []) visible protocol false close_call
      protocol_binds
