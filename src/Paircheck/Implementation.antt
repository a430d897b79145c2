-- ===== src/Paircheck/Implementation.antt =====
-- A rule applied to the types that implement its interfaces (paircheck/implementation.go). What go/types says
-- of the interfaces and the methods of a type is a parameter.
use precept.Base.{
  ◌++◌, ℕ, Bool, true, false, not, ◌&&◌, ◌||◌, List, [], ◌∷◌, Option, none, some, ◌⊎◌, inl, inr,
  if◌then◌else◌, contains_func,
}
use precept.Base.Results.{◌>>=◌}
use precept.Base.Texts.{Text}
use precept.Paircheck.Name.{QualifiedName, is_empty}
use precept.Paircheck.Protocol.{Side, Implementation, Protocol}
use precept.Paircheck.Types.{GoTypes}
use precept.Paircheck.Bind.{Visible, BindError, Binding, resolve}

-- A types.TypeName: the path of its package and its name.
pub record TypeName : Type 0 where
  pub path : Text
  pub name : Text

-- The interface that a declared type is, if it is one, whether a value of a type or a pointer to one
-- implements an interface, and whether a type has a method.
pub record Interfaces : Type 0 where
  pub contract : Text → Text → Option ℕ
  pub implements : TypeName → ℕ → Bool
  pub has_method : TypeName → Text → Bool

pub data ImplementationError : Type 0 where
  unknown_type implements_none : ImplementationError
  ambiguous_implementation : QualifiedName → ImplementationError
  unresolved : BindError → ImplementationError

module _ (visible : Visible) (types : Interfaces) where
  -- none where the pass does not see the package of the type.
  unfoldable pub lookup_type : QualifiedName → ImplementationError ⊎ Option TypeName
  lookup_type name =
      if not (visible.seen name.path)
      then inr none
      else if not (visible.is_type name.path name.name)
      then inl unknown_type
      else inr (some (record { path = name.path; name = name.name }))

  -- The interface that the receiver of a method is, if it is one, where the pass sees its package.
  unfoldable pub interface_of : QualifiedName → Option (Option ℕ)
  interface_of method =
      if not (visible.seen method.path)
      then none
      else if not (visible.is_type method.path method.receiver)
      then some none
      else some (types.contract method.path method.receiver)

  abbrev stands_by : TypeName → Text → Option (Option ℕ) → Bool
  stands_by type_name method none = types.has_method type_name method
  stands_by type_name method (some none) = false
  stands_by type_name method (some (some contract)) = types.implements type_name contract

  unfoldable pub stands : TypeName → QualifiedName → Bool
  unfolding interface_of
  stands type_name method = stands_by type_name method.name (interface_of method)

  -- A side that names a method.
  abbrev names_method : Side → Bool
  names_method side = not (side.called || is_empty side.name.receiver)

  unfoldable pub swap : TypeName → Side → Side × Bool
  unfolding stands
  swap type_name side =
      if names_method side && stands type_name side.name
      then (
        record side {
          name = record {
            path = type_name.path;
            receiver = type_name.name;
            name = side.name.name;
            relative = false;
          };
        },
        true,
      )
      else (side, false)

  unfoldable pub swap_all : TypeName → List Side → List Side × Bool
  unfolding swap
  swap_all type_name [] = ([], false)
  swap_all type_name (side ∷ sides) =
      let (replaced, ok) = swap type_name side in
      let (rest, swapped) = swap_all type_name sides in (replaced ∷ rest, ok || swapped)

  unfoldable pub applied_to : Protocol → TypeName → Implementation → Protocol × Bool
  unfolding swap swap_all
  applied_to p type_name each =
      let (trigger, opening) = swap type_name p.trigger in
      let (satisfiers, closing) = swap_all type_name p.satisfiers in
      (
        record p { id = each.id; implementations = []; trigger = trigger; satisfiers = satisfiers },
        opening || closing,
      )

  abbrev is_seen : Option (Option ℕ) → Bool
  is_seen none = false
  is_seen (some contract) = true

  unfoldable pub sees_interfaces : Protocol → Bool
  unfolding interface_of
  sees_interfaces p = not (
      contains_func (p.trigger ∷ p.satisfiers)
        (λ side. names_method side && not (is_seen (interface_of side.name))))

  unfoldable pub ambiguous_from : TypeName → List Side → Option QualifiedName
  unfolding stands
  ambiguous_from type_name [] = none
  ambiguous_from type_name (side ∷ sides) =
      let rest = ambiguous_from type_name sides in
      if names_method side
        && types.has_method type_name side.name.name
        && not (stands type_name side.name)
      then some side.name
      else rest

  unfoldable pub ambiguous : Protocol → TypeName → Option QualifiedName
  unfolding ambiguous_from
  ambiguous p type_name = ambiguous_from type_name (p.trigger ∷ p.satisfiers)

  -- What a protocol applied to a type adds.
  abbrev pub derived_with : Protocol → Protocol × Bool → ImplementationError ⊎ List Protocol
  derived_with current derived =
      if derived.1
      then inr (derived.0 ∷ [])
      else if sees_interfaces current
      then inl implements_none
      else inr []

  abbrev pub applied_by :
      Protocol → Implementation → Option TypeName → ImplementationError ⊎ List Protocol
  applied_by current each none = inr []
  applied_by current each (some type_name) =
      derived_with current (applied_to current type_name each)

  -- An error says which implementation it is about.
  unfoldable pub implemented_from :
      Protocol → List Implementation → (QualifiedName × ImplementationError) ⊎ List Protocol
  unfolding lookup_type applied_to sees_interfaces
  implemented_from current [] = inr []
  implemented_from current (each ∷ implementations) = do
    now ← elim (lookup_type each.name >>= applied_by current each) [
      | inl wrong ↦ inl (each.name, wrong)
      | inr applied ↦ inr applied
    ]
    rest ← implemented_from current implementations
    inr (now ++ rest)

  unfoldable pub implemented : Protocol → (QualifiedName × ImplementationError) ⊎ List Protocol
  unfolding implemented_from
  implemented current = implemented_from current current.implementations

  module _ (go : GoTypes) where
    abbrev pub resolved_problem : BindError ⊎ Binding → Option ImplementationError
    resolved_problem (inl wrong) = some (unresolved wrong)
    resolved_problem (inr b) = none

    abbrev pub derived_problem : Protocol × Bool → Option ImplementationError
    derived_problem derived =
        if not derived.1
        then some implements_none
        else resolved_problem (resolve go visible derived.0 true)

    abbrev pub type_problem :
        Protocol → Implementation → TypeName → Option QualifiedName → Option ImplementationError
    type_problem current each type_name (some method) = some (ambiguous_implementation method)
    type_problem current each type_name none = derived_problem (applied_to current type_name each)

    abbrev pub found_problem :
        Protocol
        → Implementation
        → ImplementationError ⊎ Option TypeName
        → Option ImplementationError
    found_problem current each (inl wrong) = some wrong
    found_problem current each (inr none) = some unknown_type
    found_problem current each (inr (some type_name)) =
        type_problem current each type_name (ambiguous current type_name)

    unfoldable pub implementation_problem : Protocol → Implementation → Option ImplementationError
    unfolding lookup_type applied_to ambiguous resolve
    implementation_problem current each = found_problem current each (lookup_type each.name)

    unfoldable pub implementation_problems :
        Protocol → List Implementation → List (QualifiedName × ImplementationError)
    unfolding implementation_problem
    implementation_problems current [] = []
    implementation_problems current (each ∷ implementations) =
        let rest = implementation_problems current implementations in
        elim (implementation_problem current each) [
          | none ↦ rest
          | some wrong ↦ (each.name, wrong) ∷ rest
        ]
