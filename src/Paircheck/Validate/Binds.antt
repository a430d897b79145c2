-- ===== src/Paircheck/Validate/Binds.antt =====
-- What Validate of paircheck/validate.go accepts, a pass that sees the same packages binds.
use precept.Base.{
  suc, Bool, true, List, [], ◌∷◌, ◌++◌, Option, none, some, ◌⊎◌, inl, inr, ◌≡◌, refl, ap, arith,
  All, Bool-cases, Option-cases, map, length, inr_inj,
}
use precept.Base.Results.{>>=-eq_inr, result_cases}
use precept.Base.Texts.{Text}
use precept.Paircheck.Protocol.{Implementation, Protocol}
use precept.Paircheck.Config.{Library, Config}
use precept.Paircheck.Types.{GoTypes}
use precept.Paircheck.Bind.{Visible, Binding, resolve, bind}
use precept.Paircheck.Bind.Resolve.{bind-strict}
use precept.Paircheck.Implementation.{
  TypeName, Interfaces, ImplementationError, lookup_type, applied_to, ambiguous, implemented_from,
  implementation_problem, implementation_problems, derived_problem, found_problem,
}
use precept.Paircheck.Validate.{
  compile_within, failures_within, failure_problems, resolve_problems, rule_problems, validate,
}

append-eq_nil : {A : Type 0} (xs ys : List A) → xs ++ ys ≡ [] → (xs ≡ []) × (ys ≡ [])
append-eq_nil [] ys h = (refl, h)
append-eq_nil (x ∷ xs) ys h = cc

map-eq_nil : {A B : Type 0} (f : A → B) (xs : List A) → map f xs ≡ [] → xs ≡ []
map-eq_nil f [] h = refl
map-eq_nil f (x ∷ xs) h = cc

module _ (go : GoTypes) (visible : Visible) (types : Interfaces) where
  abbrev pub Resolves : Protocol → Type 0
  Resolves p = (b : Binding) × (resolve go visible p true ≡ inr b)

  abbrev pub Binds : Protocol → Type 0
  Binds p = (b : Binding) × (bind go visible p ≡ inr (some b))

  -- A type that an implementation names, which the rule binds on.
  abbrev Applies : Protocol → Implementation → Type 0
  Applies current each =
      (t : TypeName) × (lookup_type visible types each.name ≡ inr (some t))
      × ((applied_to visible types current t each).1 ≡ true)
      × Resolves (applied_to visible types current t each).0

  Resolves-Binds : (p : Protocol) → Resolves p → Binds p
  Resolves-Binds p (b, e) = (b, bind-strict go visible p e)

  resolve_problems-eq_nil :
      (id : Text) (p : Protocol)
      → resolve_problems go visible types id (resolve go visible p true) ≡ []
      → Resolves p
  resolve_problems-eq_nil id p h = elim (result_cases (resolve go visible p true)) [
    | inl (wrong, e) ↦ absurd (ground (arith, rw e at h))
    | inr (b, e) ↦ (b, e)
  ]

  derived_problem-eq_none :
      (derived : Protocol × Bool)
      → derived_problem visible types go derived ≡ none
      → (derived.1 ≡ true) × Resolves derived.0
  derived_problem-eq_none (p, swapped) h = elim (Bool-cases swapped) [
    | inl e ↦ elim (result_cases (resolve go visible p true)) [
      | inl (wrong, e') ↦ absurd (ground (arith, rw (e, e') at h))
      | inr found ↦ (e, found)
    ]
    | inr e ↦ absurd (ground (arith, rw e at h))
  ]

  implementation_problem-eq_none :
      (current : Protocol) (each : Implementation)
      → implementation_problem visible types go current each ≡ none
      → Applies current each
  unfolding implementation_problem
  implementation_problem-eq_none current each h =
      by_lookup (lookup_type visible types each.name) refl h
    where
      by_lookup :
          (m : ImplementationError ⊎ Option TypeName)
          → lookup_type visible types each.name ≡ m
          → found_problem visible types go current each m ≡ none
          → Applies current each
      by_lookup (inl wrong) e k = cc
      by_lookup (inr none) e k = cc
      by_lookup (inr (some t)) e k = elim (Option-cases (ambiguous visible types current t)) [
        | inl clear ↦
            let (swapped, resolves) =
              derived_problem-eq_none (applied_to visible types current t each) (rw clear at k) in
            (t, e, swapped, resolves)
        | inr (method, unclear) ↦ absurd (ground (arith, rw unclear at k))
      ]

  implementation_problems-eq_nil :
      (current : Protocol) (implementations : List Implementation)
      → implementation_problems visible types go current implementations ≡ []
      → All (Applies current) implementations
  unfolding implementation_problems
  implementation_problems-eq_nil current [] h = tt
  implementation_problems-eq_nil current (each ∷ implementations) h =
      elim (Option-cases (implementation_problem visible types go current each)) [
        | inl e ↦ (
          implementation_problem-eq_none current each e,
          implementation_problems-eq_nil current implementations
              (rw (e, implementation_problems) at h),
        )
        | inr (wrong, e) ↦ absurd (ground (arith, rw (e, implementation_problems) at h))
      ]

  -- Every type that an implementation names gives a protocol that binds.
  abbrev pub AppliesAll : Protocol → List Implementation → Type 0
  AppliesAll current implementations =
      (applied : List Protocol) × (implemented_from visible types current implementations
        ≡ inr applied)
      × (length applied ≡ length implementations)
      × All Binds applied

  implemented_from-AppliesAll :
      (current : Protocol) (implementations : List Implementation)
      → All (Applies current) implementations
      → AppliesAll current implementations
  unfolding implemented_from
  implemented_from-AppliesAll current [] h = ([], refl, refl, tt)
  implemented_from-AppliesAll current (each ∷ implementations) ((t, e, swapped, resolves), h) =
      let (applied, e', counted, binds) = implemented_from-AppliesAll current implementations h in
      let derived = (applied_to visible types current t each).0 in
      (
        derived ∷ applied,
        rw (e, swapped, e', implemented_from) refl,
        ap suc counted,
        (Resolves-Binds derived resolves, binds),
      )

  abbrev pub BindsAlike : Protocol → Type 0
  BindsAlike p = Binds p × AppliesAll p p.implementations

  rule_problems-eq_nil :
      (ps : List Protocol) → rule_problems go visible types ps ≡ [] → All BindsAlike ps
  unfolding rule_problems
  rule_problems-eq_nil [] h = tt
  rule_problems-eq_nil (p ∷ ps) h =
      let (both, later) =
        append-eq_nil (resolve_problems go visible types p.id (resolve go visible p true) ++ _)
          (rule_problems go visible types ps) h in
      let (own, applied) =
        append-eq_nil (resolve_problems go visible types p.id (resolve go visible p true)) _ both in
      (
        (
          Resolves-Binds p (resolve_problems-eq_nil p.id p own),
          implemented_from-AppliesAll p p.implementations
              (implementation_problems-eq_nil p p.implementations (map-eq_nil _ _ applied)),
        ),
        rule_problems-eq_nil ps later,
      )

-- A configuration in which Validate finds no problem compiles to protocols that all bind in a pass that sees
-- the packages Validate saw, and so does each of them applied to every type that its implementations name.
pub validate-BindsAlike :
    (go : GoTypes) (visible : Visible) (types : Interfaces) (library : Library) (config : Config)
    (module_path : Text)
    → validate go visible types library config module_path ≡ inr []
    → (ps : List Protocol) × (compile_within library config module_path ≡ inr ps)
      × All (BindsAlike go visible types) ps
unfolding validate
validate-BindsAlike go visible types library config module_path h =
    let (ps, e, h1) = >>=-eq_inr (compile_within library config module_path) _ h in
    let (failures, e1, h2) = >>=-eq_inr (failures_within library config module_path) _ h1 in
    let (rules, named) =
      append-eq_nil (rule_problems go visible types ps) (failure_problems go visible types failures)
        (inr_inj h2) in
    (ps, e, rule_problems-eq_nil go visible types ps rules)
