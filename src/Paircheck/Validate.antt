-- ===== src/Paircheck/Validate.antt =====
-- Validate of paircheck/validate.go, over the packages it is given loaded, as one view of them.
pub mod Binds
use precept.Base.{
  ℕ, Bool, true, false, List, [], ◌∷◌, ◌++◌, Option, none, some, ◌⊎◌, inl, inr, if◌then◌else◌, map,
}
use precept.Base.Results.{◌>>=◌, wrapped}
use precept.Base.Texts.{Text}
use precept.Paircheck.Name.{QualifiedName, NameError, names_within}
use precept.Paircheck.Protocol.{
  Side, Implementation, Protocol, WithinError, in_failures, within_module,
}
use precept.Paircheck.Config.{Library, Config, ConfigError, compile, compile_failures}
use precept.Paircheck.Types.{GoTypes}
use precept.Paircheck.Candidates.{Function, failure_index}
use precept.Paircheck.Bind.{Visible, BindError, unknown_function, Binding, lookup_func, resolve}
use precept.Paircheck.Implementation.{Interfaces, ImplementationError, implementation_problems}

pub data ValidateError : Type 0 where
  wrong_config : ConfigError → ValidateError
  wrong_rule_name : Text × WithinError → ValidateError
  wrong_failure_name : NameError → ValidateError

pub data FailureError : Type 0 where
  unknown_failure not_failure : FailureError

-- What Validate finds, in a rule by its id, in one of its implementations and in a failure.
pub data Problem : Type 0 where
  rule_problem : Text → BindError → Problem
  type_problem : Text → QualifiedName × ImplementationError → Problem
  failure_problem : QualifiedName → FailureError → Problem

module _ (library : Library) where
  unfoldable pub compile_within : Config → Text → ValidateError ⊎ List Protocol
  unfolding compile within_module
  compile_within config module_path = do
    protocols ← wrapped wrong_config (compile library config)
    wrapped wrong_rule_name (within_module protocols module_path)

  unfoldable pub failures_within : Config → Text → ValidateError ⊎ List QualifiedName
  unfolding compile_failures names_within
  failures_within config module_path = do
    failures ← wrapped wrong_config (compile_failures library 0 config.failures)
    wrapped wrong_failure_name (names_within failures module_path)

module _ (go : GoTypes) (visible : Visible) (types : Interfaces) where
  abbrev failing : Option Function → Option FailureError
  failing none = some unknown_failure
  failing (some function) = elim (failure_index go function) [
    | none ↦ some not_failure
    | some i ↦ none
  ]

  unfoldable pub check_failure : QualifiedName → Option FailureError
  unfolding lookup_func failure_index
  check_failure name = failing (lookup_func go visible name)

  unfoldable pub failure_problems : List QualifiedName → List Problem
  unfolding check_failure
  failure_problems [] = []
  failure_problems (name ∷ names) =
      let rest = failure_problems names in
      elim (check_failure name) [ none ↦ rest | some wrong ↦ failure_problem name wrong ∷ rest ]

  abbrev pub resolve_problems : Text → BindError ⊎ Binding → List Problem
  resolve_problems id (inl wrong) = rule_problem id wrong ∷ []
  resolve_problems id (inr b) = []

  unfoldable pub rule_problems : List Protocol → List Problem
  unfolding resolve implementation_problems
  rule_problems [] = []
  rule_problems (current ∷ protocols) =
      resolve_problems current.id (resolve go visible current true)
      ++ map (type_problem current.id)
          (implementation_problems visible types go current current.implementations)
      ++ rule_problems protocols

  -- The problems joined, none where it accepts the configuration.
  unfoldable pub validate : Library → Config → Text → ValidateError ⊎ List Problem
  unfolding compile_within failures_within rule_problems failure_problems
  validate library config module_path = do
    protocols ← compile_within library config module_path
    failures ← failures_within library config module_path
    inr (rule_problems protocols ++ failure_problems failures)
