-- ===== src/Paircheck/Dispatch.antt =====
-- Which satisfier a call is (`satisfierOf` of paircheck/bind.go). The method values that a function value read
-- back from memory may be (paircheck/slot.go) are a parameter; the map that keeps them is left out.
pub mod Bounds
pub mod Found
use precept.Base.{
  ℕ, suc, Bool, true, false, not, ◌&&◌, ◌||◌, List, [], ◌∷◌, Option, none, some, if◌then◌else◌,
}
use precept.Base.Texts.{Text, same_text}
use precept.Paircheck.Name.{Declared}
use precept.Paircheck.Protocol.{Side, Protocol, satisfier_named}
use precept.Paircheck.Types.{GoType, GoTypes}
use precept.Paircheck.Candidates.{Function}
use precept.Paircheck.Bind.{Binding}

-- A call: its function, if it is known, whether a method of an interface is called, whether a function is
-- called statically, and the value called, with its type and the interface its type is, if it is one.
pub record CallCommon : Type 0 where
  pub callee : Option Declared
  pub invoke : Bool
  pub static : Bool
  pub value : ℕ
  pub value_type : GoType
  pub contract : Option ℕ

unfoldable pub satisfied_by : Protocol → CallCommon → Option ℕ
unfolding satisfier_named
satisfied_by p common = elim common.callee [
  | none ↦ none
  | some function ↦ satisfier_named p function
]

unfoldable pub called_from : ℕ → List Side → Option ℕ
called_from index [] = none
called_from index (side ∷ sides) =
    let rest = called_from (suc index) sides in if side.called then some index else rest

-- The first that is some.
abbrev pub or_else : Option ℕ → Option ℕ → Option ℕ
or_else none next = next
or_else (some index) next = some index

abbrev pub named_by : Protocol → Option Declared → Option ℕ
named_by p none = none
named_by p (some function) = satisfier_named p function

-- The methods are those of the method values, none where one is no declared function.
unfoldable pub kept_method_from : Protocol → List (Option Declared) → Option ℕ
unfolding satisfier_named
kept_method_from p [] = none
kept_method_from p (method ∷ methods) = or_else (named_by p method) (kept_method_from p methods)

module _ (go : GoTypes) (implements : GoType → ℕ → Bool)
    (kept_methods : ℕ → List (Option Declared)) where
  abbrev pub same_value_type : GoType → Option GoType → Bool
  same_value_type t none = false
  same_value_type t (some u) = go.identical t u

  unfoldable pub called_by : Protocol → Binding → CallCommon → Option ℕ
  unfolding called_from
  called_by p b common =
      if common.invoke || common.static
      then none
      else if same_value_type common.value_type b.value_type
      then called_from 0 p.satisfiers
      else none

  unfoldable pub kept_satisfier : Protocol → CallCommon → Option ℕ
  unfolding kept_method_from
  kept_satisfier p common =
      if common.invoke || common.static
      then none
      else kept_method_from p (kept_methods common.value)

  abbrev receives : ℕ → Option GoType → Bool
  receives contract none = false
  receives contract (some t) = implements t contract

  unfoldable pub dispatches_to : Text → ℕ → Option Function → Bool
  unfolding same_text
  dispatches_to method contract none = false
  dispatches_to method contract (some satisfier) =
      same_text satisfier.name method && receives contract satisfier.receiver

  unfoldable pub dispatched_from : Text → ℕ → ℕ → List (Option Function) → Option ℕ
  unfolding dispatches_to
  dispatched_from method contract index [] = none
  dispatched_from method contract index (satisfier ∷ satisfiers) =
      let rest = dispatched_from method contract (suc index) satisfiers in
      if dispatches_to method contract satisfier then some index else rest

  abbrev pub dispatched : Binding → Option Declared → Option ℕ → Option ℕ
  dispatched b (some method) (some contract) = dispatched_from method.name contract 0 b.satisfiers
  dispatched b _ _ = none

  unfoldable pub satisfier_of : Protocol → Binding → CallCommon → Option ℕ
  unfolding satisfied_by called_by kept_satisfier dispatched_from
  satisfier_of p b common = or_else (satisfied_by p common) (
      or_else (called_by p b common) (
        or_else (kept_satisfier p common)
          (if common.invoke then dispatched b common.callee common.contract else none)))
