-- ===== src/Paircheck/Flow/Success.antt =====
-- paircheck/success.go: what a path knows of the errors the function can return. A set of failures is
-- read and changed here alone; the rest of a state never depends on it.
use Prim.Native.String.{String}
use text.Mathlib.Text.{◌==◌ as str_eq}
use precept.Base.{
  ℕ, Bool, true, false, not, ◌&&◌, ◌||◌, List, [], ◌∷◌, Option, none, some, ◌==◌, if◌then◌else◌,
  contains_func, last?, get_elem?,
}
use precept.Paircheck.Proven.{Proven, has, with, without}
use precept.Paircheck.Ssa.{Operator, Node, callee_of, read_by, is_nil_node}
use precept.Paircheck.Flow.Types.{Search, Point}

-- A lookup in a map from values to indices.
unfoldable pub index_of : List (ℕ × ℕ) → ℕ → Option ℕ
index_of [] value = none
index_of ((key, index) ∷ rest) value = if key == value then some index else index_of rest value

-- `known`, and `fails` for the variable that a load reads
abbrev pub holds_at : Proven → Option ℕ → Bool
holds_at failed none = false
holds_at failed (some index) = has failed index

unfoldable pub holds : List (ℕ × ℕ) → Proven → Option ℕ → Bool
unfolding index_of has
holds returned failed none = false
holds returned failed (some value) = holds_at failed (index_of returned value)

-- What a branch condition proves of an error: on the successor at `failing`, that it is not nil; on the
-- other that it is nil, when `nil_otherwise`.
pub record Proof : Type 0 where
  pub checked : ℕ
  pub failing : ℕ
  pub nil_otherwise : Bool

-- `comparison.Op` of an equality or an inequality: whether it is the latter
abbrev inequality : Operator → Option Bool
inequality Operator.eql = some false
inequality Operator.neq = some true
inequality _ = none

-- The call a predicate is read from, with the result extracted of it, none for the call itself.
abbrev predicate_call : ℕ → Node → ℕ × Option ℕ
predicate_call condition (Node.extract tuple index) = (tuple, some index)
predicate_call condition _ = (condition, none)

abbrev is_none : Option ℕ → Bool
is_none none = true
is_none (some index) = false

abbrev is_one : Option ℕ → Bool
is_one none = false
is_one (some index) = index == 1

module _ (s : Search) where
  abbrev node : ℕ → Node
  node = s.program.node

  -- variableRead
  unfoldable pub variable_read : ℕ → Option ℕ
  unfolding read_by
  variable_read value = read_by (node value)

  unfoldable pub known : Proven → ℕ → Bool
  unfolding holds
  known failed value = holds s.returned failed (some value)

  unfoldable pub fails : Proven → ℕ → Bool
  unfolding holds known variable_read
  fails failed value =
      known failed value || holds s.returned failed (variable_read value) || s.rule.built value

  -- The set after a store of an error into a tracked variable.
  abbrev pub marked : Proven → ℕ → Bool → Proven
  marked failed index failing = if failing then with failed index else without failed index

  abbrev pub remember : Proven → ℕ → Option ℕ → Proven
  remember failed value none = failed
  remember failed value (some index) = marked failed index (fails failed value)

  abbrev pub remembered_as : Proven → Node → Proven
  remembered_as failed (Node.store addr value) =
      if s.protocol.on_success && s.program.error_typed value
      then remember failed value (index_of s.returned addr)
      else failed
  remembered_as failed _ = failed

  unfoldable pub remembered : Proven → ℕ → Proven
  unfolding fails with without index_of
  remembered failed instruction = remembered_as failed (node instruction)

  abbrev pub register : Point → Option ℕ → Point
  register p none = p
  register p (some index) = record p { closures = with p.closures index }

  abbrev pub registered_as : Point → ℕ → Node → Point
  registered_as p instruction (Node.deferred_call common) =
      register p (index_of s.tracked instruction)
  registered_as p instruction _ = p

  unfoldable pub registered : Point → ℕ → Point
  unfolding with index_of
  registered p instruction = registered_as p instruction (node instruction)

  unfoldable pub is_nil : ℕ → Bool
  unfolding is_nil_node
  is_nil value = is_nil_node (node value)

  -- `nilCheck`, of the operands of a comparison
  abbrev nil_checked : ℕ → ℕ → Option ℕ
  nil_checked x y = if is_nil x then some y else if is_nil y then some x else none

  abbrev nil_proof : Bool → Option ℕ → Option Proof
  nil_proof unequal none = none
  nil_proof unequal (some checked) =
      if s.program.error_typed checked
      then some
          (record { checked = checked; failing = if unequal then 0 else 1; nil_otherwise = true })
      else none

  -- `equality`, of a comparison that is no nil check
  abbrev equality_of : Bool → ℕ → ℕ → Option Proof
  equality_of unequal checked failure =
      if not (s.program.error_typed checked) || not (s.rule.built failure)
      then none
      else some
          (record { checked = checked; failing = if unequal then 1 else 0; nil_otherwise = false })

  abbrev equality : Bool → ℕ → ℕ → Option Proof
  equality unequal x y = if s.rule.built y then equality_of unequal x y else equality_of unequal y x

  abbrev compared : Option Bool → ℕ → ℕ → Option Proof
  compared none x y = none
  compared (some unequal) x y = elim (nil_proof unequal (nil_checked x y)) [
    | some found ↦ some found
    | none ↦ equality unequal x y
  ]

  -- Whether errors.Is, errors.As or errors.AsType, true through `result`, finds its first argument not
  -- nil.
  unfoldable pub proves : String → Option ℕ → List ℕ → Bool
  proves name result arguments =
      if str_eq name "errors.Is"
      then is_none result
        && elim (get_elem? arguments 1) [ none ↦ false | some target ↦ s.rule.built target ]
      else if str_eq name "errors.As"
      then is_none result
      else str_eq name "errors.AsType" && is_one result

  abbrev predicate_of : Option ℕ → List ℕ → Option ℕ → Option Proof
  predicate_of none arguments result = none
  predicate_of (some callee) [] result = none
  predicate_of (some callee) (first ∷ arguments) result =
      if proves (s.program.full_name callee) result (first ∷ arguments)
      then some (record { checked = first; failing = 0; nil_otherwise = false })
      else none

  abbrev predicate : ℕ × Option ℕ → Option Proof
  predicate (call, result) = elim (node call) [
    | Node.call common ↦ predicate_of (callee_of common) common.args result
    | _ ↦ none
  ]

  unfoldable pub proof_of : ℕ → Option Proof
  unfolding is_nil proves callee_of
  proof_of condition = elim (node condition) [
    | Node.bin_op op x y ↦ compared (inequality op) x y
    | _ ↦ predicate (predicate_call condition (node condition))
  ]

  abbrev pub variable_or_self : ℕ → Option ℕ → ℕ
  variable_or_self checked none = checked
  variable_or_self checked (some variable) = variable

  abbrev pub learned : Proven → Proof → ℕ → Option ℕ → Proven
  learned failed found position none = failed
  learned failed found position (some index) =
      if position == found.failing
      then with failed index
      else if found.nil_otherwise
      then without failed index
      else failed

  abbrev pub proved : Proven → ℕ → Option Proof → Proven
  proved failed position none = failed
  proved failed position (some found) =
      learned failed found position
        (index_of s.returned (variable_or_self found.checked (variable_read found.checked)))

  -- The failures known on the successor at a position of a branch.
  unfoldable pub along : Proven → ℕ → ℕ → Proven
  unfolding proof_of variable_read index_of with without
  along failed condition position = proved failed position (proof_of condition)

  abbrev pub hands_back_failure : Proven → Option ℕ → Bool
  hands_back_failure failed none = false
  hands_back_failure failed (some value) = s.program.returns_error && fails failed value

  unfoldable pub returns_failure : Proven → List ℕ → Bool
  unfolding fails
  returns_failure failed results = hands_back_failure failed (last? results)

  abbrev read_from : Option ℕ → Option ℕ
  read_from none = none
  read_from (some value) = if s.program.returns_error then variable_read value else none

  -- The variable a return reads the error it hands back from.
  unfoldable pub result_variable : List ℕ → Option ℕ
  unfolding variable_read
  result_variable results = read_from (last? results)

  -- A deferred closure of the path decides how the obligation ends at a return.
  unfoldable pub closure_decides : Point → List ℕ → Bool
  unfolding result_variable has
  closure_decides current results = contains_func s.tracked (λ entry.
      has current.closures entry.1 && s.rule.closure_settles entry.0 (result_variable results))
