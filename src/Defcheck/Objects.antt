-- ===== src/Defcheck/Objects.antt =====
-- The objects of go/types as defcheck/classify.go and defcheck/imposed.go read them: the kind of each,
-- and whether the code chose its name. go/types, unicode and the file a position is in are parameters:
-- what they answer is part of an object.
use Prim.Native.Char.{Char, code}
use Prim.Native.String.{String, [] as []ˢ, ◌∷◌ as ◌∷ˢ◌}
use text.Mathlib.Text.{◌==◌ as str_eq}
use precept.Base.{
  ℕ, Bool, true, false, not, ◌&&◌, ◌||◌, List, [], ◌∷◌, Option, none, some, ◌==◌, if◌then◌else◌,
}
use precept.Defcheck.Kinds.{contains}

-- types.VarKind
pub data VarKind : Type 0 where
  package_var local_var recv_var param_var result_var field_var other_var : VarKind

-- A parameter's type: for a pointer to a named type, the path of its package, if it has one, and its name.
pub data ParamType : Type 0 where
  pointer_to_named : Option String → String → ParamType
  other_type : ParamType

-- The type a receiver has, past a pointer: which interfaces it, or a pointer to it, implements.
pub record Receiver : Type 0 where
  pub is_interface : Bool
  pub implements_one : ℕ → Bool
  pub pointer_implements : ℕ → Bool

-- An interface: its identity and the names of its methods.
pub record Interface : Type 0 where
  pub id : ℕ
  pub methods : List String

pub record Function : Type 0 where
  pub name : String
  pub receiver : Option Receiver
  pub package_name : String
  pub file_name : Option String
  pub type_params : ℕ
  pub params : List ParamType
  pub results : ℕ

pub data Object : Type 0 where
  func : Function → Object
  variable : Bool → VarKind → Object
  constant : Object
  type_name : Bool → Object
  label : Object
  other_object : Object

-- The map `variables`.
abbrev pub variable_kind : VarKind → Option String
variable_kind VarKind.package_var = some "package-var"
variable_kind VarKind.local_var = some "local-var"
variable_kind VarKind.recv_var = some "receiver"
variable_kind VarKind.param_var = some "parameter"
variable_kind VarKind.result_var = some "result"
variable_kind VarKind.field_var = some "field"
variable_kind VarKind.other_var = none

abbrev method_or_function : Option Receiver → String
method_or_function none = "function"
method_or_function (some receiver) = "method"

unfoldable pub kind_of : Object → Option String
kind_of (Object.func f) = some (method_or_function f.receiver)
kind_of (Object.variable embedded kind) = if embedded then none else variable_kind kind
kind_of Object.constant = some "constant"
kind_of (Object.type_name is_parameter) = some (if is_parameter then "type-parameter" else "type")
kind_of Object.label = some "label"
kind_of Object.other_object = none

-- `strings.CutPrefix`
abbrev pub cut_prefix : String → String → Option String
cut_prefix name []ˢ = some name
cut_prefix []ˢ (d ∷ˢ prefix) = none
cut_prefix (c ∷ˢ name) (d ∷ˢ prefix) =
    let rest = cut_prefix name prefix in if code c == code d then rest else none

unfoldable pub declares : Interface → String → Bool
declares candidate name = contains candidate.methods name

-- The loop of `implements`.
unfoldable pub implements_from : Receiver → String → List Interface → Bool
unfolding declares
implements_from receiver name [] = false
implements_from receiver name (candidate ∷ interfaces) =
    (declares candidate name
      && (receiver.implements_one candidate.id || receiver.pointer_implements candidate.id))
    || implements_from receiver name interfaces

unfoldable pub implements : Receiver → String → List Interface → Bool
unfolding implements_from
implements receiver name interfaces =
    if receiver.is_interface then false else implements_from receiver name interfaces

abbrev is_testing : Option String → Bool
is_testing none = false
is_testing (some path) = str_eq path "testing"

abbrev points_to_testing : List ParamType → String → Bool
points_to_testing (ParamType.pointer_to_named path name ∷ []) parameter =
    is_testing path && str_eq name parameter
points_to_testing _ parameter = false

unfoldable pub takes_testing : Function → String → Bool
takes_testing f parameter = f.results == 0 && points_to_testing f.params parameter

module _ (is_lower : Char → Bool) (has_suffix : String → String → Bool) where
  abbrev names_test : Option String → Bool
  names_test none = false
  names_test (some []ˢ) = true
  names_test (some (first ∷ˢ rest)) = not (is_lower first)

  unfoldable pub test_name : String → String → Bool
  test_name name prefix = names_test (cut_prefix name prefix)

  abbrev takes_nothing : Function → Bool
  takes_nothing f = elim f.params [ [] ↦ f.results == 0 | p ∷ params ↦ false ]

  unfoldable pub run_by_go_test : Function → Bool
  unfolding test_name takes_testing
  run_by_go_test f =
      if not (f.type_params == 0)
      then false
      else if str_eq f.name "TestMain" && takes_testing f "M"
      then true
      else if test_name f.name "Example"
      then takes_nothing f
      else if test_name f.name "Test"
      then takes_testing f "T"
      else if test_name f.name "Benchmark"
      then takes_testing f "B"
      else if test_name f.name "Fuzz"
      then takes_testing f "F"
      else false

  abbrev in_test_file : Function → Option String → Bool
  in_test_file f none = false
  in_test_file f (some file) = has_suffix file "_test.go" && run_by_go_test f

  abbrev imposed_function : List Interface → Function → Option Receiver → Bool
  imposed_function interfaces f (some receiver) = implements receiver f.name interfaces
  imposed_function interfaces f none =
      if str_eq f.name "init"
      then true
      else if str_eq f.name "main"
      then str_eq f.package_name "main"
      else in_test_file f f.file_name

  unfoldable pub imposed : List Interface → Object → Bool
  unfolding implements run_by_go_test
  imposed interfaces (Object.func f) = imposed_function interfaces f f.receiver
  imposed interfaces _ = false
