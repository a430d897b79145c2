-- ===== src/Paircheck/Ssa.antt =====
-- What golang.org/x/tools/go/ssa and go/types hand the analyzer, as far as paircheck/flow.go and
-- paircheck/success.go read it. A value, an instruction, a block or a declared function is known by
-- its identity, a number. The tables of `Program` belong to those packages and are parameters.
pub mod Blocks
use Prim.Native.String.{String}
use precept.Base.{ℕ, Bool, true, false, List, Option, none, some, if◌then◌else◌}

-- token.EQL, token.NEQ, token.MUL (a load), and every other operator.
pub data Operator : Type 0 where
  eql neq mul other : Operator

-- ssa.CallCommon: its function is `method` when it invokes an interface's, and otherwise the object of
-- the function it calls statically, if it calls one. `value` is its Value.
pub record Common : Type 0 where
  pub invoke : Bool
  pub method : Option ℕ
  pub static_object : Option ℕ
  pub args : List ℕ
  pub value : ℕ

-- The instructions and values that the code tells apart by their Go type.
pub data Node : Type 0 where
  call : Common → Node
  deferred_call : Common → Node
  store : ℕ → ℕ → Node
  returns : List ℕ → Node
  panics : Node
  branch : ℕ → Node
  un_op : Operator → ℕ → Node
  bin_op : Operator → ℕ → ℕ → Node
  extract : ℕ → ℕ → Node
  phi : List ℕ → Node
  constant : Bool → Node
  builtin : Node
  other_node : Node

pub record Block : Type 0 where
  pub instrs : List ℕ
  pub succs : List ℕ

-- `returns_error`: the last result of the signature is an error. `error_typed v` is
-- types.Identical(v.Type(), errorType).
pub record Program : Type 0 where
  pub node : ℕ → Node
  pub error_typed : ℕ → Bool
  pub referrers : ℕ → List ℕ
  pub full_name : ℕ → String
  pub blocks : List Block
  pub returns_error : Bool

unfoldable pub callee_of : Common → Option ℕ
callee_of common = if common.invoke then common.method else common.static_object

unfoldable pub is_nil_node : Node → Bool
is_nil_node (constant nil) = nil
is_nil_node _ = false

abbrev pub is_mul : Operator → Bool
is_mul Operator.mul = true
is_mul _ = false

-- The variable a value is loaded from, if it is a load.
unfoldable pub read_by : Node → Option ℕ
read_by (un_op op x) = if is_mul op then some x else none
read_by _ = none
