-- ===== src/Paircheck/Types.antt =====
-- The types of go/types as paircheck reads them (paircheck/correspondence.go, paircheck/bind.go). A
-- composite type is its shape and the types it is built from, which is how `decompose` takes it apart. What
-- go/types says of any other type is a parameter.
use precept.Base.{
  ℕ, Bool, true, false, ◌&&◌, ◌||◌, Option, none, some, ◌==◌, same_bool, if◌then◌else◌,
}
use precept.Base.Texts.{Text}

pub data Construction : Type 0 where
  construction_pointer construction_slice construction_array construction_map : Construction
  construction_channel construction_named construction_signature : Construction

-- The origin is the number of the object that declares a named type, or of none.
pub record Shape : Type 0 where
  pub construction : Construction
  pub origin : ℕ
  pub length : ℕ
  pub direction : ℕ
  pub parameters : ℕ
  pub variadic : Bool

mutual
  -- A type parameter, a composite type, an alias of a type, or a type known by a number.
  pub data GoType : Type 0 where
    type_param : ℕ → GoType
    composite : Shape → Types → GoType
    alias : GoType → GoType
    other : ℕ → GoType

  pub data Types : Type 0 where
    no_types : Types
    type_and : GoType → Types → Types

-- `types.Identical` between types that are neither composite nor type parameters, and between any two; the
-- type that a type is defined as; and the package's path, where it has one, and the name of an object.
pub record GoTypes : Type 0 where
  pub identical : GoType → GoType → Bool
  pub error_type : GoType
  pub underlying : GoType → GoType
  pub package_path : ℕ → Option Text
  pub object_name : ℕ → Text

unfoldable pub unalias : GoType → GoType
unalias (alias t) = unalias t
unalias (type_param i) = type_param i
unalias (composite shape parts) = composite shape parts
unalias (other i) = other i

abbrev pub construction_number : Construction → ℕ
construction_number construction_pointer = 1
construction_number construction_slice = 2
construction_number construction_array = 3
construction_number construction_map = 4
construction_number construction_channel = 5
construction_number construction_named = 6
construction_number construction_signature = 7

unfoldable pub same_shape : Shape → Shape → Bool
same_shape first second =
    construction_number first.construction == construction_number second.construction
    && first.origin == second.origin
    && first.length == second.length
    && first.direction == second.direction
    && first.parameters == second.parameters
    && same_bool first.variadic second.variadic

-- A shape where only its construction says anything.
abbrev pub plain_shape : Construction → Shape
plain_shape construction = record {
  construction = construction;
  origin = 0;
  length = 0;
  direction = 0;
  parameters = 0;
  variadic = false;
}

abbrev pub pointer_to : GoType → GoType
pointer_to t = composite (plain_shape construction_pointer) (type_and t no_types)

-- The composites of `decompose`.
abbrev pub slice_of : GoType → GoType
slice_of t = composite (plain_shape construction_slice) (type_and t no_types)

abbrev pub named_type : ℕ → Types → GoType
named_type origin arguments =
    composite (record (plain_shape construction_named) { origin = origin }) arguments

unfoldable mutual
  pub mentions_type_parameter : GoType → Bool
  mentions_type_parameter (type_param i) = true
  mentions_type_parameter (composite shape parts) = any_mentions parts
  mentions_type_parameter (alias t) = mentions_type_parameter t
  mentions_type_parameter (other i) = false

  pub any_mentions : Types → Bool
  any_mentions no_types = false
  any_mentions (type_and t ts) = mentions_type_parameter t || any_mentions ts

abbrev pub is_pointer : Construction → Bool
is_pointer construction_pointer = true
is_pointer _ = false

abbrev pub is_named : Construction → Bool
is_named construction_named = true
is_named _ = false

abbrev pub pointed : Shape → Types → GoType
pointed shape (type_and t no_types) =
    if is_pointer shape.construction then unalias t else composite shape (type_and t no_types)
pointed shape parts = composite shape parts

abbrev dereferenced : GoType → GoType
dereferenced (composite shape parts) = pointed shape parts
dereferenced t = t

unfoldable pub dereference : GoType → GoType
unfolding unalias
dereference t = dereferenced (unalias t)

-- The object that declares a named type.
abbrev pub origin_of : GoType → Option ℕ
origin_of (composite shape parts) = if is_named shape.construction then some shape.origin else none
origin_of _ = none

abbrev pub same_origin : GoTypes → GoType → GoType → Option ℕ → Option ℕ → Bool
same_origin go first second (some o) (some o') = o == o'
same_origin go first second _ _ = go.identical first second

unfoldable pub same_type : GoTypes → GoType → GoType → Bool
unfolding dereference
same_type go first second =
    let t = dereference first in
    let s = dereference second in same_origin go t s (origin_of t) (origin_of s)
