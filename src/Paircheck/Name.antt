-- ===== src/Paircheck/Name.antt =====
-- The names of functions, methods and types in a configuration (paircheck/name.go). go/token is a
-- parameter, with what is documented of an identifier.
pub mod RoundTrip
pub mod Valid
use precept.Base.{
  ℕ, Bool, true, false, not, ◌&&◌, ◌||◌, List, [], ◌∷◌, ◌++◌, Option, none, some, ◌⊎◌, inl, inr,
  ◌≡◌, ◌==◌, leb, if◌then◌else◌, contains_func, All,
}
use precept.Base.Texts.{
  Text, same_text, starts_with, ends_with, trim_byte, before, has_byte, cut_last, split,
}

pub record QualifiedName : Type 0 where
  pub path : Text
  pub receiver : Text
  pub name : Text
  pub relative : Bool

-- The bytes an identifier is made of: letters, digits, _, and the bytes of letters beyond ASCII.
abbrev between : ℕ → ℕ → ℕ → Bool
between low high c = leb low c && leb c high

unfoldable pub is_plain : ℕ → Bool
is_plain c =
    between b'a' b'z' c || between b'A' b'Z' c || between b'0' b'9' c || c == b'_' || leb 128 c

pub record Identifiers : Type 0 where
  pub is_identifier : Text → Bool
  pub empty : is_identifier [] ≡ false
  pub plain : (t : Text) → is_identifier t ≡ true → All (λ c. is_plain c ≡ true) t

pub data NameError : Type 0 where
  invalid_name : Text → NameError
  no_module : QualifiedName → NameError

unfoldable pub is_path_character : ℕ → Bool
is_path_character c =
    between b'a' b'z' c
    || between b'A' b'Z' c
    || between b'0' b'9' c
    || c == b'.'
    || c == b'/'
    || c == b'-'
    || c == b'_'
    || c == b'~'
    || c == b'+'

abbrev pub is_empty : Text → Bool
is_empty [] = true
is_empty (c ∷ t) = false

unfoldable pub is_import_path : Text → Bool
is_import_path path =
    not (is_empty path || starts_with path b'/' || ends_with path b'/')
    && not (contains_func path (λ c. not (is_path_character c)))

unfoldable pub is_dot_element : Text → Bool
is_dot_element [] = true
is_dot_element (c ∷ []) = c == b'.'
is_dot_element (c ∷ d ∷ []) = c == b'.' && d == b'.'
is_dot_element _ = false

-- The path of a name, whether it is relative to the module, and whether it is valid.
pub record ParsedPath : Type 0 where
  pub path : Text
  pub relative : Bool
  pub valid : Bool

unfoldable pub is_inside : Text → Bool
unfolding is_import_path is_dot_element
is_inside inside = is_import_path inside && not (contains_func (split b'/' inside) is_dot_element)

abbrev absolute_path : Text → ParsedPath
absolute_path written = record {
  path = written;
  relative = false;
  valid = is_import_path written && not (starts_with written b'.');
}

unfoldable pub parse_path : Text → ParsedPath
unfolding is_inside is_import_path
parse_path [] = absolute_path []
parse_path (c ∷ []) =
    if c == b'.'
    then record { path = []; relative = true; valid = true }
    else absolute_path (c ∷ [])
parse_path (c ∷ d ∷ inside) =
    if c == b'.' && d == b'/'
    then record { path = inside; relative = true; valid = is_inside inside }
    else absolute_path (c ∷ d ∷ inside)

unfoldable pub without_type_parameters : Text → Text
without_type_parameters receiver =
    if not (has_byte b'[' receiver) || not (ends_with receiver b']')
    then receiver
    else before b'[' receiver

-- `strings.Cut(text, ").")`
unfoldable pub cut_receiver : Text → Option (Text × Text)
cut_receiver [] = none
cut_receiver (c ∷ []) = none
cut_receiver (c ∷ d ∷ t) =
    if c == b')' && d == b'.'
    then some ([], t)
    else elim (cut_receiver (d ∷ t)) [ none ↦ none | some parts ↦ some (c ∷ parts.0, parts.1) ]

module _ (go : Identifiers) where
  abbrev pub named : Text → ParsedPath → Text → Text → NameError ⊎ QualifiedName
  named text path receiver name =
      if path.valid
      then inr
          (record { path = path.path; receiver = receiver; name = name; relative = path.relative })
      else inl (invalid_name text)

  abbrev pub function_named : Text → Option (Text × Text) → NameError ⊎ QualifiedName
  function_named text none = inl (invalid_name text)
  function_named text (some (written, name)) =
      if go.is_identifier name
      then named text (parse_path written) [] name
      else inl (invalid_name text)

  abbrev pub method_named : Text → Option (Text × Text) → Text → NameError ⊎ QualifiedName
  method_named text none name = inl (invalid_name text)
  method_named text (some (written, type_name)) name =
      if go.is_identifier type_name
      then named text (parse_path written) type_name name
      else inl (invalid_name text)

  abbrev pub received : Text → Option (Text × Text) → NameError ⊎ QualifiedName
  received text none = inl (invalid_name text)
  received text (some (receiver, name)) =
      if go.is_identifier name
      then method_named text (cut_last b'.' (without_type_parameters (trim_byte b'*' receiver)))
          name
      else inl (invalid_name text)

  unfoldable pub parse_method : Text → Text → NameError ⊎ QualifiedName
  unfolding cut_receiver cut_last without_type_parameters trim_byte parse_path
  parse_method text inside = received text (cut_receiver inside)

  unfoldable pub parse_name : Text → NameError ⊎ QualifiedName
  unfolding parse_method cut_last parse_path
  parse_name [] = inl (invalid_name [])
  parse_name (c ∷ text) =
      if c == b'('
      then parse_method (c ∷ text) text
      else function_named (c ∷ text) (cut_last b'.' (c ∷ text))

-- The path as a name spells it.
unfoldable pub written_path : QualifiedName → Text
written_path q =
    if q.relative then (if is_empty q.path then b'.' ∷ [] else b'.' ∷ b'/' ∷ q.path) else q.path

-- `String`
unfoldable pub spelled : QualifiedName → Text
unfolding written_path
spelled q =
    if is_empty q.receiver
    then written_path q ++ b'.' ∷ q.name
    else b'(' ∷ (written_path q ++ b'.' ∷ q.receiver) ++ b')' ∷ b'.' ∷ q.name

unfoldable pub within : QualifiedName → Text → NameError ⊎ QualifiedName
within q module_path =
    if not q.relative
    then inr q
    else if is_empty module_path
    then inl (no_module q)
    else inr (record q {
      relative = false;
      path = if is_empty q.path then module_path else module_path ++ b'/' ∷ q.path;
    })

unfoldable pub names_within : List QualifiedName → Text → NameError ⊎ List QualifiedName
unfolding within
names_within [] module_path = inr []
names_within (name ∷ names) module_path =
    let rest = names_within names module_path in
    elim (within name module_path) [
      | inl wrong ↦ inl wrong
      | inr first ↦ elim rest [ inl wrong ↦ inl wrong | inr resolved ↦ inr (first ∷ resolved) ]
    ]

-- A types.Func, as names match it: its origin's name, the path of its package, if it has one, and the name
-- of its receiver's type, empty where it has none.
pub record Declared : Type 0 where
  pub name : Text
  pub package_path : Option Text
  pub receiver_name : Text

abbrev same_path : Option Text → Text → Bool
same_path none path = false
same_path (some p) path = same_text p path

unfoldable pub matches : QualifiedName → Declared → Bool
unfolding same_text
matches q function =
    same_text function.name q.name
    && same_path function.package_path q.path
    && same_text function.receiver_name q.receiver
