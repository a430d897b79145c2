-- ===== src/Paircheck/Name/Valid.antt =====
-- What `parseName` of paircheck/name.go reads is a name that a configuration can write.
use precept.Base.{
  true, ◌||◌, [], ◌∷◌, Option, none, some, inl, inr, ◌≡◌, refl, arith, ◌==◌, Bool-cases, inr_inj,
  subst,
}
use precept.Base.Texts.{Text, cut_last, trim_byte}
use precept.Paircheck.Name.{
  QualifiedName, Identifiers, parse_path, without_type_parameters, cut_receiver, named,
  function_named, method_named, received, parse_method, parse_name, is_empty,
}
use precept.Paircheck.Name.RoundTrip.{is_path, IsName}

parse_path-is_path :
    (t : Text)
    → (parse_path t).valid ≡ true
    → is_path (parse_path t).path (parse_path t).relative ≡ true
unfolding parse_path is_path
parse_path-is_path [] h = h
parse_path-is_path (c ∷ []) h = ground arith
parse_path-is_path (c ∷ d ∷ t) h = ground arith

module _ (go : Identifiers) where
  named-IsName :
      (t written receiver name : Text) {q : QualifiedName}
      → (is_empty receiver || go.is_identifier receiver) ≡ true
      → go.is_identifier name ≡ true
      → named go t (parse_path written) receiver name ≡ inr q
      → IsName go q
  named-IsName t written receiver name {q} typed known h =
      elim (Bool-cases (parse_path written).valid) [
        | inl e ↦
            subst (IsName go) (inr_inj (rw e at h))
              (record { name = known; receiver = typed; path = parse_path-is_path written e })
        | inr e ↦ absurd (ground (arith, rw e at h))
      ]

  function_named-IsName :
      (t : Text) (parts : Option (Text × Text)) {q : QualifiedName}
      → function_named go t parts ≡ inr q
      → IsName go q
  function_named-IsName t none h = cc
  function_named-IsName t (some (written, name)) h = elim (Bool-cases (go.is_identifier name)) [
    | inl e ↦ named-IsName t written [] name refl e (rw e at h)
    | inr e ↦ absurd (ground (arith, rw e at h))
  ]

  method_named-IsName :
      (t name : Text) (parts : Option (Text × Text)) {q : QualifiedName}
      → go.is_identifier name ≡ true
      → method_named go t parts name ≡ inr q
      → IsName go q
  method_named-IsName t name none known h = cc
  method_named-IsName t name (some (written, receiver)) known h =
      elim (Bool-cases (go.is_identifier receiver)) [
        | inl e ↦ named-IsName t written receiver name (ground (arith, e)) known (rw e at h)
        | inr e ↦ absurd (ground (arith, rw e at h))
      ]

  received-IsName :
      (t : Text) (parts : Option (Text × Text)) {q : QualifiedName}
      → received go t parts ≡ inr q
      → IsName go q
  received-IsName t none h = cc
  received-IsName t (some (receiver, name)) h = elim (Bool-cases (go.is_identifier name)) [
    | inl e ↦
        method_named-IsName t name
          (cut_last b'.' (without_type_parameters (trim_byte b'*' receiver))) e (rw e at h)
    | inr e ↦ absurd (ground (arith, rw e at h))
  ]

-- A name that is read has an identifier for its name, an identifier or nothing for its receiver's type, and a
-- path that can be written, within the module where it is relative.
pub parse_name-IsName :
    (go : Identifiers) (t : Text) {q : QualifiedName} → parse_name go t ≡ inr q → IsName go q
unfolding parse_name parse_method
parse_name-IsName go [] h = cc
parse_name-IsName go (c ∷ t) h = elim (Bool-cases (c == b'(')) [
  | inl e ↦ received-IsName go (c ∷ t) (cut_receiver t) (rw e at h)
  | inr e ↦ function_named-IsName go (c ∷ t) (cut_last b'.' (c ∷ t)) (rw e at h)
]
