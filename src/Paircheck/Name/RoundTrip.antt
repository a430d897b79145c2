-- ===== src/Paircheck/Name/RoundTrip.antt =====
-- A name is read back from its spelling (paircheck/name.go), and what is read is a name.
use precept.Base.{
  ℕ, Bool, true, false, not, ◌&&◌, ◌||◌, [], ◌∷◌, ◌++◌, some, inr, ◌≡◌, ◌≢◌, refl, arith, ◌==◌,
  if◌then◌else◌, contains_func, All, and_true, ap,
}
use precept.Base.Members.{All-map}
use precept.Base.Texts.{
  Text, starts_with, trim_byte, cut_last, Lacks, cut_last-append, has_byte-Lacks, Lacks-append,
}
use precept.Paircheck.Name.{
  QualifiedName, is_plain, Identifiers, is_path_character, is_import_path, is_inside, parse_path,
  without_type_parameters, cut_receiver, function_named, parse_method, parse_name, written_path,
  spelled, is_empty,
}

plain-dot : (c : ℕ) → is_plain c ≡ true → (c == b'.') ≡ false
unfolding is_plain
plain-dot c h = ground (arith, h)

plain_close : (c : ℕ) → is_plain c ≡ true → (c == b')') ≡ false
unfolding is_plain
plain_close c h = ground (arith, h)

plain_open : (c : ℕ) → is_plain c ≡ true → (c == b'[') ≡ false
unfolding is_plain
plain_open c h = ground (arith, h)

path_close : (c : ℕ) → is_path_character c ≡ true → (c == b')') ≡ false
unfolding is_path_character
path_close c h = ground (arith, h)

path_open : (c : ℕ) → is_path_character c ≡ true → (c == b'[') ≡ false
unfolding is_path_character
path_open c h = ground (arith, h)

-- Whether a path can be written in a name.
unfoldable pub is_path : Text → Bool → Bool
unfolding is_import_path is_inside
is_path path relative =
    if relative
    then is_empty path || is_inside path
    else is_import_path path && not (starts_with path b'.')

pub AreCharacters : Text → Type 0
AreCharacters = All (λ c. is_path_character c ≡ true)

characters : (t : Text) → contains_func t (λ c. not (is_path_character c)) ≡ false → AreCharacters t
unfolding AreCharacters
characters [] h = tt
characters (c ∷ t) h = (ground (arith, h), characters t (ground (arith, h)))

import_path-AreCharacters : (t : Text) → is_import_path t ≡ true → AreCharacters t
unfolding is_import_path
import_path-AreCharacters t h = characters t (ground (arith, h))

-- A name that a configuration can write.
pub record IsName (go : Identifiers) (q : QualifiedName) : Type 0 where
  pub name : go.is_identifier q.name ≡ true
  pub receiver : (is_empty q.receiver || go.is_identifier q.receiver) ≡ true
  pub path : is_path q.path q.relative ≡ true

written-AreCharacters :
    (q : QualifiedName) → is_path q.path q.relative ≡ true → AreCharacters (written_path q)
unfolding is_path written_path is_inside AreCharacters is_path_character
written-AreCharacters q h = by_parts q.path q.relative h
  where
    by_parts :
        (p : Text) (relative : Bool)
        → is_path p relative ≡ true
        → AreCharacters
            (if relative then (if is_empty p then b'.' ∷ [] else b'.' ∷ b'/' ∷ p) else p)
    by_parts p false e = import_path-AreCharacters p (and_true (is_import_path p) _ e).0
    by_parts [] true e = (refl, tt)
    by_parts (c ∷ p) true e =
        (refl, (refl, import_path-AreCharacters (c ∷ p) (and_true (is_import_path (c ∷ p)) _ e).0))

parse_path-written :
    (q : QualifiedName)
    → is_path q.path q.relative ≡ true
    → parse_path (written_path q) ≡ record { path = q.path; relative = q.relative; valid = true }
unfolding is_path written_path parse_path is_import_path starts_with
parse_path-written q h = by_parts q.path q.relative h
  where
    by_parts :
        (p : Text) (relative : Bool)
        → is_path p relative ≡ true
        → parse_path (if relative then (if is_empty p then b'.' ∷ [] else b'.' ∷ b'/' ∷ p) else p)
          ≡ record { path = p; relative = relative; valid = true }
    by_parts [] true e = refl
    by_parts (c ∷ p) true e = ap (λ v. record { path = c ∷ p; relative = true; valid = v }) e
    by_parts [] false e = absurd (ground (arith, e))
    by_parts (c ∷ []) false e = ground (arith, e)
    by_parts (c ∷ d ∷ p) false e = ground (arith, e)

characters-Lacks_close : (t : Text) → AreCharacters t → Lacks b')' t
unfolding AreCharacters
characters-Lacks_close t h =
    All-map (λ c. is_path_character c ≡ true) (λ c. (c == b')') ≡ false) t path_close h

characters-Lacks_open : (t : Text) → AreCharacters t → Lacks b'[' t
unfolding AreCharacters
characters-Lacks_open t h =
    All-map (λ c. is_path_character c ≡ true) (λ c. (c == b'[') ≡ false) t path_open h

cut_receiver-append :
    (s t : Text) → Lacks b')' s → cut_receiver (s ++ b')' ∷ b'.' ∷ t) ≡ some (s, t)
unfolding cut_receiver
cut_receiver-append [] t h = refl
cut_receiver-append (c ∷ []) t (apart, h) = rw apart refl
cut_receiver-append (c ∷ d ∷ s) t (apart, h) = rw (apart, cut_receiver-append (d ∷ s) t h) refl

-- A text of path characters, not empty, starts no method's name, and no pointer's.
parse_name-characters :
    (go : Identifiers) (w t : Text)
    → AreCharacters w
    → w ≢ []
    → parse_name go (w ++ t) ≡ function_named go (w ++ t) (cut_last b'.' (w ++ t))
unfolding parse_name AreCharacters is_path_character
parse_name-characters go [] t h ne = absurd (ne refl)
parse_name-characters go (c ∷ w) t (first, h) ne = ground (arith, first)

trim_byte-characters : (w t : Text) → AreCharacters w → w ≢ [] → trim_byte b'*' (w ++ t) ≡ w ++ t
unfolding trim_byte AreCharacters is_path_character
trim_byte-characters [] t h ne = absurd (ne refl)
trim_byte-characters (c ∷ w) t (first, h) ne = ground (arith, first)

written_path-ne_nil : (q : QualifiedName) → is_path q.path q.relative ≡ true → written_path q ≢ []
unfolding is_path written_path is_import_path
written_path-ne_nil q h = by_parts q.path q.relative h
  where
    by_parts :
        (p : Text) (relative : Bool)
        → is_path p relative ≡ true
        → (if relative then (if is_empty p then b'.' ∷ [] else b'.' ∷ b'/' ∷ p) else p) ≢ []
    by_parts [] true e k = cc
    by_parts (c ∷ p) true e k = cc
    by_parts [] false e k = absurd (ground (arith, e))
    by_parts (c ∷ p) false e k = cc

module _ (go : Identifiers) where
  identifier-Lacks_dot : (t : Text) → go.is_identifier t ≡ true → Lacks b'.' t
  identifier-Lacks_dot t h =
      All-map (λ c. is_plain c ≡ true) (λ c. (c == b'.') ≡ false) t plain-dot (go.plain t h)

  identifier-Lacks_close : (t : Text) → go.is_identifier t ≡ true → Lacks b')' t
  identifier-Lacks_close t h =
      All-map (λ c. is_plain c ≡ true) (λ c. (c == b')') ≡ false) t plain_close (go.plain t h)

  identifier-Lacks_open : (t : Text) → go.is_identifier t ≡ true → Lacks b'[' t
  identifier-Lacks_open t h =
      All-map (λ c. is_plain c ≡ true) (λ c. (c == b'[') ≡ false) t plain_open (go.plain t h)

  parse_name-function :
      (w name path : Text) (relative : Bool)
      → AreCharacters w
      → w ≢ []
      → parse_path w ≡ record { path = path; relative = relative; valid = true }
      → go.is_identifier name ≡ true
      → parse_name go (w ++ b'.' ∷ name)
        ≡ inr (record { path = path; receiver = []; name = name; relative = relative })
  parse_name-function w name path relative h ne read known =
      rw
        (
          parse_name-characters go w (b'.' ∷ name) h ne,
          cut_last-append b'.' w name (identifier-Lacks_dot name known),
        )
        rw (known, read) refl

  without_type_parameters-Lacks : (t : Text) → Lacks b'[' t → without_type_parameters t ≡ t
  unfolding without_type_parameters
  without_type_parameters-Lacks t h = rw (has_byte-Lacks b'[' t h) refl

  parse_name-method :
      (w receiver name path : Text) (relative : Bool)
      → AreCharacters w
      → w ≢ []
      → parse_path w ≡ record { path = path; relative = relative; valid = true }
      → go.is_identifier receiver ≡ true
      → go.is_identifier name ≡ true
      → parse_name go (b'(' ∷ (w ++ b'.' ∷ receiver) ++ b')' ∷ b'.' ∷ name)
        ≡ inr (record { path = path; receiver = receiver; name = name; relative = relative })
  unfolding parse_name parse_method
  parse_name-method w receiver name path relative h ne read typed known =
      let closed : Lacks b')' (w ++ b'.' ∷ receiver) =
        Lacks-append b')' w (b'.' ∷ receiver) (characters-Lacks_close w h)
          (refl, identifier-Lacks_close receiver typed) in
      let opened : Lacks b'[' (w ++ b'.' ∷ receiver) =
        Lacks-append b'[' w (b'.' ∷ receiver) (characters-Lacks_open w h)
          (refl, identifier-Lacks_open receiver typed) in
      rw (cut_receiver-append (w ++ b'.' ∷ receiver) name closed) rw
        (known, trim_byte-characters w (b'.' ∷ receiver) h ne) rw
        (without_type_parameters-Lacks (w ++ b'.' ∷ receiver) opened) rw
        (cut_last-append b'.' w receiver (identifier-Lacks_dot receiver typed)) rw (typed, read)
        refl

-- A name that a configuration can write is read back from its spelling, whatever its path, relative or
-- not, and whether it names a function or a method.
pub parse_name-spelled :
    (go : Identifiers) (q : QualifiedName) → IsName go q → parse_name go (spelled q) ≡ inr q
unfolding spelled
parse_name-spelled go q h = by_receiver q.receiver h.receiver
  where
    by_receiver :
        (receiver : Text)
        → (is_empty receiver || go.is_identifier receiver) ≡ true
        → parse_name go (
            if is_empty receiver
            then written_path q ++ b'.' ∷ q.name
            else b'(' ∷ (written_path q ++ b'.' ∷ receiver) ++ b')' ∷ b'.' ∷ q.name)
          ≡ inr
              (record { path = q.path; receiver = receiver; name = q.name; relative = q.relative })
    by_receiver [] e =
        parse_name-function go (written_path q) q.name q.path q.relative
          (written-AreCharacters q h.path) (written_path-ne_nil q h.path)
          (parse_path-written q h.path) h.name
    by_receiver (c ∷ receiver) e =
        parse_name-method go (written_path q) (c ∷ receiver) q.name q.path q.relative
          (written-AreCharacters q h.path) (written_path-ne_nil q h.path)
          (parse_path-written q h.path) e h.name
