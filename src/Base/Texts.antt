-- ===== src/Base/Texts.antt =====
-- Texts as lists of bytes, and the functions of package strings that the program calls on them.
use Prim.Native.Nat.{ℕ}
use mathlib.Core.Path.{◌≡◌, refl}
use mathlib.Core.Bool.{Bool, true, false, ◌&&◌}
use mathlib.Core.Option.{Option, none, some}
use mathlib.Core.List.{List, [], ◌∷◌, ◌++◌}
use native.Mathlib.Omega.{arith}
use precept.Base.Tests.{◌==◌, if◌then◌else◌}
use precept.Base.Lists.{All}

abbrev pub Text : Type 0
Text = List ℕ

unfoldable pub same_text : Text → Text → Bool
same_text [] [] = true
same_text [] (d ∷ t) = false
same_text (c ∷ s) [] = false
same_text (c ∷ s) (d ∷ t) = c == d && same_text s t

-- Whether a text starts with a byte, and ends in one.
unfoldable pub starts_with : Text → ℕ → Bool
starts_with [] b = false
starts_with (c ∷ t) b = c == b

unfoldable pub ends_with : Text → ℕ → Bool
ends_with [] b = false
ends_with (c ∷ []) b = c == b
ends_with (c ∷ d ∷ t) b = ends_with (d ∷ t) b

-- `strings.TrimPrefix`, for a prefix of one byte
unfoldable pub trim_byte : ℕ → Text → Text
trim_byte b [] = []
trim_byte b (c ∷ t) = if c == b then t else c ∷ t

-- The text up to a byte, all of it where the byte is not in it.
unfoldable pub before : ℕ → Text → Text
before b [] = []
before b (c ∷ t) = let rest = before b t in if c == b then [] else c ∷ rest

unfoldable pub has_byte : ℕ → Text → Bool
has_byte b [] = false
has_byte b (c ∷ t) = if c == b then true else has_byte b t

-- The parts around the last place of a byte.
unfoldable pub cut_last : ℕ → Text → Option (Text × Text)
cut_last b [] = none
cut_last b (c ∷ t) = elim (cut_last b t) [
  | some parts ↦ some (c ∷ parts.0, parts.1)
  | none ↦ if c == b then some ([], t) else none
]

-- `strings.Split`, at a byte
unfoldable pub split : ℕ → Text → List Text
split b [] = [] ∷ []
split b (c ∷ t) = elim (split b t) [
  | [] ↦ [] ∷ []
  | first ∷ rest ↦ if c == b then [] ∷ first ∷ rest else (c ∷ first) ∷ rest
]

-- No byte of the text is this one.
abbrev pub Lacks : ℕ → Text → Type 0
Lacks b = All (λ c. (c == b) ≡ false)

pub cut_last-Lacks : (b : ℕ) (t : Text) → Lacks b t → cut_last b t ≡ none
unfolding cut_last
cut_last-Lacks b [] h = refl
cut_last-Lacks b (c ∷ t) (apart, h) = rw (cut_last-Lacks b t h, apart) refl

pub cut_last-append : (b : ℕ) (s t : Text) → Lacks b t → cut_last b (s ++ b ∷ t) ≡ some (s, t)
unfolding cut_last
cut_last-append b [] t h = rw (cut_last-Lacks b t h) (ground arith)
cut_last-append b (c ∷ s) t h = rw (cut_last-append b s t h) refl

pub has_byte-Lacks : (b : ℕ) (t : Text) → Lacks b t → has_byte b t ≡ false
unfolding has_byte
has_byte-Lacks b [] h = refl
has_byte-Lacks b (c ∷ t) (apart, h) = rw apart (has_byte-Lacks b t h)

pub Lacks-append : (b : ℕ) (s t : Text) → Lacks b s → Lacks b t → Lacks b (s ++ t)
Lacks-append b [] t h k = k
Lacks-append b (c ∷ s) t (apart, h) k = (apart, Lacks-append b s t h k)
