-- ===== src/Paircheck/ValidateSamples.antt =====
-- A rule on an interface, applied to a type that implements it, and the theorem on Validate at it.
use precept.Base.{ℕ, true, List, [], ◌∷◌, none, some, inr, ◌≡◌, refl, All}
use precept.Base.Texts.{Text, has_byte, ends_with, split, starts_with}
use precept.Paircheck.Name.{is_plain, is_path_character}
use precept.Paircheck.Protocol.{Protocol}
use precept.Paircheck.Config.{Config}
use precept.Paircheck.Types.{no_types, pointer_to, named_type}
use precept.Paircheck.Candidates.{Function}
use precept.Paircheck.Bind.{Visible}
use precept.Paircheck.Implementation.{Interfaces}
use precept.Paircheck.Validate.{compile_within, validate}
use precept.Paircheck.Validate.Binds.{BindsAlike, validate-BindsAlike}
use precept.Paircheck.ConfigSamples.{library, rule, written_call}
use precept.Paircheck.BindSamples.{go}

-- A type of one letter is declared by the object of that number.
abbrev object_of : Text → ℕ
object_of [] = 0
object_of (c ∷ t) = c

abbrev method_of : Text → Function
method_of type_name = record {
  name = [];
  receiver = some (pointer_to (named_type (object_of type_name) no_types));
  parameters = [];
  results = [];
}

abbrev visible : Visible
visible = record {
  seen = λ path. true;
  function = λ path name. none;
  is_type = λ path name. true;
  method = λ path type_name name. some (method_of type_name);
}

abbrev types : Interfaces
types = record {
  contract = λ path name. some 1;
  implements = λ type_name contract. true;
  has_method = λ type_name name. true;
}

-- `(m.I).O`, `(m.I).C` and `m.S`
abbrev config : Config
config = record {
  rules =
      record rule {
        trigger = written_call (b'(' ∷ b'm' ∷ b'.' ∷ b'I' ∷ b')' ∷ b'.' ∷ b'O' ∷ []);
        satisfiers = written_call (b'(' ∷ b'm' ∷ b'.' ∷ b'I' ∷ b')' ∷ b'.' ∷ b'C' ∷ []) ∷ [];
        implementations = record { name = b'm' ∷ b'.' ∷ b'S' ∷ []; id = b's' ∷ [] } ∷ [];
      }
      ∷ [];
  failures = [];
}

config_valid : validate go visible types library config [] ≡ inr []
unfolding validate is_plain ends_with is_path_character split has_byte starts_with
config_valid = refl

validate-BindsAlike_example :
    (ps : List Protocol) × (compile_within library config [] ≡ inr ps)
    × All (BindsAlike go visible types) ps
validate-BindsAlike_example = validate-BindsAlike go visible types library config [] config_valid
