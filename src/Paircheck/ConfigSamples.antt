-- ===== src/Paircheck/ConfigSamples.antt =====
-- A configuration with one rule, and the theorems on names, protocols and configurations at it.
use precept.Base.{
  Bool, true, false, ◌&&◌, ◌||◌, List, [], ◌∷◌, none, inl, inr, ◌≡◌, ◌↔◌, refl, arith, All,
  contains_func,
}
use precept.Base.Results.{is_error}
use precept.Base.Texts.{Text, starts_with, ends_with, has_byte, split}
use precept.Paircheck.Name.{
  QualifiedName, is_plain, is_path_character, Identifiers, parse_name, spelled, is_empty,
  is_import_path,
}
use precept.Paircheck.Name.RoundTrip.{IsName, is_path, parse_name-spelled}
use precept.Paircheck.Slot.{slot_none, Slot}
use precept.Paircheck.Protocol.{any_path, Protocol, protocol_within, relative}
use precept.Paircheck.Protocol.Within.{is_error-protocol_within, protocol_within-relative}
use precept.Paircheck.Config.{
  Library, Call, Rule, Config, compile, compile_failures, duplicate_id, at_rule,
}
use precept.Paircheck.Config.Compile.{AreCompiled, ids, compile_iff}
use precept.Paircheck.Config.Distinct.{AreDistinct}
use precept.Paircheck.Config.Valid.{IsValid, compile-IsValid}

-- An identifier here is a text of plain bytes that is not empty.
abbrev all_plain : Text → Bool
all_plain [] = true
all_plain (c ∷ t) = is_plain c && all_plain t

abbrev is_word : Text → Bool
is_word [] = false
is_word (c ∷ t) = all_plain (c ∷ t)

all_plain-All : (t : Text) → all_plain t ≡ true → All (λ c. is_plain c ≡ true) t
all_plain-All [] h = tt
all_plain-All (c ∷ t) h = (ground (arith, h), all_plain-All t (ground (arith, h)))

pub word-plain : (t : Text) → is_word t ≡ true → All (λ c. is_plain c ≡ true) t
word-plain [] h = tt
word-plain (c ∷ t) h = all_plain-All (c ∷ t) h

abbrev words : Identifiers
words = record { is_identifier = is_word; empty = refl; plain = word-plain }

abbrev pub library : Library
library = record { go = words; atoi = λ t. none; trim_space = λ t. t }

-- `(m/p.T).Close`
abbrev close : QualifiedName
close = record {
  path = b'm' ∷ b'/' ∷ b'p' ∷ [];
  receiver = b'T' ∷ [];
  name = b'C' ∷ b'l' ∷ b'o' ∷ b's' ∷ b'e' ∷ [];
  relative = false;
}

close-IsName : IsName words close
unfolding is_path is_plain is_import_path starts_with ends_with is_path_character
close-IsName = record { name = refl; receiver = refl; path = refl }

parse_name-spelled_example : parse_name words (spelled close) ≡ inr close
parse_name-spelled_example = parse_name-spelled words close close-IsName

-- `./p.Open`
abbrev opener : QualifiedName
opener = record {
  path = b'p' ∷ [];
  receiver = [];
  name = b'O' ∷ b'p' ∷ b'e' ∷ b'n' ∷ [];
  relative = true;
}

parse_name-opener :
    parse_name words (b'.' ∷ b'/' ∷ b'p' ∷ b'.' ∷ b'O' ∷ b'p' ∷ b'e' ∷ b'n' ∷ []) ≡ inr opener
unfolding parse_name is_plain starts_with ends_with is_path_character split
parse_name-opener = refl

abbrev unwritten : Slot
unwritten = record { kind = slot_none; index = 0 }

abbrev pub written_call : Text → Call
written_call name = record { name = name; slot = [] }

abbrev pub rule : Rule
rule = record {
  id = b'r' ∷ [];
  trigger = written_call (spelled opener);
  satisfiers = written_call (spelled close) ∷ [];
  open_on_error = false;
  deferred_closure = [];
  transfer = record { returned = none; stored = none; argument = none };
  require_defer = false;
  idempotent = false;
  defer_first = false;
  on_success = true;
  implementations = [];
}

abbrev config : Config
config = record { rules = rule ∷ []; failures = spelled opener ∷ [] }

abbrev protocol : Protocol
protocol = record {
  id = b'r' ∷ [];
  trigger = record { name = opener; slot = unwritten; called = false };
  satisfiers = record { name = close; slot = unwritten; called = false } ∷ [];
  open_on_error = false;
  coverage = any_path;
  escapes = record { returned = true; stored = true; passed = true };
  require_defer = false;
  idempotent = false;
  defer_first = false;
  on_success = true;
  failures = opener ∷ [];
  implementations = [];
}

config_compiles : compile library config ≡ inr (protocol ∷ [])
unfolding compile spelled is_plain ends_with is_path_character split has_byte
config_compiles = refl

compile_iff_example : (compile library config ≡ inr (protocol ∷ [])) ↔ (
    (failures : List QualifiedName) × (compile_failures library 0 (spelled opener ∷ [])
      ≡ inr failures)
    × AreCompiled library failures (rule ∷ []) (protocol ∷ [])
    × AreDistinct (ids library (rule ∷ [])))
compile_iff_example = compile_iff library config (protocol ∷ [])

compile-IsValid_example : All (IsValid library) (protocol ∷ [])
compile-IsValid_example = compile-IsValid library config config_compiles

-- Two rules with one id.
compile-duplicate :
    compile library (record { rules = rule ∷ rule ∷ []; failures = [] })
    ≡ inl (at_rule 1 (duplicate_id (b'r' ∷ [])))
unfolding compile spelled is_plain ends_with is_path_character split has_byte
compile-duplicate = refl

is_error-protocol_within_example :
    is_error (protocol_within protocol [])
    ≡ (is_empty [] && (relative protocol || contains_func (opener ∷ []) (λ name. name.relative)))
is_error-protocol_within_example = is_error-protocol_within protocol []

abbrev opener_in_m : QualifiedName
opener_in_m = record opener { path = b'm' ∷ b'/' ∷ b'p' ∷ []; relative = false }

abbrev protocol_in_m : Protocol
protocol_in_m = record protocol {
  trigger = record { name = opener_in_m; slot = unwritten; called = false };
  failures = opener_in_m ∷ [];
}

within_m : protocol_within protocol (b'm' ∷ []) ≡ inr protocol_in_m
unfolding protocol_within
within_m = refl

protocol_within-relative_example :
    (relative protocol_in_m ≡ false)
    × (contains_func (opener_in_m ∷ []) (λ name. name.relative) ≡ false)
protocol_within-relative_example =
    protocol_within-relative protocol (b'm' ∷ []) protocol_in_m within_m
