-- ===== src/Driver/Samples.antt =====
-- Runs of the model of internal/driver, and the properties at them. File "a.go" is silenced on line 3,
-- file "b.go" is generated, and a pattern matches the text it is.
use Prim.Native.String.{String}
use text.Mathlib.Text.{◌==◌ as str_eq}
use precept.Base.{
  ℕ, Bool, true, ◌||◌, List, [], ◌∷◌, none, some, inl, inr, if◌then◌else◌, keep, Memᴰ, All, ◌≡◌,
  ◌≢◌, refl,
}
use precept.Driver.Findings.{
  Position, Finding, Package, Diagnostic, finding_at, seen_before, placed_findings,
}
use precept.Driver.Exclusions.{
  Exclusion, Exclusions, Outside, valid_rule, path_and_except, too_few_conditions, unmatched,
}
use precept.Driver.Filter.{strict, disable, Files, generated_kept, unsilenced, Filter, kept}
use precept.Driver.Values.{
  Texts, Entries, null, text_value, map_value, no_entries, entry_and, folded,
}
use precept.Driver.Settings.{
  settings_of, no_settings, rules_of, vet_tests, vet_build_tags, relative_to_config,
}
use precept.Driver.Read.{AreApart, folded-AreApart}
use precept.Driver.Rules.{IsValid, rules_of-AreValid}
use precept.Driver.Once.{
  not_generated, generated_kept-keep, not_silenced, unsilenced-keep, unruled, unmatched-keep,
}
use precept.Driver.Placed.{AreDistinct, placed_findings-AreDistinct, placed_findings-all}
use precept.Driver.Kept.{IsLocated, mem-kept}

abbrev at : String → ℕ → Position
at name line = record { filename = name; offset = 0; line = line; column = 1 }

abbrev finding : String → ℕ → Finding
finding name line = record {
  position = at name line;
  ending = at name line;
  message = "m";
  relative = "";
}

abbrev found : List Finding
found = finding "a.go" 3 ∷ finding "a.go" 4 ∷ finding "b.go" 3 ∷ []

abbrev files : Files
files = record {
  generated = λ mode path. some (str_eq path "b.go");
  silences =
      λ path. if str_eq path "a.go" then record { from = 3; to = 3; linters = [] } ∷ [] else [];
  rel = λ base path. some path;
}

abbrev outside : Outside
outside = record {
  match_string = λ e text. str_eq e text;
  lines = λ path. none;
  trim_return = λ text. text;
}

abbrev exclusion : Exclusion
exclusion = record {
  linters = "defcheck" ∷ [];
  path = none;
  path_except = none;
  text = some "other";
  source = none;
}

abbrev exclusions : Exclusions
exclusions = record { paths = []; paths_except = []; rules = exclusion ∷ []; warn_unused = true }

abbrev filter : Filter
filter = record { linter = "defcheck"; base = "/"; generated = strict; exclusions = exclusions }

valid_exclusion : valid_rule exclusion ≡ none
unfolding valid_rule
valid_exclusion = refl

invalid_exclusion :
    valid_rule (record exclusion { path = some "p"; path_except = some "q" }) ≡ some path_and_except
unfolding valid_rule
invalid_exclusion = refl

few_exclusion : valid_rule (record exclusion { linters = [] }) ≡ some too_few_conditions
unfolding valid_rule
few_exclusion = refl

kept_strict : generated_kept files strict found ≡ inr (finding "a.go" 3 ∷ finding "a.go" 4 ∷ [])
unfolding generated_kept
kept_strict = refl

kept_found :
    (kept outside files filter found).0 ≡ record (finding "a.go" 4) { relative = "a.go" } ∷ []
unfolding kept
kept_found = refl

strict_apart : strict ≢ disable
strict_apart e = cc

generated_kept-keep_example :
    finding "a.go" 3 ∷ finding "a.go" 4 ∷ [] ≡ keep (not_generated files strict) found
generated_kept-keep_example =
    generated_kept-keep files strict found (finding "a.go" 3 ∷ finding "a.go" 4 ∷ []) strict_apart
      kept_strict

unsilenced-keep_example :
    unsilenced files found "defcheck" ≡ keep (not_silenced files "defcheck") found
unsilenced-keep_example = unsilenced-keep files found "defcheck"

unmatched-keep_example :
    (unmatched outside exclusions found "defcheck").0
    ≡ keep (unruled outside (exclusion ∷ []) "defcheck") found
unmatched-keep_example = unmatched-keep outside exclusions found "defcheck"

abbrev located_finding : Finding
located_finding = record (finding "a.go" 4) { relative = "a.go" }

located_finding-kept : Memᴰ located_finding (kept outside files filter found).0
located_finding-kept = rw kept_found (Memᴰ.head refl)

mem-kept_example :
    IsLocated outside files filter found located_finding
    × (unruled outside (exclusion ∷ []) "defcheck" located_finding ≡ true)
    × (not_silenced files "defcheck" located_finding ≡ true)
mem-kept_example = mem-kept outside files filter found located_finding located_finding-kept

abbrev pkg_of : List Diagnostic → Package
pkg_of diagnostics = record {
  mapped = λ position. at "a.go" position;
  compiled = λ position. at "a.go" position;
  syntax = [];
  diagnostics = diagnostics;
}

abbrev diagnostic : Diagnostic
diagnostic = record { pos = 3; end_pos = 3; message = "m" }

abbrev is_go : String → Bool
is_go name = str_eq name "a.go" || str_eq name "b.go"

placed_once :
    placed_findings is_go (pkg_of (diagnostic ∷ diagnostic ∷ []) ∷ pkg_of (diagnostic ∷ []) ∷ []) []
    ≡ finding "a.go" 3 ∷ []
unfolding placed_findings
placed_once = refl

placed_findings-AreDistinct_example :
    AreDistinct is_go (placed_findings is_go (pkg_of (diagnostic ∷ diagnostic ∷ []) ∷ []) [])
placed_findings-AreDistinct_example =
    placed_findings-AreDistinct is_go (pkg_of (diagnostic ∷ diagnostic ∷ []) ∷ []) [] tt

diagnostic-is_go :
    is_go (finding_at is_go (pkg_of (diagnostic ∷ [])) diagnostic).position.filename ≡ true
unfolding finding_at
diagnostic-is_go = refl

placed_findings-all_example :
    seen_before is_go
      (placed_findings is_go (pkg_of (diagnostic ∷ []) ∷ []) [])
      (finding_at is_go (pkg_of (diagnostic ∷ [])) diagnostic)
    ≡ true
placed_findings-all_example =
    placed_findings-all is_go (pkg_of (diagnostic ∷ []) ∷ []) [] (Memᴰ.head refl) (Memᴰ.head refl)
      diagnostic-is_go

abbrev texts : Texts
texts = record {
  parse_bool = λ s. none;
  to_lower = λ s. if str_eq s "Text" then "text" else s;
  split_commas = λ s. s ∷ [];
}

-- A rule of a linter and a text, its keys in any case.
abbrev written_rule : Entries
written_rule =
    entry_and "Text" (text_value "other") (entry_and "linters" (text_value "defcheck") no_entries)

folded-written_rule :
    folded texts written_rule
    ≡ inr (
        entry_and "text"
          (text_value "other")
          (entry_and "linters" (text_value "defcheck") no_entries))
unfolding folded
folded-written_rule = refl

folded_twice :
    folded texts (entry_and "Text" null (entry_and "text" null no_entries)) ≡ inl ("Text", "text")
unfolding folded
folded_twice = refl

folded-AreApart_example :
    ◌≡◌ {A = List String} ("text" ∷ "linters" ∷ []) ("text" ∷ "linters" ∷ [])
    × AreApart texts ("text" ∷ "linters" ∷ [])
folded-AreApart_example =
    folded-AreApart texts written_rule
      (entry_and "text" (text_value "other")
        (entry_and "linters" (text_value "defcheck") no_entries))
      folded-written_rule

rules_of-written_rule : rules_of texts (λ e. true) (map_value written_rule) ≡ inr (exclusion ∷ [])
unfolding rules_of
rules_of-written_rule = refl

rules_of-AreValid_example : All (IsValid texts (λ e. true)) (exclusion ∷ [])
rules_of-AreValid_example =
    rules_of-AreValid texts (λ e. true) (map_value written_rule) (exclusion ∷ [])
      rules_of-written_rule

tests_refused :
    vet_tests texts
      (λ e. true)
      (entry_and "build-tags" (text_value "e2e") no_entries)
      relative_to_config
    ≡ inl vet_build_tags
unfolding vet_tests
tests_refused = refl

settings-native :
    settings_of
      (entry_and "linters"
        (map_value
          (entry_and "settings" (map_value (entry_and "defcheck" null no_entries)) no_entries))
        no_entries)
      "paircheck"
    ≡ inl no_settings
unfolding settings_of
settings-native = refl
