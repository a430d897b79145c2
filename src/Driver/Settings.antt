-- ===== src/Driver/Settings.antt =====
-- What a golangci-lint configuration says of the findings it drops: the reading of linters.exclusions
-- (internal/driver/exclusions.go and generated.go) and of the run section under go vet (vet.go). Which
-- expressions regexp compiles is a parameter.
use Prim.Native.String.{String}
use text.Mathlib.Text.{◌==◌ as str_eq}
use precept.Base.{
  ℕ, suc, Bool, true, false, not, List, [], ◌∷◌, Option, none, some, ◌⊎◌, inl, inr, if◌then◌else◌,
  contains_func,
}
use precept.Driver.Values.{
  Value, null, map_value, list_value, Values, no_values, value_and, Entries, no_entries, entry_and,
  Texts, at_key, section_of, read_text, list_of, tags_of, warn_unused_of, tests_of, folded,
}
use precept.Driver.Exclusions.{Exclusion, Exclusions, RuleError, valid_rule}
use precept.Driver.Filter.{Generated, strict, lax, disable}

-- Why a configuration is refused, with the key or the text its message names.
pub data SettingError : Type 0 where
  not_list not_text not_map : String → SettingError
  bad_pattern : String → SettingError
  bad_preset : String → SettingError
  bad_warn_unused bad_generated bad_tests bad_tags bad_relative : SettingError
  case_keys : String × String → SettingError
  bad_rule : RuleError → SettingError
  in_rule : ℕ → SettingError → SettingError
  vet_build_tags vet_directory : SettingError
  both_settings no_settings : SettingError

pub data RelativeTo : Type 0 where
  relative_to_module relative_to_repository relative_to_config relative_to_directory : RelativeTo

abbrev presets : List String
presets = "comments" ∷ "std-error-handling" ∷ "common-false-positives" ∷ "legacy" ∷ []

abbrev relative_named : Option String → Bool → SettingError ⊎ RelativeTo
relative_named none true = inr relative_to_config
relative_named none false = inl bad_relative
relative_named (some mode) empty =
    if str_eq mode ""
    then inr relative_to_config
    else if str_eq mode "gomod"
    then inr relative_to_module
    else if str_eq mode "gitroot"
    then inr relative_to_repository
    else if str_eq mode "cfg"
    then inr relative_to_config
    else if str_eq mode "wd"
    then inr relative_to_directory
    else inl bad_relative

abbrev is_null : Value → Bool
is_null null = true
is_null _ = false

unfoldable pub relative_of : Value → SettingError ⊎ RelativeTo
unfolding read_text
relative_of value = relative_named (read_text value) (is_null value)

abbrev generated_named : Option String → SettingError ⊎ Generated
generated_named none = inl bad_generated
generated_named (some mode) =
    if str_eq mode ""
    then inr strict
    else if str_eq mode "strict"
    then inr strict
    else if str_eq mode "disable"
    then inr disable
    else inr lax

abbrev generated_value : Value → SettingError ⊎ Generated
generated_value null = inr strict
generated_value (map_value no_entries) = inr strict
generated_value value = generated_named (read_text value)

-- linters.exclusions of a configuration
abbrev pub exclusions_section : Entries → Entries
exclusions_section golangci =
    section_of (at_key (section_of (at_key golangci "linters")) "exclusions")

unfoldable pub generated_of : Entries → SettingError ⊎ Generated
unfolding at_key read_text
generated_of golangci = generated_value (at_key (exclusions_section golangci) "generated")

-- A lookup in a map that tells a key left out from one left empty.
unfoldable pub find_key : Entries → String → Option Value
find_key no_entries key = none
find_key (entry_and k value entries) key = if str_eq k key then some value else find_key entries key

abbrev native_or_plugin :
    Entries → Option Value → Option Value → SettingError ⊎ (Value × Option Entries)
native_or_plugin document (some native) (some plugin) = inl both_settings
native_or_plugin document (some native) none = inr (native, some document)
native_or_plugin document none (some plugin) = inr (plugin, some document)
native_or_plugin document none none = inl no_settings

abbrev linter_settings : Entries → String → Value → SettingError ⊎ (Value × Option Entries)
linter_settings document linter (map_value linters) =
    let settings = section_of (at_key linters "settings") in
    let plugin = section_of (at_key (section_of (at_key settings "custom")) linter) in
    native_or_plugin document (find_key settings linter) (find_key plugin "settings")
linter_settings document linter _ = inr (map_value document, none)

-- The settings of a linter, and the golangci-lint configuration they are in, if they are in one.
unfoldable pub settings_of : Entries → String → SettingError ⊎ (Value × Option Entries)
unfolding at_key find_key
settings_of document linter = linter_settings document linter (at_key document "linters")

module _ (texts : Texts) (compiles : String → Bool) where
  abbrev pub known_presets : List String → Option SettingError
  known_presets [] = none
  known_presets (preset ∷ written) =
      let rest = known_presets written in
      if contains_func presets (λ p. str_eq p preset) then rest else some (bad_preset preset)

  abbrev presets_in : Option (List String) → Option SettingError
  presets_in none = some (not_list "presets")
  presets_in (some written) = known_presets written

  unfoldable pub check_presets : Value → Option SettingError
  unfolding list_of
  check_presets value = presets_in (list_of texts value)

  abbrev pub patterns_in : String → Option (List String) → SettingError ⊎ List String
  patterns_in key none = inl (not_list key)
  patterns_in key (some written) =
      if contains_func written (λ e. not (compiles e)) then inl (bad_pattern key) else inr written

  unfoldable pub patterns_of : String → Value → SettingError ⊎ List String
  unfolding list_of
  patterns_of key value = patterns_in key (list_of texts value)

  -- A text of a rule: nil is the empty text, which writes no pattern.
  abbrev pub text_of : Value → String → SettingError ⊎ String
  text_of null key = inr ""
  text_of value key = elim (read_text value) [ none ↦ inl (not_text key) | some s ↦ inr s ]

  abbrev pub pattern_of : String → String → SettingError ⊎ Option String
  pattern_of s key =
      if str_eq s "" then inr none else if compiles s then inr (some s) else inl (bad_pattern key)

  abbrev pub and_then {ℓ κ} :
      {A : Type ℓ} {B : Type κ} → SettingError ⊎ A → (A → SettingError ⊎ B) → SettingError ⊎ B
  and_then (inl wrong) next = inl wrong
  and_then (inr value) next = next value

  abbrev pub validated : Exclusion → SettingError ⊎ Exclusion
  validated rule = elim (valid_rule rule) [ none ↦ inr rule | some wrong ↦ inl (bad_rule wrong) ]

  -- The patterns of a rule, read when every text of it was.
  abbrev pub rule_patterns :
      List String → String → String → String → String → SettingError ⊎ Exclusion
  rule_patterns linters path except about source = and_then (pattern_of path "path") (λ path'.
      and_then (pattern_of except "path-except") (λ except'.
        and_then (pattern_of about "text") (λ about'.
          and_then (pattern_of source "source") (λ source'. validated (record {
            linters = linters;
            path = path';
            path_except = except';
            text = about';
            source = source';
          })))))

  abbrev pub rule_texts : Entries → List String → SettingError ⊎ Exclusion
  rule_texts written linters = and_then (text_of (at_key written "path") "path") (λ path.
      and_then (text_of (at_key written "path-except") "path-except") (λ except.
        and_then (text_of (at_key written "text") "text") (λ about.
          and_then (text_of (at_key written "source") "source")
            (λ source. rule_patterns linters path except about source))))

  abbrev pub rule_linters : Entries → Option (List String) → SettingError ⊎ Exclusion
  rule_linters written none = inl (not_list "linters")
  rule_linters written (some linters) = rule_texts written linters

  abbrev pub rule_folded : (String × String) ⊎ Entries → SettingError ⊎ Exclusion
  rule_folded (inl keys) = inl (case_keys keys)
  rule_folded (inr written) = rule_linters written (list_of texts (at_key written "linters"))

  unfoldable pub rule_of : Value → SettingError ⊎ Exclusion
  unfolding folded list_of at_key read_text valid_rule
  rule_of (map_value written) = rule_folded (folded texts written)
  rule_of _ = inl (not_map "rules")

  abbrev pub in_order :
      ℕ → SettingError ⊎ Exclusion → SettingError ⊎ List Exclusion → SettingError ⊎ List Exclusion
  in_order index (inl wrong) rest = inl (in_rule index wrong)
  in_order index (inr rule) (inl wrong) = inl wrong
  in_order index (inr rule) (inr rules) = inr (rule ∷ rules)

  unfoldable pub rules_from : ℕ → Values → SettingError ⊎ List Exclusion
  unfolding rule_of
  rules_from index no_values = inr []
  rules_from index (value_and element values) =
      in_order index (rule_of element) (rules_from (suc index) values)

  -- The elements of the list that a value is read as.
  abbrev pub elements : Value → Values
  elements null = no_values
  elements (list_value values) = values
  elements (map_value no_entries) = no_values
  elements value = value_and value no_values

  unfoldable pub rules_of : Value → SettingError ⊎ List Exclusion
  unfolding rules_from
  rules_of value = rules_from 0 (elements value)

  abbrev unless_wrong : Option SettingError → SettingError ⊎ Exclusions → SettingError ⊎ Exclusions
  unless_wrong none result = result
  unless_wrong (some wrong) result = inl wrong

  abbrev warned_unused : Option Bool → SettingError ⊎ Bool
  warned_unused none = inl bad_warn_unused
  warned_unused (some warn) = inr warn

  unfoldable pub exclusions_of : Entries → SettingError ⊎ Exclusions
  unfolding at_key warn_unused_of check_presets patterns_of rules_of
  exclusions_of golangci =
      let section = exclusions_section golangci in
      and_then (warned_unused (warn_unused_of texts (at_key section "warn-unused"))) (λ warn.
        unless_wrong (check_presets (at_key section "presets")) (
          and_then (patterns_of "paths" (at_key section "paths")) (λ paths.
            and_then (patterns_of "paths-except" (at_key section "paths-except")) (λ excepts.
              and_then (rules_of (at_key section "rules")) (λ rules. inr (record {
                paths = paths;
                paths_except = excepts;
                rules = rules;
                warn_unused = warn;
              }))))))

  abbrev no_tags : Bool → RelativeTo → Option (List String) → SettingError ⊎ Bool
  no_tags tests relative none = inl bad_tags
  no_tags tests relative (some (tag ∷ tags)) = inl vet_build_tags
  no_tags tests relative_to_directory (some []) = inl vet_directory
  no_tags tests relative (some []) = inr tests

  abbrev tests_and : Option Bool → RelativeTo → Value → SettingError ⊎ Bool
  tests_and none relative tags = inl bad_tests
  tests_and (some tests) relative tags = no_tags tests relative (tags_of tags)

  unfoldable pub vet_tests : Entries → RelativeTo → SettingError ⊎ Bool
  unfolding at_key tests_of tags_of
  vet_tests section relative =
      tests_and (tests_of texts (at_key section "tests")) relative (at_key section "build-tags")
