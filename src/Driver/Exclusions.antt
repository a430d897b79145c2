-- ===== src/Driver/Exclusions.antt =====
-- linters.exclusions of a golangci-lint configuration (internal/driver/exclusions.go): the paths and the
-- rules that drop findings. regexp and the lines of a file on disk are parameters; the code keeps the
-- lines it has read, which a run does not change.
use Prim.Native.String.{String}
use text.Mathlib.Text.{◌==◌ as str_eq}
use precept.Base.{
  ℕ, suc, ◌-◌, ◌+◌, max, Bool, true, false, not, ◌&&◌, ◌||◌, List, [], ◌∷◌, ◌++◌, Option, none,
  some, ltb, if◌then◌else◌, contains_func, get_elem?, set,
}
use precept.Driver.Findings.{Position, Finding}

-- A pattern that is not written is `none`.
pub record Exclusion : Type 0 where
  pub linters : List String
  pub path : Option String
  pub path_except : Option String
  pub text : Option String
  pub source : Option String

pub record Exclusions : Type 0 where
  pub paths : List String
  pub paths_except : List String
  pub rules : List Exclusion
  pub warn_unused : Bool

-- What is warned of: a line that cannot be read, a rule that dropped nothing, a path that is not
-- relative to the base, a file that cannot be parsed.
pub data Warning : Type 0 where
  no_line : String → ℕ → Warning
  unused_rule : Exclusion → Warning
  no_relative : String → Warning
  not_parsed : String → Warning

pub data RuleError : Type 0 where
  path_and_except too_few_conditions : RuleError

abbrev pub is_some : Option String → Bool
is_some none = false
is_some (some x) = true

abbrev pub nonempty : List String → Bool
nonempty [] = false
nonempty (x ∷ xs) = true

abbrev pub count : Bool → ℕ
count b = if b then 1 else 0

-- `validRule`: none where the rule is valid.
unfoldable pub valid_rule : Exclusion → Option RuleError
valid_rule rule =
    if is_some rule.path && is_some rule.path_except
    then some path_and_except
    else if ltb
        (count (nonempty rule.linters)
          + count (is_some rule.path || is_some rule.path_except)
          + count (is_some rule.text)
          + count (is_some rule.source))
        2
    then some too_few_conditions
    else none

-- The package regexp, and what is on disk: the lines of each file that can be read, and their ends cut off.
pub record Outside : Type 0 where
  pub match_string : String → String → Bool
  pub lines : String → Option (List String)
  pub trim_return : String → String

-- What `unmatched` keeps, what it warns of, and the rules it has used.
pub record Unmatched : Type 0 where
  pub kept : List Finding
  pub warned : List Warning
  pub used : List Bool

module _ (outside : Outside) where
  unfoldable pub excludes : Exclusions → String → Bool
  excludes e relative =
      let matches = λ (pattern : String). outside.match_string pattern relative in
      if contains_func e.paths matches
      then true
      else nonempty e.paths_except && not (contains_func e.paths_except matches)

  abbrev pub fails : Option String → String → Bool
  fails none text = false
  fails (some pattern) text = not (outside.match_string pattern text)

  abbrev pub excepts : Option String → String → Bool
  excepts none text = false
  excepts (some pattern) text = outside.match_string pattern text

  abbrev line_in : Option (List String) → ℕ → Option String
  line_in none number = none
  line_in (some lines) number = get_elem? lines (max number 1 - 1)

  unfoldable pub line : String → ℕ → Option String
  line path number = line_in (outside.lines path) number

  abbrev source_matches : String → Position → Option String → Bool × List Warning
  source_matches pattern position none = (false, no_line position.filename position.line ∷ [])
  source_matches pattern position (some text) =
      (outside.match_string pattern (outside.trim_return text), [])

  abbrev read_source : Option String → Position → Bool × List Warning
  read_source none position = (true, [])
  read_source (some pattern) position =
      source_matches pattern position (line position.filename position.line)

  -- Whether a rule matches a finding, and what it warns of.
  unfoldable pub matches : Exclusion → Finding → String → Bool × List Warning
  unfolding line
  matches e current linter =
      if fails e.text current.message
        || fails e.path current.relative
        || excepts e.path_except current.relative
        || (nonempty e.linters && not (contains_func e.linters (λ l. str_eq l linter)))
      then (false, [])
      else read_source e.source current.position

  -- The index of the first rule that matches, from an index, and the warnings of those tried.
  unfoldable pub first_match : List Exclusion → Finding → String → ℕ → Option ℕ × List Warning
  unfolding matches
  first_match [] current linter index = (none, [])
  first_match (rule ∷ rules) current linter index =
      let tried = matches rule current linter in
      let rest = first_match rules current linter (suc index) in
      if tried.0 then (some index, tried.1) else (rest.0, tried.1 ++ rest.1)

  abbrev pub matched_at : Finding → Option ℕ × List Warning → Unmatched → Unmatched
  matched_at current (none, warned) rest = record {
    kept = current ∷ rest.kept;
    warned = warned ++ rest.warned;
    used = rest.used;
  }
  matched_at current (some index, warned) rest = record {
    kept = rest.kept;
    warned = warned ++ rest.warned;
    used = set rest.used index true;
  }

  abbrev unset : List Exclusion → List Bool
  unset [] = []
  unset (rule ∷ rules) = false ∷ unset rules

  -- The loop of `unmatched` over the findings.
  unfoldable pub unmatched_findings : List Exclusion → List Finding → String → Unmatched
  unfolding first_match
  unmatched_findings rules [] linter = record { kept = []; warned = []; used = unset rules }
  unmatched_findings rules (current ∷ found) linter =
      matched_at current (first_match rules current linter 0)
        (unmatched_findings rules found linter)

  abbrev only_linter : List String → String → Bool
  only_linter (l ∷ []) linter = str_eq l linter
  only_linter _ linter = false

  abbrev pub unused_rules : Bool → List Exclusion → List Bool → String → List Warning
  unused_rules warn_unused [] used linter = []
  unused_rules warn_unused (rule ∷ rules) [] linter = []
  unused_rules warn_unused (rule ∷ rules) (u ∷ used) linter =
      let rest = unused_rules warn_unused rules used linter in
      if warn_unused && not u && only_linter rule.linters linter
      then unused_rule rule ∷ rest
      else rest

  unfoldable pub unmatched : Exclusions → List Finding → String → List Finding × List Warning
  unfolding unmatched_findings
  unmatched e found linter =
      let read = unmatched_findings e.rules found linter in
      (read.kept, read.warned ++ unused_rules e.warn_unused e.rules read.used linter)
