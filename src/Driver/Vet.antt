-- ===== src/Driver/Vet.antt =====
-- The run of an analyzer under go vet (internal/driver/vet.go): `run`, its two loops, and `printedAt`. The
-- diagnostics that the analyzer reports are a parameter. So is the token.FileSet, with its files known by
-- numbers; what adding a file to it leaves is a new state of it. The test of a name's end is one too.
use Prim.Native.String.{String}
use precept.Base.{
  ℕ, Bool, true, false, not, ◌&&◌, ◌||◌, ◌==◌, List, [], ◌∷◌, Option, none, some, if◌then◌else◌,
}
use precept.Driver.Findings.{
  Position, Finding, Syntax, Diagnostic, Package, same_position, same, finding_at,
}
use precept.Driver.Exclusions.{Outside, Warning}
use precept.Driver.Filter.{Files, Filter, kept}

-- token.FileSet in a state: `position` and `compiled` are PositionFor with and without line directives,
-- `file` is File where `has_file` says that it finds one, and `add_plain` is AddFile of a file's name and
-- size and SetLines of its lines. Offset and Pos are those of a file.
pub record FileSet (S : Type 0) : Type 0 where
  pub position : S → ℕ → Position
  pub compiled : S → ℕ → Position
  pub has_file : S → ℕ → Bool
  pub file : S → ℕ → ℕ
  pub add_plain : S → ℕ → S × ℕ
  pub offset : ℕ → ℕ → ℕ
  pub pos : ℕ → ℕ → ℕ

abbrev pub findings : List (Diagnostic × Finding) → List Finding
findings [] = []
findings ((diagnostic, current) ∷ found) = current ∷ findings found

module _ (is_go is_test : String → Bool) where
  -- The loop over the diagnostics: each that is not passed over, with its finding.
  unfoldable pub found_in : Bool → Package → List Diagnostic → List (Diagnostic × Finding)
  unfolding finding_at
  found_in tests pkg [] = []
  found_in tests pkg (diagnostic ∷ diagnostics) =
      let rest = found_in tests pkg diagnostics in
      let current = finding_at is_go pkg diagnostic in
      if (not tests && is_test (pkg.compiled diagnostic.pos).filename)
        || not (is_go current.position.filename)
      then rest
      else (diagnostic, current) ∷ rest

module _ {S : Type 0} (set : FileSet S) where
  -- The file set, and `copies`, the newest first.
  pub record Printing : Type 0 where
    pub files : S
    pub copies : List (ℕ × ℕ)

  unfoldable pub copy_of : List (ℕ × ℕ) → ℕ → Option ℕ
  copy_of [] file = none
  copy_of ((key, plain) ∷ copies) file = if key == file then some plain else copy_of copies file

  abbrev pub in_copy : Printing → ℕ → ℕ → Option ℕ → Printing × ℕ
  in_copy p file position (some plain) = (p, set.pos plain (set.offset file position))
  in_copy p file position none =
      let (files, plain) = set.add_plain p.files file in
      (
        record { files = files; copies = (file, plain) ∷ p.copies },
        set.pos plain (set.offset file position),
      )

  unfoldable pub printed_at : Printing → ℕ → Position → Printing × ℕ
  unfolding copy_of
  printed_at p position wanted =
      if position == 0 || same_position (set.position p.files position) wanted
      then (p, position)
      else let file = set.file p.files position in in_copy p file position (copy_of p.copies file)

  unfoldable pub printed : Printing → Diagnostic → Finding → Printing × Diagnostic
  unfolding printed_at
  printed p diagnostic current =
      let (p1, first) = printed_at p diagnostic.pos current.position in
      let (p2, last) = printed_at p1 diagnostic.end_pos current.ending in
      (p2, record { pos = first; end_pos = last; message = diagnostic.message })

  -- The loop over what was found, with what is left of the findings kept.
  unfoldable pub reported :
      Printing → List (Diagnostic × Finding) → List Finding → Printing × List Diagnostic
  unfolding same printed
  reported p [] kept = (p, [])
  reported p ((diagnostic, current) ∷ found) [] = (p, [])
  reported p ((diagnostic, current) ∷ found) (next ∷ kept) = elim (same next current) [
    | false ↦ reported p found (next ∷ kept)
    | true ↦
        let (p1, now) = printed p diagnostic current in
        let (p2, rest) = reported p1 found kept in (p2, now ∷ rest)
  ]

  abbrev pub package_of : S → List Syntax → Package
  package_of files syntax = record {
    mapped = set.position files;
    compiled = set.compiled files;
    syntax = syntax;
    diagnostics = [];
  }

  module _ (is_go is_test : String → Bool) where
    -- `run`: the file set it leaves, the diagnostics it reports and what it warns of.
    unfoldable pub run :
        Outside
        → Files
        → Filter
        → Bool
        → S
        → List Syntax
        → List Diagnostic
        → S × List Diagnostic × List Warning
    unfolding found_in kept reported
    run outside disk filter tests files syntax diagnostics =
        let found = found_in is_go is_test tests (package_of files syntax) diagnostics in
        let (left, warned) = kept outside disk filter (findings found) in
        let (printing, shown) = reported (record { files = files; copies = [] }) found left in
        (printing.files, shown, warned)
