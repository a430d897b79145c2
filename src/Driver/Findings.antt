-- ===== src/Driver/Findings.antt =====
-- Findings and where they are placed: internal/driver/report.go. The positions a token.FileSet gives,
-- with and without line directives, and filepath.Ext are parameters.
use Prim.Native.String.{String}
use text.Mathlib.Text.{◌==◌ as str_eq}
use precept.Base.{ℕ, Bool, true, false, not, ◌&&◌, ◌||◌, List, [], ◌∷◌, ◌==◌, leb, if◌then◌else◌}

-- token.Position
pub record Position : Type 0 where
  pub filename : String
  pub offset : ℕ
  pub line : ℕ
  pub column : ℕ

pub record Finding : Type 0 where
  pub position : Position
  pub ending : Position
  pub message : String
  pub relative : String

abbrev pub same_position : Position → Position → Bool
same_position p q =
    str_eq p.filename q.filename && p.offset == q.offset && p.line == q.line && p.column == q.column

unfoldable pub same : Finding → Finding → Bool
same f g =
    same_position f.position g.position
    && same_position f.ending g.ending
    && str_eq f.message g.message

-- Equality of findings, the keys of `seen`.
unfoldable pub equal : Finding → Finding → Bool
unfolding same
equal f g = same f g && str_eq f.relative g.relative

-- A file of a package's syntax: the positions it takes and that of its pkg clause.
pub record Syntax : Type 0 where
  pub file_start : ℕ
  pub file_end : ℕ
  pub clause : ℕ

pub record Diagnostic : Type 0 where
  pub pos : ℕ
  pub end_pos : ℕ
  pub message : String

-- A package analyzed: `mapped` and `compiled` are PositionFor with and without line directives.
pub record Package : Type 0 where
  pub mapped : ℕ → Position
  pub compiled : ℕ → Position
  pub syntax : List Syntax
  pub diagnostics : List Diagnostic

module _ (is_go : String → Bool) where
  unfoldable pub clause_mapped_to : (ℕ → Position) → List Syntax → ℕ → String → Bool
  clause_mapped_to mapped [] position name = false
  clause_mapped_to mapped (file ∷ syntax) position name =
      let rest = clause_mapped_to mapped syntax position name in
      if leb file.file_start position && leb position file.file_end
      then str_eq (mapped file.clause).filename name
      else rest

  unfoldable pub placed : Package → ℕ → Position
  unfolding clause_mapped_to
  placed pkg position =
      let mapped = pkg.mapped position in
      let compiled = pkg.compiled position in
      if not (is_go mapped.filename)
      then compiled
      else if not (str_eq mapped.filename compiled.filename)
          && is_go compiled.filename
          && clause_mapped_to pkg.mapped pkg.syntax position mapped.filename
      then compiled
      else mapped

  unfoldable pub finding_at : Package → Diagnostic → Finding
  unfolding placed
  finding_at pkg diagnostic = record {
    position = placed pkg diagnostic.pos;
    ending = placed pkg diagnostic.end_pos;
    message = diagnostic.message;
    relative = "";
  }

  abbrev pub seen_before : List Finding → Finding → Bool
  seen_before [] current = false
  seen_before (f ∷ seen) current = equal f current || seen_before seen current

  -- The two loops of `placedFindings`, with what they have found, newest first, which is also what they
  -- have seen.
  unfoldable pub placed_in : Package → List Diagnostic → List Finding → List Finding
  unfolding finding_at equal
  placed_in pkg [] found = found
  placed_in pkg (diagnostic ∷ rest) found =
      let current = finding_at pkg diagnostic in
      elim (not (is_go current.position.filename) || seen_before found current) [
        | true ↦ placed_in pkg rest found
        | false ↦ placed_in pkg rest (current ∷ found)
      ]

  unfoldable pub placed_findings : List Package → List Finding → List Finding
  unfolding placed_in
  placed_findings [] found = found
  placed_findings (root ∷ roots) found =
      placed_findings roots (placed_in root root.diagnostics found)
