-- ===== src/Driver/Filter.antt =====
-- The files that are generated (internal/driver/generated.go), the //nolint directives
-- (internal/driver/nolint.go), and the filter they are part of (internal/driver/report.go). What go/parser
-- finds in a file, whether it is generated and where its directives are, is a parameter; each of the two
-- keeps what it has read of a file.
use Prim.Native.String.{String}
use text.Mathlib.Text.{◌==◌ as str_eq}
use precept.Base.{
  ℕ, Bool, true, false, ◌&&◌, ◌||◌, List, [], ◌∷◌, ◌++◌, Option, none, some, ◌⊎◌, inl, inr, leb,
  if◌then◌else◌, contains_func, reverse,
}
use precept.Driver.Findings.{Finding, Package, placed_findings}
use precept.Driver.Exclusions.{
  Exclusions, Outside, Warning, no_relative, not_parsed, excludes, unmatched,
}

pub data Generated : Type 0 where
  strict lax disable : Generated

-- The lines a directive silences, of the linters it names, or of every one when it names none.
pub record Silence : Type 0 where
  pub from : ℕ
  pub to : ℕ
  pub linters : List String

-- A map from paths, the newest entry first.
unfoldable pub known_of {ℓ} : {A : Type ℓ} → List (String × A) → String → Option A
known_of [] path = none
known_of ((key, value) ∷ known) path = if str_eq key path then some value else known_of known path

unfoldable pub covers : Silence → ℕ → String → Bool
covers s line linter =
    leb s.from line
    && leb line s.to
    && (contains_func s.linters (λ l. str_eq l linter)
        || (elim s.linters [ [] ↦ true | l ∷ ls ↦ false ]))

-- Of each file: whether it is generated in a mode, none where it cannot be parsed, and its silences.
pub record Files : Type 0 where
  pub generated : Generated → String → Option Bool
  pub silences : String → List Silence
  pub rel : String → String → Option String

module _ (files : Files) where
  -- The path of the file that cannot be parsed, or the findings kept.
  abbrev pub consed : Bool → Finding → String ⊎ List Finding → String ⊎ List Finding
  consed drop current (inl path) = inl path
  consed drop current (inr kept) = inr (if drop then kept else current ∷ kept)

  -- The loop of `kept` of a mode, with the files it has read.
  unfoldable pub kept_from : Generated → List (String × Bool) → List Finding → String ⊎ List Finding
  unfolding known_of
  kept_from g known [] = inr []
  kept_from g known (current ∷ found) = elim (known_of known current.position.filename) [
    | some drop ↦ consed drop current (kept_from g known found)
    | none ↦ elim (files.generated g current.position.filename) [
      | none ↦ inl current.position.filename
      | some drop ↦
          consed drop current (kept_from g ((current.position.filename, drop) ∷ known) found)
    ]
  ]

  unfoldable pub generated_kept : Generated → List Finding → String ⊎ List Finding
  unfolding kept_from
  generated_kept disable found = inr found
  generated_kept g found = kept_from g [] found

  abbrev pub silenced_by : List Silence → Finding → String → Bool
  silenced_by silences current linter =
      contains_func silences (λ s. covers s current.position.line linter)

  abbrev pub unless : Bool → Finding → List Finding → List Finding
  unless drop current kept = if drop then kept else current ∷ kept

  -- The loop of `unsilenced`, with the silences it has read.
  unfoldable pub unsilenced_from :
      List (String × List Silence) → List Finding → String → List Finding
  unfolding known_of covers
  unsilenced_from known [] linter = []
  unsilenced_from known (current ∷ found) linter = elim (known_of known current.position.filename) [
    | some silences ↦
        unless (silenced_by silences current linter) current (unsilenced_from known found linter)
    | none ↦
        let silences = files.silences current.position.filename in
        unless (silenced_by silences current linter) current
          (unsilenced_from ((current.position.filename, silences) ∷ known) found linter)
  ]

  unfoldable pub unsilenced : List Finding → String → List Finding
  unfolding unsilenced_from
  unsilenced found linter = unsilenced_from [] found linter

pub record Filter : Type 0 where
  pub linter : String
  pub base : String
  pub generated : Generated
  pub exclusions : Exclusions

module _ (outside : Outside) (files : Files) where
  abbrev pub located_at :
      Exclusions
      → Finding
      → Option String
      → List Finding × List Warning
      → List Finding × List Warning
  located_at e current none (located, warned) =
      (located, no_relative current.position.filename ∷ warned)
  located_at e current (some relative) (located, warned) = (
    if excludes outside e relative
        then located
        else record current { relative = relative } ∷ located,
    warned,
  )

  -- The first loop of `kept`.
  unfoldable pub located : Filter → List Finding → List Finding × List Warning
  unfolding excludes
  located f [] = ([], [])
  located f (current ∷ found) =
      located_at f.exclusions current (files.rel f.base current.position.filename) (located f found)

  abbrev pub or_all : String ⊎ List Finding → List Finding → List Finding
  or_all (inl path) found = found
  or_all (inr kept) found = kept

  abbrev unread : String ⊎ List Finding → List Warning
  unread (inl path) = not_parsed path ∷ []
  unread (inr kept) = []

  -- The findings the filter keeps, and what it warns of.
  unfoldable pub kept : Filter → List Finding → List Finding × List Warning
  unfolding located generated_kept unmatched unsilenced
  kept f found =
      let (near, warned) = located f found in
      let written = generated_kept files f.generated near in
      let (left, warned') = unmatched outside f.exclusions (or_all written near) f.linter in
      (unsilenced files left f.linter, warned ++ unread written ++ warned')

  -- The findings of the roots of a graph that the filter keeps, and what it warns of.
  unfoldable pub report : (String → Bool) → Filter → List Package → List Finding × List Warning
  unfolding kept
  report is_go f roots = kept f (reverse (placed_findings is_go roots []))
