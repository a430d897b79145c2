-- ===== src/Driver/Reported.antt =====
-- The findings that the filter of internal/driver/report.go keeps, as the loop of internal/driver/vet.go
-- finds them again among those found.
use Prim.Native.String.{String}
use text.Mathlib.TextPositions.{eq_refl}
use text.Mathlib.TextEquality.{eq_iff}
use precept.Base.{
  Bool, true, List, [], ◌∷◌, Option, none, some, ◌⊎◌, keep, ==_refl, inl, inr, Bool-cases, ◌≡◌,
  refl, sym, ◌∙◌, ap, arith, if◌then◌else◌, some_inj, subst,
}
use precept.Driver.Findings.{Position, Finding, same, same_position}
use precept.Driver.Exclusions.{Outside, excludes, unmatched, Warning}
use precept.Driver.Filter.{
  Generated, strict, lax, disable, Files, Filter, generated_kept, located_at, located, or_all, kept,
}
use precept.Driver.Once.{
  not_generated, generated_kept-keep, not_silenced, unsilenced-keep, unruled, unmatched-keep,
}

-- What is printed of a finding.
abbrev pub shown_of : Finding → Position × Position × String
shown_of f = (f.position, f.ending, f.message)

pub same_position_refl : (p : Position) → same_position p p ≡ true
same_position_refl p =
    ground (arith, eq_refl p.filename, ==_refl p.offset, ==_refl p.line, ==_refl p.column)

pub same-shown : (f g : Finding) → shown_of f ≡ shown_of g → same f g ≡ true
unfolding same
same-shown f g e =
    subst
      (λ (s : Position × Position × String).
        same f (record { position = s.0; ending = s.1; message = s.2; relative = g.relative })
        ≡ true)
      e
      (ground
        (arith, same_position_refl f.position, same_position_refl f.ending, eq_refl f.message))

pub same_position-eq : (p q : Position) → same_position p q ≡ true → p ≡ q
same_position-eq p q h =
    let name = (eq_iff p.filename q.filename).0 (ground (arith, h)) in
    let offset : p.offset ≡ q.offset = ground (arith, h) in
    let line : p.line ≡ q.line = ground (arith, h) in
    let column : p.column ≡ q.column = ground (arith, h) in cc

pub same-eq : (f g : Finding) → same f g ≡ true → shown_of f ≡ shown_of g
unfolding same
same-eq f g h =
    let position = same_position-eq f.position g.position (ground (arith, h)) in
    let ending = same_position-eq f.ending g.ending (ground (arith, h)) in
    let message = (eq_iff f.message g.message).0 (ground (arith, h)) in cc

abbrev pub decided_as : Option Finding → List Finding → List Finding
decided_as none rest = rest
decided_as (some g) rest = g ∷ rest

-- What a finding is kept as, decided of each alone.
abbrev pub decided : (Finding → Option Finding) → List Finding → List Finding
decided decide [] = []
decided decide (current ∷ found) = decided_as (decide current) (decided decide found)

-- The findings kept are decided one by one, and each is one found at a path.
pub record IsDecided (found left : List Finding) : Type 0 where
  pub decide : Finding → Option Finding
  pub at_path : (c g : Finding) → decide c ≡ some g → g ≡ record c { relative = g.relative }
  pub all : left ≡ decided decide found

abbrev only : (Finding → Bool) → Option Finding → Option Finding
only p none = none
only p (some g) = if p g then some g else none

decided_as-keep :
    (p : Finding → Bool) (o : Option Finding) (rest : List Finding)
    → keep p (decided_as o rest) ≡ decided_as (only p o) (keep p rest)
decided_as-keep p none rest = refl
decided_as-keep p (some g) rest = elim (Bool-cases (p g)) [
  | inl on ↦ rw (on, keep) refl
  | inr off ↦ rw (off, keep) refl
]

decided-keep :
    (decide : Finding → Option Finding) (p : Finding → Bool) (found : List Finding)
    → keep p (decided decide found) ≡ decided (λ c. only p (decide c)) found
decided-keep decide p [] = refl
decided-keep decide p (c ∷ found) =
    decided_as-keep p (decide c) (decided decide found)
    ∙ ap (decided_as (only p (decide c))) (decided-keep decide p found)

only-some : (p : Finding → Bool) (o : Option Finding) (g : Finding) → only p o ≡ some g → o ≡ some g
only-some p none g h = h
only-some p (some f) g h = elim (Bool-cases (p f)) [
  | inl on ↦ rw on at h
  | inr off ↦ absurd (ground (arith, rw off at h))
]

IsDecided-keep :
    (p : Finding → Bool) {found left : List Finding}
    → IsDecided found left
    → IsDecided found (keep p left)
IsDecided-keep p {found} {left} d = record {
  decide = λ c. only p (d.decide c);
  at_path = λ c g e. d.at_path c g (only-some p (d.decide c) g e);
  all = ap (keep p) d.all ∙ decided-keep d.decide p found;
}

module _ (outside : Outside) (files : Files) where
  abbrev located_as : Filter → Finding → Option String → Option Finding
  located_as f c none = none
  located_as f c (some relative) =
      if excludes outside f.exclusions relative
      then none
      else some (record c { relative = relative })

  located_as-path :
      (f : Filter) (c : Finding) (o : Option String) (g : Finding)
      → located_as f c o ≡ some g
      → g ≡ record c { relative = g.relative }
  located_as-path f c none g h = cc
  located_as-path f c (some relative) g h =
      elim (Bool-cases (excludes outside f.exclusions relative)) [
        | inl on ↦ absurd (ground (arith, rw on at h))
        | inr off ↦
            subst (λ (x : Finding). x ≡ record c { relative = x.relative }) (some_inj (rw off at h))
              refl
      ]

  located_at-as :
      (f : Filter) (c : Finding) (o : Option String) (rest : List Finding × List Warning)
      → (located_at outside files f.exclusions c o rest).0 ≡ decided_as (located_as f c o) rest.0
  located_at-as f c none rest = refl
  located_at-as f c (some relative) rest =
      elim (Bool-cases (excludes outside f.exclusions relative)) [
        | inl on ↦ rw on refl
        | inr off ↦ rw off refl
      ]

  located-decided :
      (f : Filter) (found : List Finding)
      → (located outside files f found).0
        ≡ decided (λ c. located_as f c (files.rel f.base c.position.filename)) found
  unfolding located
  located-decided f [] = refl
  located-decided f (c ∷ found) =
      let o = files.rel f.base c.position.filename in
      located_at-as f c o (located outside files f found)
      ∙ ap (decided_as (located_as f c o)) (located-decided f found)

  IsDecided-generated :
      (mode : Generated) {found left : List Finding}
      → IsDecided found left
      → IsDecided found (or_all outside files (generated_kept files mode left) left)
  unfolding generated_kept
  IsDecided-generated mode {found} {left} d = by_mode mode
    where
      by_result :
          (mode : Generated) (o : String ⊎ List Finding)
          → ((k : List Finding) → o ≡ inr k → k ≡ keep (not_generated files mode) left)
          → IsDecided found (or_all outside files o left)
      by_result mode (inl path) h = d
      by_result mode (inr k) h =
          subst (IsDecided found) (sym (h k refl)) (IsDecided-keep (not_generated files mode) d)

      by_mode :
          (mode : Generated)
          → IsDecided found (or_all outside files (generated_kept files mode left) left)
      by_mode disable = d
      by_mode strict =
          by_result strict (generated_kept files strict left)
            (λ k. generated_kept-keep files strict left k (λ e. cc))
      by_mode lax =
          by_result lax (generated_kept files lax left)
            (λ k. generated_kept-keep files lax left k (λ e. cc))

  pub kept-IsDecided :
      (f : Filter) (found : List Finding) → IsDecided found (kept outside files f found).0
  unfolding kept
  kept-IsDecided f found =
      let near = (located outside files f found).0 in
      let written = or_all outside files (generated_kept files f.generated near) near in
      let left = (unmatched outside f.exclusions written f.linter).0 in
      let first : IsDecided found near = record {
        decide = λ c. located_as f c (files.rel f.base c.position.filename);
        at_path = λ c. located_as-path f c (files.rel f.base c.position.filename);
        all = located-decided f found;
      } in
      subst (IsDecided found) (sym (unsilenced-keep files left f.linter)) (
        IsDecided-keep (not_silenced files f.linter) (
          subst (IsDecided found) (sym (unmatched-keep outside f.exclusions written f.linter)) (
            IsDecided-keep (unruled outside f.exclusions.rules f.linter)
              (IsDecided-generated f.generated first))))
