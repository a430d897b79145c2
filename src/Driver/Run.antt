-- ===== src/Driver/Run.antt =====
-- What the run of an analyzer under go vet prints (`run` of internal/driver/vet.go).
use Prim.Native.String.{String}
use precept.Base.{
  Bool, true, false, not, ◌&&◌, ◌||◌, List, [], ◌∷◌, map, All, Bool-cases, inl, inr, ◌≡◌, refl, sym,
  ◌∙◌, subst, ap, arith, if◌then◌else◌,
}
use precept.Base.Members.{All-map}
use precept.Driver.Findings.{Position, Finding, Syntax, Diagnostic, same, finding_at}
use precept.Driver.Exclusions.{Outside}
use precept.Driver.Filter.{Files, Filter, kept}
use precept.Driver.Vet.{
  FileSet, Printing, copy_of, printed_at, printed, findings, found_in, package_of, run,
}
use precept.Driver.Reported.{shown_of, kept-IsDecided}
use precept.Driver.Selected.{selected, printed_all, reported-printed_all, selected-shown}
use precept.Driver.Printed.{
  IsFileSet, Extends, Extends-refl, Extends-trans, IsKnown, IsPrinted, IsPrinted-later, IsBegun,
  IsPlacedAt, printed_at-IsDone, placed-either,
}

-- What unitchecker prints of a diagnostic.
abbrev pub shown_in : {S : Type 0} → FileSet S → S → Diagnostic → Position × Position × String
shown_in set files d = (set.position files d.pos, set.position files d.end_pos, d.message)

module _ {S : Type 0} (set : FileSet S) (laws : IsFileSet set) (s : S) where
  -- A diagnostic of the file set, with the finding that it is.
  abbrev IsFound : Diagnostic × Finding → Type 0
  IsFound f =
      IsKnown set laws s f.0.pos
      × IsKnown set laws s f.0.end_pos
      × IsPlacedAt set laws s f.0.pos f.1.position
      × IsPlacedAt set laws s f.0.end_pos f.1.ending
      × (f.0.message ≡ f.1.message)
      × (f.1.relative ≡ "")

  abbrev IsShown : S → Diagnostic → Finding → Type 0
  IsShown t d f =
      IsPrinted set laws t d.pos f.position
      × IsPrinted set laws t d.end_pos f.ending
      × (d.message ≡ f.message)

  printed-IsShown :
      (p : Printing set) (f : Diagnostic × Finding)
      → IsBegun set laws s p
      → IsFound f
      → IsBegun set laws s (printed set p f.0 f.1).0
        × Extends set laws p.files (printed set p f.0 f.1).0.files
        × IsShown (printed set p f.0 f.1).0.files (printed set p f.0 f.1).1 f.1
  unfolding printed
  printed-IsShown p f begun (known, known', at, at', message, bare) =
      let (begun1, later1, first) =
        printed_at-IsDone set laws s p f.0.pos f.1.position begun known at in
      let p1 = (printed_at set p f.0.pos f.1.position).0 in
      let (begun2, later2, last) =
        printed_at-IsDone set laws s p1 f.0.end_pos f.1.ending begun1 known' at' in
      (
        begun2,
        Extends-trans set laws later1 later2,
        (IsPrinted-later set laws _ later2 first, last, message),
      )

  IsShown-eq :
      {t u : S} (d : Diagnostic) (f : Finding)
      → Extends set laws t u
      → IsShown t d f
      → shown_in set u d ≡ shown_of f
  IsShown-eq d f e (first, last, message) =
      let position = (IsPrinted-later set laws d.pos e first).1 in
      let ending = (IsPrinted-later set laws d.end_pos e last).1 in cc

  printed_all-shown :
      (p : Printing set) (found : List (Diagnostic × Finding))
      → IsBegun set laws s p
      → All IsFound found
      → Extends set laws p.files (printed_all set p found).0.files
        × (map (shown_in set (printed_all set p found).0.files) (printed_all set p found).1
            ≡ map (λ (f : Diagnostic × Finding). shown_of f.1) found)
  printed_all-shown p [] begun hs = (Extends-refl set laws p.files, refl)
  printed_all-shown p (f ∷ found) begun (h, hs) =
      let (begun1, later1, now) = printed-IsShown p f begun h in
      let p1 = (printed set p f.0 f.1).0 in
      let (later2, rest) = printed_all-shown p1 found begun1 hs in
      let first = IsShown-eq (printed set p f.0 f.1).1 f.1 later2 now in
      (
        Extends-trans set laws later1 later2,
        ap
              (λ (x : Position × Position × String).
                x
                ∷ map (shown_in set (printed_all set p1 found).0.files)
                    (printed_all set p1 found).1)
              first
            ∙ ap (λ xs. shown_of f.1 ∷ xs) rest,
      )

  selected-All :
      (found : List (Diagnostic × Finding)) (left : List Finding)
      → All IsFound found
      → All IsFound (selected found left)
  unfolding selected
  selected-All [] left hs = tt
  selected-All (f ∷ found) [] hs = tt
  selected-All (f ∷ found) (next ∷ left) (h, hs) = elim (Bool-cases (same next f.1)) [
    | inl on ↦ rw (on, selected) (h, selected-All found left hs)
    | inr off ↦ rw (off, selected) (selected-All found (next ∷ left) hs)
  ]

  module _ (is_go is_test : String → Bool) where
    abbrev AreKnown : List Diagnostic → Type 0
    AreKnown diagnostics =
        All (λ d. IsKnown set laws s d.pos × IsKnown set laws s d.end_pos) diagnostics

    found_in-All :
        (tests : Bool) (syntax : List Syntax) (diagnostics : List Diagnostic)
        → AreKnown diagnostics
        → All IsFound (found_in is_go is_test tests (package_of set s syntax) diagnostics)
    unfolding found_in
    found_in-All tests syntax [] hs = tt
    found_in-All tests syntax (d ∷ diagnostics) (h, hs) =
        by_test
          ((not tests && is_test (set.compiled s d.pos).filename)
            || not (is_go (finding_at is_go (package_of set s syntax) d).position.filename))
          (found_in-All tests syntax diagnostics hs)
      where
        by_test :
            (b : Bool)
            → All IsFound (found_in is_go is_test tests (package_of set s syntax) diagnostics)
            → All IsFound (
                if b
                then found_in is_go is_test tests (package_of set s syntax) diagnostics
                else (d, finding_at is_go (package_of set s syntax) d)
                  ∷ found_in is_go is_test tests (package_of set s syntax) diagnostics)
        by_test true rest = rest
        by_test false rest = (
          (
            h.0,
            h.1,
            placed-either is_go (package_of set s syntax) d.pos,
            placed-either is_go (package_of set s syntax) d.end_pos,
            refl,
            refl,
          ),
          rest,
        )

    IsBegun-initial : IsBegun set laws s (record { files = s; copies = [] })
    unfolding copy_of
    IsBegun-initial = record {
      extends = Extends-refl set laws s;
      copied = λ file plain e. absurd (ground (arith, e));
    }

    -- What go vet prints of the diagnostics that a run reports is what is printed of the findings that the
    -- filter keeps of those found, in their order and as often, each at the positions where it was placed,
    -- where each position of a diagnostic is in a file of the file set or is none.
    pub run-shown :
        (outside : Outside) (disk : Files) (f : Filter) (tests : Bool) (syntax : List Syntax)
        (diagnostics : List Diagnostic)
        → All (λ d. IsKnown set laws s d.pos × IsKnown set laws s d.end_pos) diagnostics
        → map
            (shown_in set (run set is_go is_test outside disk f tests s syntax diagnostics).0)
            (run set is_go is_test outside disk f tests s syntax diagnostics).1
          ≡ map shown_of
              (kept outside disk f
                (findings (found_in is_go is_test tests (package_of set s syntax) diagnostics))).0
    unfolding run
    run-shown outside disk f tests syntax diagnostics hs =
        let found = found_in is_go is_test tests (package_of set s syntax) diagnostics in
        let left = (kept outside disk f (findings found)).0 in
        let all = found_in-All tests syntax diagnostics hs in
        subst
          (λ (r : Printing set × List Diagnostic).
            map (shown_in set r.0.files) r.1 ≡ map shown_of left)
          (sym (reported-printed_all set (record { files = s; copies = [] }) found left))
          ((printed_all-shown (record { files = s; copies = [] }) (selected found left)
              IsBegun-initial (selected-All found left all)).1
            ∙ sym (
                selected-shown found left (kept-IsDecided outside disk f (findings found))
                  (All-map IsFound (λ x. x.1.relative ≡ "") found (λ x h. h.5) all)))
