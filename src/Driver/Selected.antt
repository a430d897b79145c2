-- ===== src/Driver/Selected.antt =====
-- The loop of `run` of internal/driver/vet.go as the diagnostics it selects, each then printed, and those it
-- selects where the findings kept are decided one by one.
use Prim.Native.String.{String}
use precept.Base.{
  true, false, List, [], ◌∷◌, Option, none, some, map, All, inl, inr, Bool-cases, ◌≡◌, refl, sym,
  ◌∙◌, ap, arith,
}
use precept.Driver.Findings.{Position, Finding, Diagnostic, same}
use precept.Driver.Vet.{FileSet, Printing, printed, reported, findings}
use precept.Driver.Reported.{shown_of, same-shown, same-eq, decided_as, decided, IsDecided}

unfoldable pub selected : List (Diagnostic × Finding) → List Finding → List (Diagnostic × Finding)
unfolding same
selected [] kept = []
selected ((diagnostic, current) ∷ found) [] = []
selected ((diagnostic, current) ∷ found) (next ∷ kept) = elim (same next current) [
  | false ↦ selected found (next ∷ kept)
  | true ↦ (diagnostic, current) ∷ selected found kept
]

module _ {S : Type 0} (set : FileSet S) where
  abbrev pub printed_all :
      Printing set → List (Diagnostic × Finding) → Printing set × List Diagnostic
  printed_all p [] = (p, [])
  printed_all p ((diagnostic, current) ∷ found) =
      let (p1, now) = printed set p diagnostic current in
      let (p2, rest) = printed_all p1 found in (p2, now ∷ rest)

  pub reported-printed_all :
      (p : Printing set) (found : List (Diagnostic × Finding)) (kept : List Finding)
      → reported set p found kept ≡ printed_all p (selected found kept)
  unfolding reported selected
  reported-printed_all p [] kept = refl
  reported-printed_all p ((diagnostic, current) ∷ found) [] = refl
  reported-printed_all p ((diagnostic, current) ∷ found) (next ∷ kept) =
      elim (Bool-cases (same next current)) [
        | inl on ↦
            rw (on, reported, selected)
              (ap
                (λ (r : Printing set × List Diagnostic).
                  (r.0, (printed set p diagnostic current).1 ∷ r.1))
                (reported-printed_all (printed set p diagnostic current).0 found kept))
        | inr off ↦ rw (off, reported, selected) (reported-printed_all p found (next ∷ kept))
      ]

selected-nil : (found : List (Diagnostic × Finding)) → selected found [] ≡ []
unfolding selected
selected-nil [] = refl
selected-nil (current ∷ found) = refl

-- A finding that is none of those kept is passed over.
selected-skip :
    (current : Diagnostic × Finding) (found : List (Diagnostic × Finding)) (kept : List Finding)
    → All (λ f. same f current.1 ≡ false) kept
    → selected (current ∷ found) kept ≡ selected found kept
unfolding selected
selected-skip current found [] h = sym (selected-nil found)
selected-skip current found (next ∷ kept) h = rw (h.0, selected) refl

bare-eq : (f g : Finding) → f.relative ≡ "" → g.relative ≡ "" → shown_of f ≡ shown_of g → f ≡ g
bare-eq f g bare bare' h =
    let position = ap (λ (s : Position × Position × String). s.0) h in
    let ending = ap (λ (s : Position × Position × String). s.1) h in
    let message = ap (λ (s : Position × Position × String). s.2) h in
    let relative = bare ∙ sym bare' in cc

module _ (decide : Finding → Option Finding)
    (at_path : (c g : Finding) → decide c ≡ some g → g ≡ record c { relative = g.relative }) where
  All-decided_as :
      (P : Finding → Type 0) (o : Option Finding) (rest : List Finding)
      → ((g : Finding) → o ≡ some g → P g)
      → All P rest
      → All P (decided_as o rest)
  All-decided_as P none rest h hs = hs
  All-decided_as P (some g) rest h hs = (h g refl, hs)

  -- A finding that is dropped is the same as none that is kept.
  dropped-apart :
      (c : Finding) (found : List (Diagnostic × Finding))
      → c.relative ≡ ""
      → decide c ≡ none
      → All (λ f. f.1.relative ≡ "") found
      → All (λ f. same f c ≡ false) (decided decide (findings found))
  dropped-apart c [] bare off bares = tt
  dropped-apart c ((diagnostic, c') ∷ found) bare off bares =
      All-decided_as (λ f. same f c ≡ false) (decide c') (decided decide (findings found))
        (λ g e. elim (Bool-cases (same g c)) [
          | inl on ↦
              let shown = ap shown_of (at_path c' g e) in
              let one = bare-eq c' c bares.0 bare (sym shown ∙ same-eq g c on) in
              absurd (ground (arith, sym off ∙ (ap decide (sym one) ∙ e)))
          | inr apart ↦ apart
        ])
        (dropped-apart c found bare off bares.1)

  decided-selected :
      (found : List (Diagnostic × Finding))
      → All (λ f. f.1.relative ≡ "") found
      → map shown_of (decided decide (findings found))
        ≡ map
            (λ (f : Diagnostic × Finding). shown_of f.1)
            (selected found (decided decide (findings found)))
  unfolding selected
  decided-selected [] bares = refl
  decided-selected ((diagnostic, c) ∷ found) bares =
      by_choice (decided-selected found bares.1) (decide c) refl
    where
      rest : List Finding
      rest = decided decide (findings found)

      by_choice :
          map shown_of rest ≡ map (λ (f : Diagnostic × Finding). shown_of f.1) (selected found rest)
          → (o : Option Finding) → decide c ≡ o
          → map shown_of (decided_as o rest)
            ≡ map
                (λ (f : Diagnostic × Finding). shown_of f.1)
                (selected ((diagnostic, c) ∷ found) (decided_as o rest))
      by_choice ih none e =
          ih
          ∙ sym (
              ap (map (λ (f : Diagnostic × Finding). shown_of f.1)) (
                selected-skip (diagnostic, c) found rest (dropped-apart c found bares.0 e bares.1)))
      by_choice ih (some g) e =
          let shown = ap shown_of (at_path c g e) in
          rw (same-shown g c shown, selected) (rw shown (ap (λ k. shown_of c ∷ k) ih))

-- The diagnostics selected for findings kept are those kept.
pub selected-shown :
    (found : List (Diagnostic × Finding)) (left : List Finding)
    → IsDecided (findings found) left
    → All (λ f. f.1.relative ≡ "") found
    → map shown_of left ≡ map (λ (f : Diagnostic × Finding). shown_of f.1) (selected found left)
selected-shown found left d bares = rw d.all (decided-selected d.decide d.at_path found bares)
