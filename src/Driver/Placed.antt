-- ===== src/Driver/Placed.antt =====
-- The findings of a graph of packages (internal/driver/report.go), each once.
use Prim.Native.String.{String}
use text.Mathlib.TextPositions.{eq_refl}
use precept.Base.{
  Bool, true, false, not, ◌||◌, List, [], ◌∷◌, inl, inr, Bool-cases, ◌≡◌, sym, subst, arith, Memᴰ,
  ==_refl,
}
use mathlib.Core.List.Memᴰ
use precept.Driver.Findings.{
  Finding, Package, Diagnostic, same, equal, finding_at, seen_before, placed_in, placed_findings,
}

module _ (is_go : String → Bool) where
  -- No finding equals a later one.
  abbrev pub AreDistinct : List Finding → Type 0
  AreDistinct [] = Unit
  AreDistinct (f ∷ found) = (seen_before is_go found f ≡ false) × AreDistinct found

  placed_in-AreDistinct :
      (p : Package) (ds : List Diagnostic) (found : List Finding)
      → AreDistinct found
      → AreDistinct (placed_in is_go p ds found)
  unfolding placed_in
  placed_in-AreDistinct p [] found v = v
  placed_in-AreDistinct p (d ∷ ds) found v =
      let current = finding_at is_go p d in
      elim (Bool-cases (not (is_go current.position.filename) || seen_before is_go found current)) [
        | inl skip ↦ rw (skip, placed_in) (placed_in-AreDistinct p ds found v)
        | inr new ↦
            rw (new, placed_in)
              (placed_in-AreDistinct p ds (current ∷ found) (ground (arith, new), v))
      ]

  -- Where no finding found before equals another, none does after the loops of `placedFindings`: each
  -- diagnostic is found once.
  pub placed_findings-AreDistinct :
      (roots : List Package) (found : List Finding)
      → AreDistinct found
      → AreDistinct (placed_findings is_go roots found)
  unfolding placed_findings
  placed_findings-AreDistinct [] found v = v
  placed_findings-AreDistinct (root ∷ roots) found v =
      placed_findings-AreDistinct roots (placed_in is_go root root.diagnostics found)
        (placed_in-AreDistinct root root.diagnostics found v)

  equal_refl : (f : Finding) → equal f f ≡ true
  unfolding equal same
  equal_refl f = ground (
    arith,
    eq_refl f.position.filename,
    eq_refl f.ending.filename,
    eq_refl f.message,
    eq_refl f.relative,
    ==_refl f.position.offset,
    ==_refl f.position.line,
    ==_refl f.position.column,
    ==_refl f.ending.offset,
    ==_refl f.ending.line,
    ==_refl f.ending.column,
  )

  seen-placed_in :
      (p : Package) (ds : List Diagnostic) (found : List Finding) (f : Finding)
      → seen_before is_go found f ≡ true
      → seen_before is_go (placed_in is_go p ds found) f ≡ true
  unfolding placed_in
  seen-placed_in p [] found f h = h
  seen-placed_in p (d ∷ ds) found f h =
      let current = finding_at is_go p d in
      elim (Bool-cases (not (is_go current.position.filename) || seen_before is_go found current)) [
        | inl skip ↦ rw (skip, placed_in) (seen-placed_in p ds found f h)
        | inr new ↦
            rw (new, placed_in) (seen-placed_in p ds (current ∷ found) f (ground (arith, h)))
      ]

  seen-placed_findings :
      (roots : List Package) (found : List Finding) (f : Finding)
      → seen_before is_go found f ≡ true
      → seen_before is_go (placed_findings is_go roots found) f ≡ true
  unfolding placed_findings
  seen-placed_findings [] found f h = h
  seen-placed_findings (root ∷ roots) found f h =
      seen-placed_findings roots (placed_in is_go root root.diagnostics found) f
        (seen-placed_in root root.diagnostics found f h)

  placed_in-all :
      (p : Package) (ds : List Diagnostic) (found : List Finding) {d : Diagnostic}
      → Memᴰ d ds
      → is_go (finding_at is_go p d).position.filename ≡ true
      → seen_before is_go (placed_in is_go p ds found) (finding_at is_go p d) ≡ true
  unfolding placed_in
  placed_in-all p [] found m h = absurd (Memᴰ.not-nil m)
  placed_in-all p (e ∷ ds) found {d} (Memᴰ.head same) h =
      subst
        (λ (x : Diagnostic).
          is_go (finding_at is_go p x).position.filename ≡ true
          → seen_before is_go (placed_in is_go p (e ∷ ds) found) (finding_at is_go p x) ≡ true)
        (sym same) now h
    where
      now :
          is_go (finding_at is_go p e).position.filename ≡ true
          → seen_before is_go (placed_in is_go p (e ∷ ds) found) (finding_at is_go p e) ≡ true
      now go = elim (Bool-cases (seen_before is_go found (finding_at is_go p e))) [
        | inl old ↦ seen-placed_in p (e ∷ ds) found (finding_at is_go p e) old
        | inr new ↦
            rw (go, new, placed_in)
              (seen-placed_in p ds (finding_at is_go p e ∷ found) (finding_at is_go p e)
                (ground (arith, equal_refl (finding_at is_go p e))))
      ]
  placed_in-all p (e ∷ ds) found {d} (Memᴰ.tail m) h =
      elim (Bool-cases (
        not (is_go (finding_at is_go p e).position.filename)
        || seen_before is_go found (finding_at is_go p e))) [
          | inl skip ↦ rw (skip, placed_in) (placed_in-all p ds found m h)
          | inr new ↦ rw (new, placed_in) (placed_in-all p ds (finding_at is_go p e ∷ found) m h)
        ]

  -- Every diagnostic of every root that is placed in a Go file is found.
  pub placed_findings-all :
      (roots : List Package) (found : List Finding) {p : Package} {d : Diagnostic}
      → Memᴰ p roots
      → Memᴰ d p.diagnostics
      → is_go (finding_at is_go p d).position.filename ≡ true
      → seen_before is_go (placed_findings is_go roots found) (finding_at is_go p d) ≡ true
  unfolding placed_findings
  placed_findings-all [] found m m' h = absurd (Memᴰ.not-nil m)
  placed_findings-all (root ∷ roots) found {p} {d} (Memᴰ.head same) m' h =
      seen-placed_findings roots (placed_in is_go root root.diagnostics found)
        (finding_at is_go p d)
        (subst
          (λ (x : Package).
            seen_before is_go (placed_in is_go x x.diagnostics found) (finding_at is_go p d) ≡ true)
          same (placed_in-all p p.diagnostics found m' h))
  placed_findings-all (root ∷ roots) found (Memᴰ.tail m) m' h =
      placed_findings-all roots (placed_in is_go root root.diagnostics found) m m' h
