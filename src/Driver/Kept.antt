-- ===== src/Driver/Kept.antt =====
-- What the whole filter of internal/driver/report.go keeps.
use Prim.Native.String.{String}
use precept.Base.{
  Bool, true, false, List, [], ◌∷◌, Option, none, some, ◌⊎◌, inl, inr, inr_inj, if◌then◌else◌, Memᴰ,
  ◌≡◌, refl, sym, ◌∙◌, subst,
}
use mathlib.Core.List.Memᴰ
use precept.Base.Members.{mem-of_keep}
use precept.Driver.Findings.{Finding}
use precept.Driver.Exclusions.{Outside, Warning, excludes, unmatched}
use precept.Driver.Filter.{
  Generated, strict, lax, disable, Files, generated_kept, Filter, located_at, located, or_all, kept,
}
use precept.Driver.Once.{
  not_generated, generated_kept-keep, not_silenced, unsilenced-keep, unruled, unmatched-keep,
}

module _ (outside : Outside) (files : Files) where
  -- A finding is the one found, at a path from the base that is not excluded.
  pub record IsLocated (f : Filter) (found : List Finding) (g : Finding) : Type 0 where
    pub origin : Finding
    pub was_found : Memᴰ origin found
    pub from_base : files.rel f.base origin.position.filename ≡ some g.relative
    pub located : g ≡ record origin { relative = g.relative }
    pub included : excludes outside f.exclusions g.relative ≡ false

  later :
      (f : Filter) (c : Finding) (found : List Finding) (g : Finding)
      → IsLocated f found g
      → IsLocated f (c ∷ found) g
  later f c found g l = record {
    origin = l.origin;
    was_found = Memᴰ.tail l.was_found;
    from_base = l.from_base;
    located = l.located;
    included = l.included;
  }

  located_at-cases :
      (f : Filter) (c : Finding) (found : List Finding) (o : Option String)
      (rest : List Finding × List Warning) (g : Finding)
      → files.rel f.base c.position.filename ≡ o
      → (Memᴰ g rest.0 → IsLocated f found g)
      → Memᴰ g (located_at outside files f.exclusions c o rest).0
      → IsLocated f (c ∷ found) g
  located_at-cases f c found none rest g e ih m = later f c found g (ih m)
  located_at-cases f c found (some relative) rest g e ih m =
      by_test (excludes outside f.exclusions relative) refl m
    where
      here :
          excludes outside f.exclusions relative ≡ false
          → IsLocated f (c ∷ found) (record c { relative = relative })
      here off = record {
        origin = c;
        was_found = Memᴰ.head refl;
        from_base = e;
        located = refl;
        included = off;
      }

      by_test :
          (b : Bool)
          → excludes outside f.exclusions relative ≡ b
          → Memᴰ g (if b then rest.0 else record c { relative = relative } ∷ rest.0)
          → IsLocated f (c ∷ found) g
      by_test true on m' = later f c found g (ih m')
      by_test false off m' = elim (Memᴰ.cases_cons m') [
        | inl same ↦ subst (λ (x : Finding). IsLocated f (c ∷ found) x) (sym same) (here off)
        | inr rest_of ↦ later f c found g (ih rest_of)
      ]

  mem-located :
      (f : Filter) (found : List Finding) (g : Finding)
      → Memᴰ g (located outside files f found).0
      → IsLocated f found g
  unfolding located
  mem-located f [] g m = absurd (Memᴰ.not-nil m)
  mem-located f (c ∷ found) g m =
      located_at-cases f c found (files.rel f.base c.position.filename)
        (located outside files f found) g refl (mem-located f found g) m

  generated_kept-disable : (found : List Finding) → generated_kept files disable found ≡ inr found
  unfolding generated_kept
  generated_kept-disable found = refl

  mem-generated :
      (mode : Generated) (found : List Finding) (g : Finding)
      → Memᴰ g (or_all outside files (generated_kept files mode found) found)
      → Memᴰ g found
  mem-generated mode found g m = by_written (generated_kept files mode found) (of_kept mode) m
    where
      of_kept :
          (mode : Generated) (k : List Finding)
          → generated_kept files mode found ≡ inr k
          → Memᴰ g k
          → Memᴰ g found
      of_kept disable k e m' =
          subst (Memᴰ g) (sym (inr_inj (sym (generated_kept-disable found) ∙ e))) m'
      of_kept strict k e m' =
          (mem-of_keep (not_generated files strict) found
            (subst (Memᴰ g) (generated_kept-keep files strict found k (λ d. cc) e) m')).0
      of_kept lax k e m' =
          (mem-of_keep (not_generated files lax) found
            (subst (Memᴰ g) (generated_kept-keep files lax found k (λ d. cc) e) m')).0

      by_written :
          (o : String ⊎ List Finding)
          → ((k : List Finding) → o ≡ inr k → Memᴰ g k → Memᴰ g found)
          → Memᴰ g (or_all outside files o found)
          → Memᴰ g found
      by_written (inl path) h m' = m'
      by_written (inr k) h m' = h k refl m'

  -- A finding the filter keeps is one of those found, at its path from the base, and that path is not
  -- excluded, no rule matches the finding, and no directive of its file silences it.
  pub mem-kept :
      (f : Filter) (found : List Finding) (g : Finding)
      → Memᴰ g (kept outside files f found).0
      → IsLocated f found g
        × (unruled outside f.exclusions.rules f.linter g ≡ true)
        × (not_silenced files f.linter g ≡ true)
  unfolding kept
  mem-kept f found g m =
      let near = (located outside files f found).0 in
      let written = or_all outside files (generated_kept files f.generated near) near in
      let left = (unmatched outside f.exclusions written f.linter).0 in
      let (in_left, silent) =
        mem-of_keep (not_silenced files f.linter) left
          (subst (Memᴰ g) (unsilenced-keep files left f.linter) m) in
      let (in_written, free) =
        mem-of_keep (unruled outside f.exclusions.rules f.linter) written
          (subst (Memᴰ g) (unmatched-keep outside f.exclusions written f.linter) in_left) in
      (mem-located f found g (mem-generated f.generated near g in_written), free, silent)
