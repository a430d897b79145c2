-- ===== src/Paircheck/Flow/Universe.antt =====
-- All the points that the search of paircheck/flow.go can reach, as one list, and how much is left to
-- search: each entry of `searched` that is new or knows less than the one before lowers it.
use precept.Base.{
  ℕ, zero, suc, ◌*◌, ◌≤◌, ◌<◌, Bool, List, [], ◌∷◌, Option, none, some, ◌≡◌, refl, sym, arith,
  subst, inl, inr, Bool-cases, some_inj, Memᴰ, length,
}
use precept.Base.Finite.{
  upto, mem-upto, booleans, mem-booleans, cross, mem-cross, sum_by, sum_by-lt,
}
use precept.Paircheck.Proven.{Proven, includes}
use precept.Paircheck.Proven.Spelling.{AreBytes}
use precept.Paircheck.Proven.Size.{IsWithin, weight, weight-le, weight-common, common-IsWithin}
use precept.Paircheck.Flow.Types.{Search, Point, State}
use precept.Paircheck.Flow.Explore.{Searched, known_at, revisit}
use precept.Paircheck.Flow.Points.{known_at-head, known_at-cons}
use precept.Paircheck.Flow.Range.{room, top_block, PointInRange, InRange}

-- The byte strings of length at most n.
abbrev strings : ℕ → List (List ℕ)
strings zero = [] ∷ []
strings (suc n) = [] ∷ cross (λ (b : ℕ) (p : List ℕ). b ∷ p) (upto 255) (strings n)

mem-strings : (n : ℕ) (p : List ℕ) → AreBytes p → length p ≤ n → Memᴰ p (strings n)
mem-strings zero [] v h = Memᴰ.head refl
mem-strings zero (b ∷ p) v h = absurd (omega arith)
mem-strings (suc n) [] v h = Memᴰ.head refl
mem-strings (suc n) (b ∷ p) v h = Memᴰ.tail (
    mem-cross (λ (b : ℕ) (p : List ℕ). b ∷ p) (upto 255) (strings n)
      (mem-upto 255 b (omega (arith, v.0))) (mem-strings n p v.1 (omega arith)))

abbrev pair : {A B : Type 0} → A → B → A × B
pair a b = (a, b)

abbrev point_of : (ℕ × ℕ) × (ℕ × ℕ) → (Bool × (Bool × Bool)) × Proven → Point
point_of ((block, index), (open_count, deferred)) ((uncertain, (displaced, called)), closures) =
    record {
      block = block;
      index = index;
      open_count = open_count;
      deferred = deferred;
      uncertain = uncertain;
      displaced = displaced;
      called = called;
      closures = closures;
    }

module _ (s : Search) where
  abbrev places : List ((ℕ × ℕ) × (ℕ × ℕ))
  places =
      cross pair (cross pair (upto (top_block s)) (upto s.start_index))
        (cross pair (upto 2) (upto 2))

  abbrev flags : List ((Bool × (Bool × Bool)) × Proven)
  flags = cross pair (cross pair booleans (cross pair booleans booleans)) (strings (room s.tracked))

  abbrev points : List Point
  points = cross point_of places flags

  mem-points : (p : Point) → PointInRange s p → Memᴰ p points
  mem-points p v =
      mem-cross point_of places flags
        (mem-cross pair _ _
          (mem-cross pair _ _ (mem-upto _ p.block v.block) (mem-upto _ p.index v.index))
          (mem-cross pair _ _ (mem-upto _ p.open_count v.open_count)
            (mem-upto _ p.deferred v.deferred)))
        (mem-cross pair _ _
          (mem-cross pair _ _ (mem-booleans p.uncertain)
            (mem-cross pair _ _ (mem-booleans p.displaced) (mem-booleans p.called)))
          (mem-strings _ p.closures v.closures.bytes v.closures.short))

  abbrev rank : Option Proven → ℕ
  rank none = suc (256 * room s.returned)
  rank (some known) = weight known

  -- What is left to search.
  abbrev pub left : Searched → ℕ
  left searched = sum_by (λ p. rank (known_at searched p)) points

  revisit-lower :
      (c u : State) (o : Option Proven)
      → InRange s c
      → revisit c o ≡ some u
      → (u.at ≡ c.at) × IsWithin (room s.returned) u.failed × (weight u.failed < rank o)
  unfolding revisit
  revisit-lower c u none v h =
      subst
        (λ (x : State).
          (x.at ≡ c.at) × IsWithin (room s.returned) x.failed × (weight x.failed < rank none))
        (some_inj h)
        (refl, v.failed, omega (arith, weight-le _ c.failed v.failed.bytes v.failed.short))
  revisit-lower c u (some known) v h = elim (Bool-cases (includes c.failed known)) [
    | inl e ↦ absurd (ground (arith, rw e at h))
    | inr e ↦
        subst
          (λ (x : State).
            (x.at ≡ c.at) × IsWithin (room s.returned) x.failed × (weight x.failed < weight known))
          (some_inj (rw e at h))
          (refl, common-IsWithin _ c.failed known v.failed, weight-common c.failed known e)
  ]

  -- A search from a state leaves less to search, and the state is in range.
  pub left-lower :
      (c u : State) (searched : Searched)
      → InRange s c
      → revisit c (known_at searched c.at) ≡ some u
      → InRange s u × (left ((u.at, u.failed) ∷ searched) < left searched)
  left-lower c u searched v h =
      let (at, within, lower) = revisit-lower c u (known_at searched c.at) v h in
      let inside = subst (λ (p : Point). PointInRange s p) (sym at) v.at in
      let less =
        subst (λ (p : Point). weight u.failed < rank (known_at searched p)) (sym at) lower in
      (
        record { at = inside; failed = within },
        sum_by-lt _ _ points (below less) (mem-points u.at inside) (strictly less),
      )
    where
      below :
          weight u.failed < rank (known_at searched u.at)
          → (q : Point)
          → rank (known_at ((u.at, u.failed) ∷ searched) q) ≤ rank (known_at searched q)
      below less q = elim (known_at-cons u.at q u.failed searched) [
        | inl (same, now) ↦
            rw now (
              subst (λ (p : Point). weight u.failed ≤ rank (known_at searched p)) same
                (omega arith))
        | inr same ↦ rw same (omega arith)
      ]

      strictly :
          weight u.failed < rank (known_at searched u.at)
          → rank (known_at ((u.at, u.failed) ∷ searched) u.at) < rank (known_at searched u.at)
      strictly less = rw (known_at-head u.at u.failed searched) less
