-- ===== src/Paircheck/Flow/Points.antt =====
-- The map `searched` of `explore` (paircheck/flow.go): its keys are compared as Go compares them, and a
-- lookup finds the newest entry.
use precept.Base.{
  ℕ, true, List, [], ◌∷◌, Option, none, some, ◌==◌, ◌≡◌, refl, arith, subst, ap₂, ==_iff, and_true,
  same_bool_iff, ◌⊎◌, inl, inr, Bool-cases,
}
use precept.Paircheck.Proven.{Proven, has, includes, common}
use precept.Paircheck.Proven.Laws.{has-common}
use precept.Paircheck.Proven.Spelling.{includes-subset}
use precept.Paircheck.Flow.Types.{Point, State}
use precept.Paircheck.Flow.Explore.{same_bytes, same_point, Searched, known_at, revisit}
use precept.Paircheck.Flow.Simulation.{Fewer}

same_bytes_refl : (p : List ℕ) → same_bytes p p ≡ true
same_bytes_refl [] = refl
same_bytes_refl (b ∷ p) = ground (arith, same_bytes_refl p)

eq_of_same_bytes : (p q : List ℕ) → same_bytes p q ≡ true → p ≡ q
eq_of_same_bytes [] [] h = refl
eq_of_same_bytes [] (c ∷ q) h = cc
eq_of_same_bytes (b ∷ p) [] h = cc
eq_of_same_bytes (b ∷ p) (c ∷ q) h =
    let (first, rest) = and_true (b == c) (same_bytes p q) h in
    ap₂ ◌∷◌ ((==_iff b c).0 first) (eq_of_same_bytes p q rest)

pub same_point_refl : (p : Point) → same_point p p ≡ true
unfolding same_point
same_point_refl p = ground (
  arith,
  same_bytes_refl p.closures,
  same_bool_iff p.uncertain p.uncertain,
  same_bool_iff p.displaced p.displaced,
  same_bool_iff p.called p.called,
)

pub eq_of_same_point : (p q : Point) → same_point p q ≡ true → p ≡ q
unfolding same_point
eq_of_same_point p q h = ground (
  arith,
  h,
  eq_of_same_bytes p.closures q.closures,
  same_bool_iff p.uncertain q.uncertain,
  same_bool_iff p.displaced q.displaced,
  same_bool_iff p.called q.called,
)

pub known_at-head :
    (p : Point) (k : Proven) (searched : Searched) → known_at ((p, k) ∷ searched) p ≡ some k
unfolding known_at
known_at-head p k searched = rw (same_point_refl p)

-- A new entry hides the old one at its own point, and no other.
pub known_at-cons :
    (p q : Point) (k : Proven) (searched : Searched)
    → ((p ≡ q) × (known_at ((p, k) ∷ searched) q ≡ some k))
      ⊎ (known_at ((p, k) ∷ searched) q ≡ known_at searched q)
unfolding known_at
known_at-cons p q k searched = elim (Bool-cases (same_point p q)) [
  | inl e ↦ inl (eq_of_same_point p q e, rw e)
  | inr e ↦ inr (rw e)
]

-- A revisit goes on knowing only what both know; it stops only where it knows no fewer.
pub revisit_cases :
    (c : State) (o : Option Proven)
    → ((k : Proven) × (o ≡ some k) × Fewer k c.failed × (revisit c o ≡ none))
      ⊎ ((u : State) × (revisit c o ≡ some u)
          × (u.at ≡ c.at)
          × Fewer u.failed c.failed
          × ((k : Proven) → o ≡ some k → Fewer u.failed k))
unfolding revisit
revisit_cases c none = inr (c, refl, refl, λ i h. h, λ k e. cc)
revisit_cases c (some k) = elim (Bool-cases (includes c.failed k)) [
  | inl e ↦ inl (k, refl, includes-subset c.failed k e, rw e)
  | inr e ↦ inr (
    record c { failed = common c.failed k },
    rw e,
    refl,
    λ i h. ground (arith, h, has-common c.failed k i),
    λ k' same i h. fewer_known k k' same i h,
  )
]
  where
    fewer_known :
        (k k' : Proven) → ◌≡◌ {A = Option Proven} (some k) (some k') → Fewer (common c.failed k) k'
    fewer_known k k' same i h =
        let e : k ≡ k' = cc in
        subst (λ (x : Proven). has x i ≡ true) e (ground (arith, h, has-common c.failed k i))

includes-nil : (p : Proven) → includes p [] ≡ true
unfolding includes
includes-nil [] = refl
includes-nil (b ∷ p) = ground arith

-- A point searched knowing nothing is not searched again.
pub revisit-nothing : (c : State) → revisit c (some []) ≡ none
unfolding revisit
revisit-nothing c = rw (includes-nil c.failed)
