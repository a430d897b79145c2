-- ===== src/Paircheck/Correspondence/Unify.antt =====
-- `correspond` of paircheck/correspondence.go decides whether a renaming relates two types.
use precept.Base.{
  ℕ, true, ◌&&◌, [], Option, none, some, ◌≡◌, ◌↔◌, inl, inr, refl, sym, ◌∙◌, ap, arith, ◌==◌,
  ==_iff, ==_refl, Bool-cases, Option-cases, some_inj, and_true, subst,
}
use precept.Paircheck.Types.{
  GoType, type_param, composite, alias, other, Types, no_types, type_and, GoTypes, unalias,
  same_shape,
}
use precept.Paircheck.Correspondence.{
  Correspondence, lookup, pair_with, count, parts_like, unify, unify_all, and_then, correspond,
}
use precept.Paircheck.Correspondence.Renaming.{
  AreInverse, Extends, IsOneToOne, Within, pair-AreInverse, pair-Within, RelatedParam, Related,
  RelatedAll, count-RelatedAll,
}

and_then-eq_some :
    (o : Option Correspondence) (f : Correspondence → Option Correspondence) {c' : Correspondence}
    → and_then o f ≡ some c'
    → (d : Correspondence) × (o ≡ some d) × (f d ≡ some c')
and_then-eq_some none f h = cc
and_then-eq_some (some d) f h = (d, refl, h)

module _ (go : GoTypes) where
  -- What holds after a step from `c` to `c'` that reports true, where it shows that `P` holds of a relation.
  abbrev Shows : ((ℕ → ℕ → Type 0) → Type 0) → Correspondence → Correspondence → Type 1
  Shows P c c' = AreInverse c' × Extends c c' × ((R : ℕ → ℕ → Type 0) → Within c' R → P R)

  mutual
    unfolding unify Related RelatedAll Extends Within

    unify-Related :
        (first : GoType) (c c' : Correspondence) (second : GoType)
        → AreInverse c
        → unify go first c second ≡ some c'
        → Shows (λ R. Related go R first second) c c'
    unify-Related (type_param i) c c' second inverse h = by_type (unalias second) h
      where
        by_type : (u : GoType) → pair_with c i u ≡ some c' → Shows (λ R. RelatedParam go R i u) c c'
        by_type (type_param j) e =
            let (inverse', extends, there) = pair-AreInverse c c' i j inverse e in
            (inverse', extends, λ R within. within i j there)
        by_type (composite shape parts) e = cc
        by_type (alias t) e = cc
        by_type (other j) e = cc
    unify-Related (composite shape parts) c c' second inverse h =
        by_type (unalias second) (λ others. unify_all-Related parts c c' others inverse) h
      where
        by_type :
            (u : GoType)
            → ((others : Types)
                → count parts ≡ count others
                → unify_all go parts c others ≡ some c'
                → Shows (λ R. RelatedAll go R parts others) c c')
            → elim (parts_like shape (count parts) u) [
              | none ↦ none
              | some others ↦ unify_all go parts c others
            ]
              ≡ some c'
            → Shows
                (λ R. elim u [
                  | composite shape' others ↦
                      (same_shape shape shape' ≡ true) × RelatedAll go R parts others
                  | _ ↦ ⊥
                ])
                c
                c'
        by_type (composite shape' others) later e =
            elim (Bool-cases (same_shape shape shape' && count parts == count others)) [
              | inl same ↦
                  let (alike, counted) =
                    and_true (same_shape shape shape') (count parts == count others) same in
                  let (inverse', extends, all) =
                    later others ((==_iff (count parts) (count others)).0 counted) (rw same at e) in
                  (inverse', extends, λ R within. (alike, all R within))
              | inr apart ↦ absurd (ground (arith, rw apart at e))
            ]
        by_type (type_param j) later e = cc
        by_type (alias t) later e = cc
        by_type (other j) later e = cc
    unify-Related (alias first) c c' second inverse h = unify-Related first c c' second inverse h
    unify-Related (other i) c c' second inverse h =
        elim (Bool-cases (go.identical (other i) (unalias second))) [
          | inl same ↦
              let kept : c ≡ c' = some_inj (rw same at h) in
              subst (Shows (λ R. go.identical (other i) (unalias second) ≡ true) c) kept
                (inverse, (λ p q l. l), λ R within. same)
          | inr apart ↦ absurd (ground (arith, rw apart at h))
        ]

    unify_all-Related :
        (parts : Types) (c c' : Correspondence) (others : Types)
        → AreInverse c
        → count parts ≡ count others
        → unify_all go parts c others ≡ some c'
        → Shows (λ R. RelatedAll go R parts others) c c'
    unify_all-Related no_types c c' no_types inverse same h =
        subst (Shows (λ R. Unit) c) (some_inj h) (inverse, (λ p q l. l), λ R within. tt)
    unify_all-Related no_types c c' (type_and second others) inverse same h =
        absurd (ground (arith, same))
    unify_all-Related (type_and first parts) c c' no_types inverse same h =
        absurd (ground (arith, same))
    unify_all-Related (type_and first parts) c c' (type_and second others) inverse same h =
        let (d, e, rest) =
          and_then-eq_some (unify go first c second) (λ d. unify_all go parts d others) h in
        let (inverse', extends, now) = unify-Related first c d second inverse e in
        let (inverse'', extends', later) =
          unify_all-Related parts d c' others inverse' (omega (arith, same)) rest in
        (
          inverse'',
          λ p q l. extends' p q (extends p q l),
          λ R within. (now R (λ p q l. within p q (extends' p q l)), later R within),
        )

-- What is recorded within a one to one relation, after a step over what is related.
abbrev Steps : GoTypes → (ℕ → ℕ → Type 0) → Option Correspondence → Type 0
Steps go R o = (c' : Correspondence) × (o ≡ some c') × AreInverse c' × Within c' R

module _ (go : GoTypes) (R : ℕ → ℕ → Type 0) (one : IsOneToOne R) where
  mutual
    unfolding unify Related RelatedAll

    unify_complete :
        (first : GoType) (c : Correspondence) (second : GoType)
        → AreInverse c
        → Within c R
        → Related go R first second
        → Steps go R (unify go first c second)
    unify_complete (type_param i) c second inverse within r = by_type (unalias second) r
      where
        by_type : (u : GoType) → RelatedParam go R i u → Steps go R (pair_with c i u)
        by_type (type_param j) r' =
            let (c', e, within') = pair-Within R c i j one inverse within r' in
            let (inverse', extends, there) = pair-AreInverse c c' i j inverse e in
            (c', e, inverse', within')
        by_type (composite shape parts) r' = absurd r'
        by_type (alias t) r' = absurd r'
        by_type (other j) r' = absurd r'
    unify_complete (composite shape parts) c second inverse within r =
        by_type (unalias second) (λ others. unify_all_complete parts c others inverse within) r
      where
        by_type :
            (u : GoType)
            → ((others : Types)
                → RelatedAll go R parts others
                → Steps go R (unify_all go parts c others))
            → elim u as (λ v. Type 0) [
              | composite shape' others ↦
                  (same_shape shape shape' ≡ true) × RelatedAll go R parts others
              | _ ↦ ⊥
            ]
            → Steps go R (elim (parts_like shape (count parts) u) [
              | none ↦ none
              | some others ↦ unify_all go parts c others
            ])
        by_type (composite shape' others) later (alike, all) =
            rw (alike, count-RelatedAll go R parts others all, ==_refl (count others))
              (later others all)
        by_type (type_param j) later r' = absurd r'
        by_type (alias t) later r' = absurd r'
        by_type (other j) later r' = absurd r'
    unify_complete (alias first) c second inverse within r =
        unify_complete first c second inverse within r
    unify_complete (other i) c second inverse within r = (c, rw r refl, inverse, within)

    unify_all_complete :
        (parts : Types) (c : Correspondence) (others : Types)
        → AreInverse c
        → Within c R
        → RelatedAll go R parts others
        → Steps go R (unify_all go parts c others)
    unify_all_complete no_types c no_types inverse within r = (c, refl, inverse, within)
    unify_all_complete no_types c (type_and second others) inverse within r = absurd r
    unify_all_complete (type_and first parts) c no_types inverse within r = absurd r
    unify_all_complete (type_and first parts) c (type_and second others) inverse within r =
        let (d, e, inverse', within') = unify_complete first c second inverse within r.0 in
        let (c', e', inverse'', within'') =
          unify_all_complete parts d others inverse' within' r.1 in
        (c', ap (λ o. and_then o (λ d. unify_all go parts d others)) e ∙ e', inverse'', within'')

abbrev fresh : Correspondence
fresh = record { forward = []; backward = [] }

fresh-AreInverse : AreInverse fresh
unfolding AreInverse lookup
fresh-AreInverse p q = (λ h. cc, λ h. cc)

-- What is recorded is one to one.
paired-IsOneToOne :
    (c : Correspondence) → AreInverse c → IsOneToOne (λ p q. lookup c.forward p ≡ some q)
unfolding AreInverse
paired-IsOneToOne c inverse = record {
  forward = λ p q q' h h'. some_inj (sym h ∙ h');
  backward = λ p p' q h h'. some_inj (sym ((inverse p q).0 h) ∙ (inverse p' q).0 h');
}

-- Two types correspond exactly where some relation that is one to one between type parameters relates them:
-- up to aliases they are composites of the same shape with parts that it relates, type parameters that it
-- relates, or identical.
pub correspond_iff :
    (go : GoTypes) (first second : GoType)
    → (correspond go first second ≡ true)
      ↔ ((R : ℕ → ℕ → Type 0) × IsOneToOne R × Related go R first second)
unfolding correspond Within lookup
correspond_iff go first second = (there, back)
  where
    there :
        correspond go first second ≡ true
        → (R : ℕ → ℕ → Type 0) × IsOneToOne R × Related go R first second
    there h = elim (Option-cases (unify go first fresh second)) [
      | inl e ↦ absurd (ground (arith, rw (e, correspond) at h))
      | inr (c, e) ↦
          let (inverse, extends, all) = unify-Related go first fresh c second fresh-AreInverse e in
          ((λ p q. lookup c.forward p ≡ some q), paired-IsOneToOne c inverse, all _ (λ p q l. l))
    ]

    back :
        (R : ℕ → ℕ → Type 0) × IsOneToOne R × Related go R first second
        → correspond go first second ≡ true
    back (R, one, r) =
        let (c, e, inverse, within) =
          unify_complete go R one first fresh second fresh-AreInverse (λ p q h. cc) r in
        rw (e, correspond) refl
