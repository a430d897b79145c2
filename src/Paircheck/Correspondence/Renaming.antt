-- ===== src/Paircheck/Correspondence/Renaming.antt =====
-- Two types correspond exactly where a one to one renaming of type parameters relates them.
use precept.Base.{
  ℕ, suc, true, ◌∷◌, Option, none, some, ◌≡◌, ◌↔◌, inl, inr, refl, ◌∙◌, ap, arith, ◌==◌, ==_iff,
  Bool-cases, some_inj, subst,
}
use precept.Paircheck.Types.{
  GoType, type_param, composite, alias, other, Types, no_types, type_and, GoTypes, unalias,
  same_shape,
}
use precept.Paircheck.Correspondence.{Correspondence, lookup, pair, count}

-- The two maps say the same.
unfoldable pub AreInverse : Correspondence → Type 0
AreInverse c = (p q : ℕ) → (lookup c.forward p ≡ some q) ↔ (lookup c.backward q ≡ some p)

unfoldable pub Extends : Correspondence → Correspondence → Type 0
Extends c c' = (p q : ℕ) → lookup c.forward p ≡ some q → lookup c'.forward p ≡ some q

-- At most one type parameter on either side stands for one on the other.
pub record IsOneToOne (R : ℕ → ℕ → Type 0) : Type 0 where
  pub forward : (p q q' : ℕ) → R p q → R p q' → q ≡ q'
  pub backward : (p p' q : ℕ) → R p q → R p' q → p ≡ p'

unfoldable pub Within : Correspondence → (ℕ → ℕ → Type 0) → Type 0
Within c R = (p q : ℕ) → lookup c.forward p ≡ some q → R p q

abbrev added : Correspondence → ℕ → ℕ → Correspondence
added c p q = record { forward = (p, q) ∷ c.forward; backward = (q, p) ∷ c.backward }

added-AreInverse :
    (c : Correspondence) (p q : ℕ)
    → AreInverse c
    → lookup c.forward p ≡ none
    → lookup c.backward q ≡ none
    → AreInverse (added c p q) × Extends c (added c p q) × (lookup (added c p q).forward p ≡ some q)
unfolding AreInverse Extends lookup
added-AreInverse c p q inverse e e' = (
  λ p' q'. (
    λ l. ground (arith, e, e', l, (inverse p' q').0, (inverse p' q).1, (inverse p' q).0),
    λ l. ground (arith, e, e', l, (inverse p' q').1, (inverse p q').1, (inverse p q').0),
  ),
  λ p' q' l. ground (arith, e, l),
  ground arith,
)

pub pair-AreInverse :
    (c c' : Correspondence) (p q : ℕ)
    → AreInverse c
    → pair c p q ≡ some c'
    → AreInverse c' × Extends c c' × (lookup c'.forward p ≡ some q)
unfolding pair AreInverse Extends
pair-AreInverse c c' p q inverse h = by_lookup (lookup c.forward p) (lookup c.backward q) refl refl
  where
    by_lookup :
        (f b : Option ℕ)
        → lookup c.forward p ≡ f
        → lookup c.backward q ≡ b
        → AreInverse c' × Extends c c' × (lookup c'.forward p ≡ some q)
    by_lookup (some f) b e e' = elim (Bool-cases (f == q)) [
      | inl same ↦
          let kept : c ≡ c' = some_inj (rw (e, same) at h) in
          subst (λ (d : Correspondence). AreInverse d × Extends c d × (lookup d.forward p ≡ some q))
            kept (inverse, (λ p' q' l. l), e ∙ ap some ((==_iff f q).0 same))
      | inr apart ↦ absurd (ground (arith, rw (e, apart) at h))
    ]
    by_lookup none (some b) e e' = elim (Bool-cases (b == p)) [
      | inl same ↦ absurd (ground (arith, e, e', same, (inverse p q).1))
      | inr apart ↦ absurd (ground (arith, rw (e, e', apart) at h))
    ]
    by_lookup none none e e' =
        subst (λ (d : Correspondence). AreInverse d × Extends c d × (lookup d.forward p ≡ some q))
          (some_inj (rw (e, e') at h)) (added-AreInverse c p q inverse e e')

added-Within :
    (R : ℕ → ℕ → Type 0) (c : Correspondence) (p q : ℕ)
    → Within c R
    → R p q
    → Within (added c p q) R
unfolding Within lookup
added-Within R c p q within r p' q' l = elim (Bool-cases (p == p')) [
  | inl e ↦
      let same : q ≡ q' = some_inj (rw e at l) in
      subst (λ (n : ℕ). R n q') ((==_iff p p').0 e) (subst (R p) same r)
  | inr e ↦ within p' q' (rw e at l)
]

-- A pair that a one to one relation has is recorded, where what is recorded is within the relation.
pub pair-Within :
    (R : ℕ → ℕ → Type 0) (c : Correspondence) (p q : ℕ)
    → IsOneToOne R
    → AreInverse c
    → Within c R
    → R p q
    → (c' : Correspondence) × (pair c p q ≡ some c') × Within c' R
unfolding pair AreInverse Within
pair-Within R c p q one inverse within r =
    by_lookup (lookup c.forward p) (lookup c.backward q) refl refl
  where
    by_lookup :
        (f b : Option ℕ)
        → lookup c.forward p ≡ f
        → lookup c.backward q ≡ b
        → (c' : Correspondence) × (pair c p q ≡ some c') × Within c' R
    by_lookup (some f) b e e' =
        let same = one.forward p f q (within p f e) r in (c, rw e (ground (arith, same)), within)
    by_lookup none (some b) e e' =
        let l = (inverse b q).1 e' in
        let same = one.backward b p q (within b q l) r in absurd (ground (arith, e, l, same))
    by_lookup none none e e' = (added c p q, rw (e, e') refl, added-Within R c p q within r)

module _ (go : GoTypes) (R : ℕ → ℕ → Type 0) where
  abbrev pub RelatedParam : ℕ → GoType → Type 0
  RelatedParam i (type_param j) = R i j
  RelatedParam i _ = ⊥

  -- The types are built alike, up to aliases, and their type parameters, place by place, are related.
  unfoldable mutual
    unfolding unalias same_shape

    pub Related : GoType → GoType → Type 0
    Related (type_param i) second = RelatedParam i (unalias second)
    Related (composite shape parts) second = elim (unalias second) [
      | composite shape' others ↦ (same_shape shape shape' ≡ true) × RelatedAll parts others
      | _ ↦ ⊥
    ]
    Related (alias first) second = Related first second
    Related (other i) second = go.identical (other i) (unalias second) ≡ true

    pub RelatedAll : Types → Types → Type 0
    RelatedAll no_types no_types = Unit
    RelatedAll no_types (type_and second others) = ⊥
    RelatedAll (type_and first parts) no_types = ⊥
    RelatedAll (type_and first parts) (type_and second others) =
        Related first second × RelatedAll parts others

  pub count-RelatedAll :
      (parts others : Types) → RelatedAll parts others → count parts ≡ count others
  unfolding RelatedAll
  count-RelatedAll no_types no_types h = refl
  count-RelatedAll no_types (type_and second others) h = absurd h
  count-RelatedAll (type_and first parts) no_types h = absurd h
  count-RelatedAll (type_and first parts) (type_and second others) h =
      ap suc (count-RelatedAll parts others h.1)
