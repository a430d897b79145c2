-- ===== src/Paircheck/Summary/Learned.antt =====
-- What is added to a list of a summary is found there, and nothing else changes (`with` and `indicesOf` of
-- paircheck/summary.go).
use Prim.Native.Nat.{compare, Ordering}
use precept.Base.{
  ℕ, ◌<◌, Bool, true, false, ◌&&◌, ◌||◌, List, [], ◌∷◌, ◌≡◌, ◌⊎◌, inl, inr, refl, ◌∙◌, ap, subst,
  arith, ◌==◌, All,
}
use precept.Paircheck.Summary.{KeyOrder, Parameters, contains, indices_of, insert_index, with_index}

-- To split on a comparison and keep the equation.
order_cases : (o : Ordering) → (o ≡ Ordering.lt) ⊎ ((o ≡ Ordering.eq) ⊎ (o ≡ Ordering.gt))
order_cases Ordering.lt = inl refl
order_cases Ordering.eq = inr (inl refl)
order_cases Ordering.gt = inr (inr refl)

module _ {K : Type 0} (keys : KeyOrder K) where
  contains-insert_index :
      (index : ℕ) (indices : List ℕ) (i : ℕ)
      → contains keys (insert_index keys index indices) i ≡ (index == i || contains keys indices i)
  unfolding insert_index
  contains-insert_index index [] i = refl
  contains-insert_index index (j ∷ indices) i =
      ground (arith, contains-insert_index index indices i)

  abbrev pub IsIncreasing : List ℕ → Type 0
  IsIncreasing [] = Unit
  IsIncreasing (i ∷ indices) = All (λ j. i < j) indices × IsIncreasing indices

  -- The keys are in order, each once, and so are the indices of each.
  abbrev pub AreSorted : List (Parameters keys) → Type 0
  AreSorted [] = Unit
  AreSorted (first ∷ lists) =
      All (λ other. keys.order first.key other.key ≡ Ordering.lt) lists
      × IsIncreasing first.indices
      × AreSorted lists

  abbrev pub is_eq : Ordering → Bool
  is_eq Ordering.eq = true
  is_eq _ = false

  below-insert_index :
      (k index : ℕ) (indices : List ℕ)
      → k < index
      → All (λ j. k < j) indices
      → All (λ j. k < j) (insert_index keys index indices)
  unfolding insert_index
  below-insert_index k index [] less h = (less, tt)
  below-insert_index k index (i ∷ indices) less (now, h) = elim (order_cases (compare i index)) [
    | inl e ↦ rw e (now, below-insert_index k index indices less h)
    | inr (inl e) ↦ rw e (now, h)
    | inr (inr e) ↦ rw e (less, (now, h))
  ]

  above :
      (index i : ℕ) (indices : List ℕ)
      → index < i
      → All (λ j. i < j) indices
      → All (λ j. index < j) indices
  above index i [] less h = tt
  above index i (j ∷ indices) less (now, h) =
      (omega (arith, less, now), above index i indices less h)

  insert_index-IsIncreasing :
      (index : ℕ) (indices : List ℕ)
      → IsIncreasing indices
      → IsIncreasing (insert_index keys index indices)
  unfolding insert_index
  insert_index-IsIncreasing index [] h = (tt, tt)
  insert_index-IsIncreasing index (i ∷ indices) (now, h) = elim (order_cases (compare i index)) [
    | inl e ↦ rw e (
      below-insert_index i index indices (ground (arith, e)) now,
      insert_index-IsIncreasing index indices h,
    )
    | inr (inl e) ↦ rw e (now, h)
    | inr (inr e) ↦
        let less : index < i = ground (arith, e) in
        rw e ((less, above index i indices less now), (now, h))
  ]

  -- A key below those of the lists and the one added is below all.
  below-with_index :
      (k key : K) (index : ℕ) (lists : List (Parameters keys))
      → keys.order k key ≡ Ordering.lt
      → All (λ other. keys.order k other.key ≡ Ordering.lt) lists
      → All (λ other. keys.order k other.key ≡ Ordering.lt) (with_index keys lists key index)
  unfolding with_index
  below-with_index k key index [] less h = (less, tt)
  below-with_index k key index (first ∷ lists) less (now, h) =
      elim (order_cases (keys.order first.key key)) [
        | inl e ↦ rw e (now, below-with_index k key index lists less h)
        | inr (inl e) ↦ rw e (now, h)
        | inr (inr e) ↦ rw e (less, (now, h))
      ]

  above_lists :
      (key first : K) (lists : List (Parameters keys))
      → keys.order key first ≡ Ordering.lt
      → All (λ other. keys.order first other.key ≡ Ordering.lt) lists
      → All (λ other. keys.order key other.key ≡ Ordering.lt) lists
  above_lists key first [] less h = tt
  above_lists key first (other ∷ lists) less (now, h) =
      (keys.lt_trans key first other.key less now, above_lists key first lists less h)

  with_index-AreSorted :
      (lists : List (Parameters keys)) (key : K) (index : ℕ)
      → AreSorted lists
      → AreSorted (with_index keys lists key index)
  unfolding with_index
  with_index-AreSorted [] key index h = (tt, (tt, tt), tt)
  with_index-AreSorted (first ∷ lists) key index (now, own, h) =
      elim (order_cases (keys.order first.key key)) [
        | inl e ↦ rw e (
          below-with_index first.key key index lists e now,
          own,
          with_index-AreSorted lists key index h,
        )
        | inr (inl e) ↦ rw e (now, insert_index-IsIncreasing index first.indices own, h)
        | inr (inr e) ↦
            let less = keys.gt_lt first.key key e in
            rw e ((less, above_lists key first.key lists less now), (tt, tt), (now, own, h))
      ]

  abbrev Found : K → ℕ → List (Parameters keys) → List (Parameters keys) → K → ℕ → Type 0
  Found key index lists more k i =
      contains keys (indices_of keys more k) i
      ≡ (is_eq (keys.order key k) && index == i || contains keys (indices_of keys lists k) i)

  contains-with_index :
      (lists : List (Parameters keys)) (key : K) (index : ℕ) (k : K) (i : ℕ)
      → Found key index lists (with_index keys lists key index) k i
  unfolding with_index indices_of
  contains-with_index [] key index k i = elim (order_cases (keys.order key k)) [
    | inl e ↦ rw e refl
    | inr (inl e) ↦ rw e refl
    | inr (inr e) ↦ rw e refl
  ]
  contains-with_index (first ∷ lists) key index k i =
      elim (order_cases (keys.order first.key key)) [
        | inl e ↦ elim (order_cases (keys.order first.key k)) [
          | inl e' ↦ rw (e, e') (contains-with_index lists key index k i)
          | inr (inl e') ↦
              let same : first.key ≡ k = keys.eq_same first.key k e' in
              let apart : keys.order key k ≡ Ordering.gt =
                keys.lt_gt k key (subst (λ (z : K). keys.order z key ≡ Ordering.lt) same e) in
              rw (e, e', apart) refl
          | inr (inr e') ↦
              let apart : keys.order key k ≡ Ordering.gt =
                keys.lt_gt k key (keys.lt_trans k first.key key (keys.gt_lt first.key k e') e) in
              rw (e, e', apart) refl
        ]
        | inr (inl e) ↦
            let same : first.key ≡ key = keys.eq_same first.key key e in
            let alike : keys.order first.key k ≡ keys.order key k =
              ap (λ (z : K). keys.order z k) same in
            elim (order_cases (keys.order key k)) [
              | inl e' ↦ rw (e, alike ∙ e', e') refl
              | inr (inl e') ↦ rw (e, alike ∙ e', e') (contains-insert_index index first.indices i)
              | inr (inr e') ↦ rw (e, alike ∙ e', e') refl
            ]
        | inr (inr e) ↦ elim (order_cases (keys.order key k)) [
          | inl e' ↦ rw (e, e') refl
          | inr (inl e') ↦
              let same : key ≡ k = keys.eq_same key k e' in
              let above_k : keys.order first.key k ≡ Ordering.gt =
                subst (λ (z : K). keys.order first.key z ≡ Ordering.gt) same e in
              rw (e, e', above_k) refl
          | inr (inr e') ↦
              let above_k : keys.order first.key k ≡ Ordering.gt = keys.lt_gt k first.key (
                keys.lt_trans k key first.key (keys.gt_lt key k e') (keys.gt_lt first.key key e)) in
              rw (e, e', above_k) refl
        ]
      ]

-- Where a list of a summary is sorted, by key and by parameter, it is so with a parameter added for a key, and
-- then the parameters of a key are those it had, and the one added where it is its key.
pub contains-with :
    {K : Type 0} (keys : KeyOrder K) (lists : List (Parameters keys)) (key : K) (index : ℕ)
    → AreSorted keys lists
    → AreSorted keys (with_index keys lists key index)
      × ((k : K) (i : ℕ)
          → contains keys (indices_of keys (with_index keys lists key index) k) i ≡ (
              is_eq keys (keys.order key k) && index == i
              || contains keys (indices_of keys lists k) i))
contains-with keys lists key index h =
    (with_index-AreSorted keys lists key index h, contains-with_index keys lists key index)
