-- ===== src/Paircheck/SummarySamples.antt =====
-- The theorem on the lists of a summary, with numbers for the keys.
use Prim.Native.Nat.{compare, Ordering}
use precept.Base.{ℕ, ◌&&◌, ◌||◌, List, [], ◌∷◌, ◌≡◌, refl, arith, ◌==◌}
use precept.Paircheck.Summary.{KeyOrder, Parameters, contains, indices_of, with_index}
use precept.Paircheck.Summary.Learned.{AreSorted, is_eq, contains-with}

compare_refl : (a : ℕ) → compare a a ≡ Ordering.eq
compare_refl a = ground arith

compare_same : (a b : ℕ) → compare a b ≡ Ordering.eq → a ≡ b
compare_same a b h = ground arith

compare_lt : (a b : ℕ) → compare a b ≡ Ordering.lt → compare b a ≡ Ordering.gt
compare_lt a b h = ground arith

compare_gt : (a b : ℕ) → compare a b ≡ Ordering.gt → compare b a ≡ Ordering.lt
compare_gt a b h = ground arith

compare_trans :
    (a b c : ℕ) → compare a b ≡ Ordering.lt → compare b c ≡ Ordering.lt → compare a c ≡ Ordering.lt
compare_trans a b c h k = ground arith

abbrev numbers : KeyOrder ℕ
numbers = record {
  order = compare;
  refl_eq = compare_refl;
  eq_same = compare_same;
  lt_gt = compare_lt;
  gt_lt = compare_gt;
  lt_trans = compare_trans;
}

abbrev of_key : ℕ → List ℕ → Parameters numbers
of_key key indices = record { key = key; indices = indices }

abbrev sample : List (Parameters numbers)
sample = of_key 3 (0 ∷ 2 ∷ []) ∷ of_key 7 (1 ∷ []) ∷ []

with_index-between :
    with_index numbers sample 3 1 ≡ of_key 3 (0 ∷ 1 ∷ 2 ∷ []) ∷ of_key 7 (1 ∷ []) ∷ []
unfolding with_index
with_index-between = refl

with_index-new :
    with_index numbers sample 5 4
    ≡ of_key 3 (0 ∷ 2 ∷ []) ∷ of_key 5 (4 ∷ []) ∷ of_key 7 (1 ∷ []) ∷ []
unfolding with_index
with_index-new = refl

sample-AreSorted : AreSorted numbers sample
sample-AreSorted = ((refl, tt), ((omega arith, tt), (tt, tt)), (tt, (tt, tt), tt))

contains-with_example :
    AreSorted numbers (with_index numbers sample 5 4)
    × ((k : ℕ) (i : ℕ)
        → contains numbers (indices_of numbers (with_index numbers sample 5 4) k) i ≡ (
            is_eq numbers (compare 5 k) && 4 == i
            || contains numbers (indices_of numbers sample k) i))
contains-with_example = contains-with numbers sample 5 4 sample-AreSorted
