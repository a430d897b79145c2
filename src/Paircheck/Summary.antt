-- ===== src/Paircheck/Summary.antt =====
-- The lists of a summary (paircheck/summary.go): for each key of a protocol the parameters it is said of,
-- sorted by key and then by parameter. Go's comparison of keys is a parameter, with the laws of an order. A
-- binary search of package slices is the first place, in a sorted list, that is not below what is sought.
pub mod Learned
use Prim.Native.Nat.{compare, Ordering}
use precept.Base.{
  ℕ, Bool, true, false, ◌&&◌, ◌||◌, List, [], ◌∷◌, Option, none, some, ◌≡◌, ◌==◌, ltb,
  if◌then◌else◌, contains_func,
}

pub record KeyOrder (K : Type 0) : Type 0 where
  pub order : K → K → Ordering
  pub refl_eq : (a : K) → order a a ≡ Ordering.eq
  pub eq_same : (a b : K) → order a b ≡ Ordering.eq → a ≡ b
  pub lt_gt : (a b : K) → order a b ≡ Ordering.lt → order b a ≡ Ordering.gt
  pub gt_lt : (a b : K) → order a b ≡ Ordering.gt → order b a ≡ Ordering.lt
  pub lt_trans :
      (a b c : K) → order a b ≡ Ordering.lt → order b c ≡ Ordering.lt → order a c ≡ Ordering.lt

module _ {K : Type 0} (keys : KeyOrder K) where
  pub record Parameters : Type 0 where
    pub key : K
    pub indices : List ℕ

  pub record Summary : Type 0 where
    pub discharged : List Parameters
    pub kept : List Parameters

  -- slices.Contains
  abbrev pub contains : List ℕ → ℕ → Bool
  contains indices index = contains_func indices (λ i. i == index)

  abbrev pub indices_by : Ordering → List ℕ → List ℕ → List ℕ
  indices_by Ordering.lt here rest = rest
  indices_by Ordering.eq here rest = here
  indices_by Ordering.gt here rest = []

  unfoldable pub indices_of : List Parameters → K → List ℕ
  indices_of [] key = []
  indices_of (first ∷ lists) key =
      indices_by (keys.order first.key key) first.indices (indices_of lists key)

  abbrev pub insert_by : Ordering → ℕ → List ℕ → List ℕ → ℕ → List ℕ
  insert_by Ordering.lt i indices rest index = i ∷ rest
  insert_by Ordering.eq i indices rest index = i ∷ indices
  insert_by Ordering.gt i indices rest index = index ∷ i ∷ indices

  -- An index put in its place, where it is not there.
  unfoldable pub insert_index : ℕ → List ℕ → List ℕ
  insert_index index [] = index ∷ []
  insert_index index (i ∷ indices) =
      insert_by (compare i index) i indices (insert_index index indices) index

  abbrev pub with_by :
      Ordering → Parameters → List Parameters → List Parameters → K → ℕ → List Parameters
  with_by Ordering.lt first lists rest key index = first ∷ rest
  with_by Ordering.eq first lists rest key index =
      record first { indices = insert_index index first.indices } ∷ lists
  with_by Ordering.gt first lists rest key index =
      record { key = key; indices = index ∷ [] } ∷ first ∷ lists

  unfoldable pub with_index : List Parameters → K → ℕ → List Parameters
  unfolding insert_index
  with_index [] key index = record { key = key; indices = index ∷ [] } ∷ []
  with_index (first ∷ lists) key index =
      with_by (keys.order first.key key) first lists (with_index lists key index) key index

  -- Whether a summary says anything of a parameter, none where the function has no summary.
  unfoldable pub holds : Option Summary → K → ℕ → Bool
  unfolding indices_of
  holds none key index = false
  holds (some s) key index =
      contains (indices_of s.discharged key) index || contains (indices_of s.kept key) index
