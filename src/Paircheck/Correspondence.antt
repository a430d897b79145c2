-- ===== src/Paircheck/Correspondence.antt =====
-- Whether two types differ only in type parameters that stand for one another (paircheck/correspondence.go).
pub mod Renaming
pub mod Unify
use precept.Base.{
  ℕ, suc, Bool, true, false, ◌&&◌, List, [], ◌∷◌, Option, none, some, ◌==◌, if◌then◌else◌,
}
use precept.Paircheck.Types.{
  Shape, GoType, type_param, composite, alias, other, Types, no_types, type_and, GoTypes, unalias,
  same_shape,
}

-- The two maps, as the pairs written to them, the last first.
pub record Correspondence : Type 0 where
  pub forward : List (ℕ × ℕ)
  pub backward : List (ℕ × ℕ)

unfoldable pub lookup : List (ℕ × ℕ) → ℕ → Option ℕ
lookup [] key = none
lookup ((k, v) ∷ entries) key = if k == key then some v else lookup entries key

abbrev pub paired : Correspondence → ℕ → ℕ → Option ℕ → Option ℕ → Option Correspondence
paired c first second (some found) _ = if found == second then some c else none
paired c first second none (some found) = if found == first then some c else none
paired c first second none none =
    some (record { forward = (first, second) ∷ c.forward; backward = (second, first) ∷ c.backward })

-- What is recorded after `pair`, if it reports true.
unfoldable pub pair : Correspondence → ℕ → ℕ → Option Correspondence
unfolding lookup
pair c first second = paired c first second (lookup c.forward first) (lookup c.backward second)

abbrev pub pair_with : Correspondence → ℕ → GoType → Option Correspondence
pair_with c parameter (type_param i) = pair c parameter i
pair_with c parameter _ = none

abbrev pub count : Types → ℕ
count no_types = 0
count (type_and t ts) = suc (count ts)

-- The parts of a type of this shape with this many parts.
abbrev pub parts_like : Shape → ℕ → GoType → Option Types
parts_like shape n (composite shape' parts) =
    if same_shape shape shape' && n == count parts then some parts else none
parts_like shape n _ = none

abbrev pub and_then :
    Option Correspondence → (Correspondence → Option Correspondence) → Option Correspondence
and_then none f = none
and_then (some c) f = f c

module _ (go : GoTypes) where
  abbrev pub identical_with : Correspondence → ℕ → GoType → Option Correspondence
  identical_with c i second = if go.identical (other i) second then some c else none

  -- What is recorded after `unify`, if it reports true, and after its loop over the parts.
  unfoldable mutual
    unfolding pair unalias same_shape

    pub unify : GoType → Correspondence → GoType → Option Correspondence
    unify (type_param i) c second = pair_with c i (unalias second)
    unify (composite shape parts) c second =
        elim (parts_like shape (count parts) (unalias second)) [
          | none ↦ none
          | some others ↦ unify_all parts c others
        ]
    unify (alias first) c second = unify first c second
    unify (other i) c second = identical_with c i (unalias second)

    pub unify_all : Types → Correspondence → Types → Option Correspondence
    unify_all no_types c others = some c
    unify_all (type_and first parts) c no_types = none
    unify_all (type_and first parts) c (type_and second others) =
        and_then (unify first c second) (λ c'. unify_all parts c' others)

  unfoldable pub correspond : GoType → GoType → Bool
  unfolding unify
  correspond first second = elim (unify first (record { forward = []; backward = [] }) second) [
    | none ↦ false
    | some c ↦ true
  ]
