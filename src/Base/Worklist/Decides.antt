-- ===== src/Base/Worklist/Decides.antt =====
-- The loop over a work list ends, and decides whether a point that fails can be reached.
use Prim.Native.Nat.{ℕ, zero, suc, ◌+◌, ◌*◌, ◌≤◌, ◌<◌}
use mathlib.Core.Path.{◌≡◌, refl}
use mathlib.Core.Logic.{◌↔◌, inl, inr}
use mathlib.Core.Bool.{Bool, true, false}
use mathlib.Core.Option.{Option, some}
use mathlib.Core.List.{List, [], ◌∷◌, ◌++◌, reverse, Memᴰ}
use mathlib.Core.List.Memᴰ
use native.Mathlib.Omega.{arith}
use precept.Base.Lists.{length, length-append}
use precept.Base.Members.{mem-of_reverse, length-reverse}
use precept.Base.Finite.{sum_by, sum_by-lt, mul-le}
use precept.Base.Tests.{Bool-cases, Option-cases, if◌then◌else◌}
use precept.Base.Worklist.{has, none_fails, starts, Fails, none_fails-true, none_fails-false}

module _ {A : Type 0} (same : A → A → Bool)
    (same_iff : (a b : A) → (same a b ≡ true) ↔ (a ≡ b)) where
  -- The points of a list not yet visited.
  abbrev new_at : List A → A → ℕ
  new_at visited x = if has same visited x then 0 else 1

  abbrev pub left : List A → List A → ℕ
  left universe visited = sum_by (new_at visited) universe

  left-lower :
      (universe visited : List A) (x : A)
      → Memᴰ x universe
      → has same visited x ≡ false
      → left universe (x ∷ visited) < left universe visited
  left-lower universe visited x m e =
      sum_by-lt (new_at (x ∷ visited)) (new_at visited) universe (λ y. ground arith) m
        (ground (arith, e, (same_iff x x).1 refl))

  module _ (step : A → Option (List A)) (universe : List A) (fan : ℕ) where
    -- Every point goes on to at most so many points, within the universe.
    pub record IsBounded : Type 0 where
      pub inside :
          (x : A) (next : List A) → step x ≡ some next → (y : A) → Memᴰ y next → Memᴰ y universe
      pub few : (x : A) (next : List A) → step x ≡ some next → length next ≤ fan

    module _ (bounded : IsBounded) where
      none_fails-ends :
          (fuel : ℕ) (pending visited : List A)
          → ((x : A) → Memᴰ x pending → Memᴰ x universe)
          → left universe visited * suc fan + length pending ≤ fuel
          → (b : Bool) × (none_fails same step fuel pending visited ≡ some b)
      unfolding none_fails
      none_fails-ends fuel [] visited inside enough = (true, refl)
      none_fails-ends zero (x ∷ pending) visited inside enough = absurd (omega arith)
      none_fails-ends (suc fuel) (x ∷ pending) visited inside enough =
          elim (Bool-cases (has same visited x)) [
            | inl seen ↦
                rw (seen, none_fails)
                  (none_fails-ends fuel pending visited (λ y m. inside y (Memᴰ.tail m))
                    (omega (arith, enough)))
            | inr new ↦ elim (Option-cases (step x)) [
              | inl e ↦ (false, rw (new, e, none_fails) refl)
              | inr (next, e) ↦
                  rw (new, e, none_fails)
                    (none_fails-ends fuel (reverse next ++ pending) (x ∷ visited)
                      (λ y m. elim (Memᴰ.append_cases (reverse next) m) [
                        | inl k ↦ bounded.inside x next e y (mem-of_reverse next k)
                        | inr k ↦ inside y (Memᴰ.tail k)
                      ])
                      (omega (
                        arith,
                        enough,
                        mul-le (suc (left universe (x ∷ visited))) (left universe visited) (suc fan)
                            (left-lower universe visited x (inside x (Memᴰ.head refl)) new),
                        length-append (reverse next) pending,
                        length-reverse next,
                        bounded.few x next e,
                      )))
            ]
          ]

      -- With fuel for every point of the universe, the loop reports that none fails exactly where none that
      -- can be reached does.
      pub none_fails_iff :
          (start : List A)
          → ((x : A) → Memᴰ x start → Memᴰ x universe)
          → (fuel : ℕ) → left universe [] * suc fan + length start ≤ fuel
          → (b : Bool) × (none_fails same step fuel start [] ≡ some b)
            × ((b ≡ true) ↔ (¬ Fails same step start))
      none_fails_iff start inside fuel enough =
          let (b, e) = none_fails-ends fuel start [] inside enough in (b, e, by_result b e)
        where
          by_result :
              (b : Bool)
              → none_fails same step fuel start [] ≡ some b
              → (b ≡ true) ↔ (¬ Fails same step start)
          by_result true e = (λ h. none_fails-true same step same_iff fuel start e, λ h. refl)
          by_result false e = (
            λ h. cc,
            λ h.
                absurd
                  (h (none_fails-false same step same_iff start fuel start [] (λ x m. starts m) e)),
          )
