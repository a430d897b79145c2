-- ===== src/Base/Worklist.antt =====
-- A loop over a work list that skips what it has visited and stops where a point fails: it decides whether a
-- point that fails can be reached, and it ends.
pub mod Decides
use Prim.Native.Nat.{ℕ, zero, suc, ◌+◌, ◌*◌, ◌≤◌, ◌<◌}
use mathlib.Core.Path.{◌≡◌, refl, sym, subst, ◌∙◌}
use mathlib.Core.Logic.{◌↔◌, ◌⊎◌, inl, inr}
use mathlib.Core.Bool.{Bool, true, false, ◌||◌}
use mathlib.Core.Option.{Option, none, some}
use mathlib.Core.List.{List, [], ◌∷◌, ◌++◌, reverse, Memᴰ}
use mathlib.Core.List.Memᴰ
use native.Mathlib.Omega.{arith}
use precept.Base.Lists.{All, contains_func, length, length-append}
use precept.Base.Members.{
  All-append, All-mem, All-of_mem, mem-reverse, mem-of_reverse, length-reverse,
}
use precept.Base.Finite.{sum_by, sum_by-le, sum_by-lt}
use precept.Base.Tests.{Bool-cases, Option-cases, some_inj, if◌then◌else◌, or_true}

module _ {A : Type 0} (same : A → A → Bool) where
  abbrev pub has : List A → A → Bool
  has visited x = contains_func visited (λ v. same v x)

  module _ (step : A → Option (List A)) where
    -- Whether no point fails, of those pending, the last first, and those after them; none where the fuel
    -- runs out.
    unfoldable pub none_fails : ℕ → List A → List A → Option Bool
    none_fails fuel [] visited = some true
    none_fails zero (x ∷ pending) visited = none
    none_fails (suc fuel) (x ∷ pending) visited = elim (has visited x) [
      | true ↦ none_fails fuel pending visited
      | false ↦ elim (step x) [
        | none ↦ some false
        | some next ↦ none_fails fuel (reverse next ++ pending) (x ∷ visited)
      ]
    ]

    pub data Reached (start : List A) : A → Type 0 where
      starts : {x : A} → Memᴰ x start → Reached start x
      follows :
          {x y : A} {next : List A}
          → Reached start x
          → step x ≡ some next
          → Memᴰ y next
          → Reached start y

    -- Each point visited goes on to points visited or pending.
    abbrev Covered : List A → List A → Type 0
    Covered pending visited =
        (x : A)
        → Memᴰ x visited
        → (next : List A) × (step x ≡ some next)
          × ((y : A) → Memᴰ y next → Memᴰ y visited ⊎ Memᴰ y pending)

    -- Points among which none fails, and that go on to one another.
    abbrev Closed : List A → Type 0
    Closed closed =
        (x : A)
        → Memᴰ x closed
        → (next : List A) × (step x ≡ some next) × ((y : A) → Memᴰ y next → Memᴰ y closed)

    abbrev Fine : List A → List A → Type 0
    Fine pending visited =
        (closed : List A) × ((x : A) → Memᴰ x pending → Memᴰ x closed)
        × ((x : A) → Memᴰ x visited → Memᴰ x closed)
        × Closed closed

    -- One that can be reached fails.
    abbrev pub Fails : List A → Type 0
    Fails start = (x : A) × Reached start x × (step x ≡ none)

    Closed-Reached :
        (start closed : List A) {x : A}
        → ((y : A) → Memᴰ y start → Memᴰ y closed)
        → Closed closed
        → Reached start x
        → Memᴰ x closed
    Closed-Reached start closed h all (starts m) = h _ m
    Closed-Reached start closed {x = y} h all (follows {x} {next} r e m) =
        let (next', e', inside) = all x (Closed-Reached start closed h all r) in
        inside y (subst (Memᴰ y) (some_inj (sym e ∙ e')) m)

    -- What was pending but for its first point is still.
    moved :
        (x y : A) (next pending visited : List A)
        → Memᴰ y visited ⊎ Memᴰ y (x ∷ pending)
        → Memᴰ y (x ∷ visited) ⊎ Memᴰ y (reverse next ++ pending)
    moved x y next pending visited (inl m) = inl (Memᴰ.tail m)
    moved x y next pending visited (inr (Memᴰ.head e)) = inl (Memᴰ.head e)
    moved x y next pending visited (inr (Memᴰ.tail m)) = inr (Memᴰ.append_right (reverse next) m)

    skipped :
        (x y : A) (pending visited : List A)
        → Memᴰ x visited
        → Memᴰ y visited ⊎ Memᴰ y (x ∷ pending)
        → Memᴰ y visited ⊎ Memᴰ y pending
    skipped x y pending visited seen (inl m) = inl m
    skipped x y pending visited seen (inr (Memᴰ.head e)) =
        inl (subst (λ (z : A). Memᴰ z visited) (sym e) seen)
    skipped x y pending visited seen (inr (Memᴰ.tail m)) = inr m

    all_visited : (y : A) (visited : List A) → Memᴰ y visited ⊎ Memᴰ y [] → Memᴰ y visited
    all_visited y visited (inl m) = m
    all_visited y visited (inr m) = absurd (Memᴰ.not-nil m)

    -- Every point of a list that has `x` first.
    first_or :
        (closed : List A) (x : A) (pending : List A)
        → Memᴰ x closed
        → ((y : A) → Memᴰ y pending → Memᴰ y closed)
        → (y : A) → Memᴰ y (x ∷ pending)
        → Memᴰ y closed
    first_or closed x pending m h y (Memᴰ.head e) = subst (λ (z : A). Memᴰ z closed) (sym e) m
    first_or closed x pending m h y (Memᴰ.tail k) = h y k

    Covered-skipped :
        (x : A) (pending visited : List A)
        → Memᴰ x visited
        → Covered (x ∷ pending) visited
        → Covered pending visited
    Covered-skipped x pending visited seen covered v m =
        let (next, e, inside) = covered v m in
        (next, e, λ y k. skipped x y pending visited seen (inside y k))

    Covered-nil : (visited : List A) → Covered [] visited → Closed visited
    Covered-nil visited covered v m =
        let (next, e, inside) = covered v m in (next, e, λ y k. all_visited y visited (inside y k))

    Covered-pushed :
        (x : A) (next pending visited : List A)
        → Covered (x ∷ pending) visited
        → step x ≡ some next
        → Covered (reverse next ++ pending) (x ∷ visited)
    Covered-pushed x next pending visited covered e v (Memᴰ.head same_x) = (
      next,
      subst (λ (w : A). step w ≡ some next) (sym same_x) e,
      λ y m. inr (Memᴰ.append_left pending (mem-reverse next m)),
    )
    Covered-pushed x next pending visited covered e v (Memᴰ.tail m) =
        let (after, e', inside) = covered v m in
        (after, e', λ y k. moved x y next pending visited (inside y k))

    module _ (same_iff : (a b : A) → (same a b ≡ true) ↔ (a ≡ b)) where
      mem-has : (visited : List A) (x : A) → has visited x ≡ true → Memᴰ x visited
      mem-has [] x h = cc
      mem-has (v ∷ visited) x h = elim (or_true (same v x) (has visited x) h) [
        | inl e ↦ Memᴰ.head (sym ((same_iff v x).0 e))
        | inr e ↦ Memᴰ.tail (mem-has visited x e)
      ]

      none_fails-Fine :
          (fuel : ℕ) (pending visited : List A)
          → Covered pending visited
          → none_fails fuel pending visited ≡ some true
          → Fine pending visited
      unfolding none_fails
      none_fails-Fine fuel [] visited covered h =
          (visited, (λ x m. absurd (Memᴰ.not-nil m)), (λ x m. m), Covered-nil visited covered)
      none_fails-Fine zero (x ∷ pending) visited covered h = cc
      none_fails-Fine (suc fuel) (x ∷ pending) visited covered h =
          elim (Bool-cases (has visited x)) [
            | inl seen ↦
                let there = mem-has visited x seen in
                let (closed, p, v, c) =
                  none_fails-Fine fuel pending visited
                    (Covered-skipped x pending visited there covered)
                    (rw (seen, none_fails) at h) in
                (closed, first_or closed x pending (v x there) p, v, c)
            | inr new ↦ elim (Option-cases (step x)) [
              | inl e ↦ absurd (ground (arith, rw (new, e, none_fails) at h))
              | inr (next, e) ↦
                  let (closed, p, v, c) =
                    none_fails-Fine fuel (reverse next ++ pending) (x ∷ visited)
                      (Covered-pushed x next pending visited covered e)
                      (rw (new, e, none_fails) at h) in
                  (
                    closed,
                    first_or closed x pending (v x (Memᴰ.head refl))
                        (λ y m. p y (Memᴰ.append_right (reverse next) m)),
                    (λ y m. v y (Memᴰ.tail m)),
                    c,
                  )
            ]
          ]

      -- A result of true: no point that can be reached fails.
      pub none_fails-true :
          (fuel : ℕ) (start : List A) → none_fails fuel start [] ≡ some true → ¬ Fails start
      none_fails-true fuel start h (x, r, e) =
          let (closed, p, v, c) =
            none_fails-Fine fuel start [] (λ y m. absurd (Memᴰ.not-nil m)) h in
          let (next, e', inside) = c x (Closed-Reached start closed p c r) in
          absurd (ground (arith, e, e'))

      -- A result of false: a point that can be reached fails.
      pub none_fails-false :
          (start : List A) (fuel : ℕ) (pending visited : List A)
          → ((x : A) → Memᴰ x pending → Reached start x)
          → none_fails fuel pending visited ≡ some false
          → Fails start
      unfolding none_fails
      none_fails-false start fuel [] visited reached h = cc
      none_fails-false start zero (x ∷ pending) visited reached h = cc
      none_fails-false start (suc fuel) (x ∷ pending) visited reached h =
          elim (Bool-cases (has visited x)) [
            | inl seen ↦
                none_fails-false start fuel pending visited (λ y m. reached y (Memᴰ.tail m))
                  (rw (seen, none_fails) at h)
            | inr new ↦ elim (Option-cases (step x)) [
              | inl e ↦ (x, reached x (Memᴰ.head refl), e)
              | inr (next, e) ↦
                  none_fails-false start fuel (reverse next ++ pending) (x ∷ visited)
                    (λ y m. elim (Memᴰ.append_cases (reverse next) m) [
                      | inl k ↦ follows (reached x (Memᴰ.head refl)) e (mem-of_reverse next k)
                      | inr k ↦ reached y (Memᴰ.tail k)
                    ])
                    (rw (new, e, none_fails) at h)
            ]
          ]
