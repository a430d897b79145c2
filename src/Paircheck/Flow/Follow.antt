-- ===== src/Paircheck/Flow/Follow.antt =====
-- What `follow` of paircheck/summary.go promises of a function that a value is handed to, over the paths
-- of that function.
use precept.Base.{
  ℕ, ◌≤◌, Bool, true, false, List, [], ◌∷◌, some, ◌≡◌, refl, sym, arith, ◌↔◌, inl, inr, Bool-cases,
  Option-cases, some_inj, subst, Memᴰ,
}
use mathlib.Core.List.Memᴰ
use precept.Paircheck.Flow.Types.{
  Search, State, leak_none, Ending, end_none, end_discharged, end_open, end_transferred,
  end_abandoned,
}
use precept.Paircheck.Flow.Step.{advance}
use precept.Paircheck.Flow.Explore.{
  Explored, explore, start, helper, same_ending, ends, judged, follow,
}
use precept.Paircheck.Flow.Paths.{Reach}
use precept.Paircheck.Flow.Complete.{explore_complete}
use precept.Paircheck.Flow.Sound.{explore_sound}
use precept.Paircheck.Flow.Correct.{enough, explored}

same_ending_refl : (e : Ending) → same_ending e e ≡ true
same_ending_refl end_none = refl
same_ending_refl end_discharged = refl
same_ending_refl end_open = refl
same_ending_refl end_transferred = refl
same_ending_refl end_abandoned = refl

eq_of_same_ending : (e f : Ending) → same_ending e f ≡ true → f ≡ e
eq_of_same_ending end_none end_none h = refl
eq_of_same_ending end_discharged end_discharged h = refl
eq_of_same_ending end_open end_open h = refl
eq_of_same_ending end_transferred end_transferred h = refl
eq_of_same_ending end_abandoned end_abandoned h = refl
eq_of_same_ending _ _ h = cc

ends-of_mem : (es : List Ending) (e : Ending) → Memᴰ e es → ends es e ≡ true
ends-of_mem [] e m = absurd (Memᴰ.not-nil m)
ends-of_mem (x ∷ es) e (Memᴰ.head same) =
    subst (λ (y : Ending). ends (y ∷ es) e ≡ true) same (rw (same_ending_refl e) refl)
ends-of_mem (x ∷ es) e (Memᴰ.tail m) = ground (arith, ends-of_mem es e m)

mem-of_ends : (es : List Ending) (e : Ending) → ends es e ≡ true → Memᴰ e es
mem-of_ends [] e h = cc
mem-of_ends (x ∷ es) e h = elim (Bool-cases (same_ending e x)) [
  | inl same ↦ Memᴰ.head (sym (eq_of_same_ending e x same))
  | inr other ↦ Memᴰ.tail (mem-of_ends es e (rw other at h))
]

-- On some path of the function that the parameter belongs to, the value ends that way.
abbrev pub Ends : Search → ℕ → Ending → Type 0
Ends s parameter e =
    (t : State) × Reach (helper s parameter) (start (helper s parameter)) t
    × Memᴰ e (advance (helper s parameter) t).ended

follow-run :
    (s : Search) (parameter fuel : ℕ) (j : Bool × Bool)
    → follow s parameter fuel ≡ some j
    → (r : Explored) × (explore
          (helper s parameter)
          false
          fuel
          (start (helper s parameter) ∷ [])
          []
          leak_none
          []
        ≡ some r)
      × (judged r.ended ≡ j)
unfolding follow
follow-run s parameter fuel j h =
    elim (Option-cases
      (explore (helper s parameter) false fuel (start (helper s parameter) ∷ []) [] leak_none [])) [
        | inl e ↦ absurd (ground (arith, rw (e, follow) at h))
        | inr (r, e) ↦ (r, e, some_inj (rw (e, follow) at h))
      ]

-- An ending is noted by the search exactly where it is the ending of a path.
noted_iff :
    (s : Search) (parameter fuel : ℕ) (r : Explored) (e : Ending)
    → explore (helper s parameter) false fuel (start (helper s parameter) ∷ []) [] leak_none []
      ≡ some r
    → ((ends r.ended e ≡ true → Ends s parameter e) × (Ends s parameter e → ends r.ended e ≡ true))
unfolding start
noted_iff s parameter fuel r e run = (
  λ h.
      (explore_sound (helper s parameter) false fuel (start (helper s parameter)) r refl refl
          run).ends
        e (mem-of_ends r.ended e h),
  λ (t, path, m). ends-of_mem r.ended e (
      (explore_complete (helper s parameter) false fuel (start (helper s parameter)) r run refl
          path).1
        e m),
)

-- With `enough` rounds, `follow` returns a result.
pub follow-ends :
    (s : Search) (parameter fuel : ℕ)
    → enough (helper s parameter) ≤ fuel
    → (j : Bool × Bool) × (follow s parameter fuel ≡ some j)
unfolding follow
follow-ends s parameter fuel h =
    let (r, e) = explored (helper s parameter) false fuel h in (judged r.ended, rw (e, follow) refl)

judged-discharges_iff :
    (es : List Ending)
    → ((judged es).0 ≡ true) ↔ (
        (ends es end_discharged ≡ true)
        × (ends es end_open ≡ false)
        × (ends es end_transferred ≡ false))
unfolding judged
judged-discharges_iff es = (λ h. ground (arith, h), λ (d, o, t). ground (arith, d, o, t))

judged-keeps_iff :
    (es : List Ending)
    → ((judged es).1 ≡ true) ↔ (
        (ends es end_open ≡ true)
        × (ends es end_discharged ≡ false)
        × (ends es end_transferred ≡ false))
unfolding judged
judged-keeps_iff es = (λ h. ground (arith, h), λ (o, d, t). ground (arith, d, o, t))

-- A test is false exactly where its proposition is not provable.
false_iff : {P : Type 0} (b : Bool) → ((b ≡ true → P) × (P → b ≡ true)) → ((b ≡ false) ↔ (P → ⊥))
false_iff true (to, from) = (λ h. cc, λ no. absurd (no (to refl)))
false_iff false (to, from) = (λ h p. ground (arith, from p), λ no. refl)

-- `follow` says that a function discharges its parameter exactly where some path
-- of the function discharges it, and no path hands it over or ends with it open.
pub follow-discharges :
    (s : Search) (parameter fuel : ℕ) (j : Bool × Bool)
    → follow s parameter fuel ≡ some j
    → (j.0 ≡ true) ↔ (
        Ends s parameter end_discharged
        × ¬ Ends s parameter end_open
        × ¬ Ends s parameter end_transferred)
follow-discharges s parameter fuel j h =
    let (r, run, same) = follow-run s parameter fuel j h in
    let noted = noted_iff s parameter fuel r in
    subst
      (λ (x : Bool × Bool). (x.0 ≡ true) ↔ (
        Ends s parameter end_discharged
        × ¬ Ends s parameter end_open
        × ¬ Ends s parameter end_transferred))
      same
      (
        λ yes.
            let (d, o, t) = (judged-discharges_iff r.ended).0 yes in
            (
              (noted end_discharged run).0 d,
              (false_iff _ (noted end_open run)).0 o,
              (false_iff _ (noted end_transferred run)).0 t,
            ),
        λ (d, o, t). (judged-discharges_iff r.ended).1 (
          (noted end_discharged run).1 d,
          (false_iff _ (noted end_open run)).1 o,
          (false_iff _ (noted end_transferred run)).1 t,
        ),
      )

-- `follow` says that a function keeps its parameter exactly where some path of the function ends with
-- it open, and no path discharges it or hands it over.
pub follow-keeps :
    (s : Search) (parameter fuel : ℕ) (j : Bool × Bool)
    → follow s parameter fuel ≡ some j
    → (j.1 ≡ true) ↔ (
        Ends s parameter end_open
        × ¬ Ends s parameter end_discharged
        × ¬ Ends s parameter end_transferred)
follow-keeps s parameter fuel j h =
    let (r, run, same) = follow-run s parameter fuel j h in
    let noted = noted_iff s parameter fuel r in
    subst
      (λ (x : Bool × Bool). (x.1 ≡ true) ↔ (
        Ends s parameter end_open
        × ¬ Ends s parameter end_discharged
        × ¬ Ends s parameter end_transferred))
      same
      (
        λ yes.
            let (o, d, t) = (judged-keeps_iff r.ended).0 yes in
            (
              (noted end_open run).0 o,
              (false_iff _ (noted end_discharged run)).0 d,
              (false_iff _ (noted end_transferred run)).0 t,
            ),
        λ (o, d, t). (judged-keeps_iff r.ended).1 (
          (noted end_open run).1 o,
          (false_iff _ (noted end_discharged run)).1 d,
          (false_iff _ (noted end_transferred run)).1 t,
        ),
      )
