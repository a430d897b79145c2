-- ===== src/Paircheck/Flow/Correct.antt =====
-- What `leaks` of paircheck/flow.go and `follow` of paircheck/summary.go promise, over the paths of the
-- function they search.
use precept.Base.{
  ℕ, ◌≤◌, Bool, true, false, [], ◌∷◌, some, ◌≡◌, refl, sym, ◌∙◌, arith, ◌↔◌, inl, inr, Bool-cases,
  Option-cases, some_inj, subst, ap,
}
use precept.Paircheck.Flow.Types.{Search, State, Leak, leak_none}
use precept.Paircheck.Flow.Step.{advance}
use precept.Paircheck.Flow.Explore.{is_leak, Explored, explore, start, leaks}
use precept.Paircheck.Flow.Paths.{Reach}
use precept.Paircheck.Flow.Complete.{explore_complete}
use precept.Paircheck.Flow.Sound.{explore_sound}
use precept.Paircheck.Flow.Range.{InRange}
use precept.Paircheck.Flow.Terminates.{work, explore-ends}

-- The rounds that are enough for a search.
abbrev pub enough : Search → ℕ
enough s = work s (start s ∷ []) []

pub start-InRange : (s : Search) → InRange s (start s)
unfolding start
start-InRange s = record {
  at = record {
    block = omega arith;
    index = omega arith;
    open_count = omega arith;
    deferred = omega arith;
    closures = record { bytes = tt; short = omega arith };
  };
  failed = record { bytes = tt; short = omega arith };
}

pub explored :
    (s : Search) (first : Bool) (fuel : ℕ)
    → enough s ≤ fuel
    → (r : Explored) × (explore s first fuel (start s ∷ []) [] leak_none [] ≡ some r)
explored s first fuel h =
    explore-ends s first fuel (start s ∷ []) [] leak_none [] (start-InRange s, tt) h

-- The run that a result of `leaks` comes from.
leaks-run :
    (s : Search) (fuel : ℕ) (l : Leak)
    → leaks s fuel ≡ some l
    → (r : Explored) × (explore s true fuel (start s ∷ []) [] leak_none [] ≡ some r) × (r.found ≡ l)
unfolding leaks
leaks-run s fuel l h = elim (Option-cases (explore s true fuel (start s ∷ []) [] leak_none [])) [
  | inl e ↦ absurd (ground (arith, rw (e, leaks) at h))
  | inr (r, e) ↦ (r, e, some_inj (rw (e, leaks) at h))
]

-- With `enough` rounds, `leaks` returns a result: the search of any function ends.
pub leaks-ends : (s : Search) (fuel : ℕ) → enough s ≤ fuel → (l : Leak) × (leaks s fuel ≡ some l)
unfolding leaks
leaks-ends s fuel h = let (r, e) = explored s true fuel h in (r.found, rw (e, leaks) refl)

is_leak-none : (l : Leak) → (is_leak l ≡ true → is_leak leak_none ≡ true) → l ≡ leak_none
is_leak-none leak_none h = refl
is_leak-none _ h = absurd (ground (arith, h refl))

-- Where `leaks` finds no leak, no state of any path from the start leaks, whatever the protocol.
pub leaks_complete :
    (s : Search) (fuel : ℕ)
    → leaks s fuel ≡ some leak_none
    → {t : State} → Reach s (start s) t
    → (advance s t).leak ≡ leak_none
leaks_complete s fuel h {t} path =
    let (r, run, found) = leaks-run s fuel leak_none h in
    is_leak-none (advance s t).leak (
      subst (λ (l : Leak). is_leak (advance s t).leak ≡ true → is_leak l ≡ true) found
        (explore_complete s true fuel (start s) r run (ap is_leak found) path).0)

-- Where the protocol is not on-success, a leak that `leaks` returns is the leak of a state of a path
-- from the start.
pub leaks_sound :
    (s : Search) (fuel : ℕ) (l : Leak)
    → s.protocol.on_success ≡ false
    → leaks s fuel ≡ some l
    → is_leak l ≡ true
    → (t : State) × Reach s (start s) t × ((advance s t).leak ≡ l)
unfolding start
leaks_sound s fuel l plain h leaked =
    let (r, run, found) = leaks-run s fuel l h in
    subst
      (λ (x : Leak).
        is_leak x ≡ true → (t : State) × Reach s (start s) t × ((advance s t).leak ≡ x))
      found (explore_sound s true fuel (start s) r plain refl run).leaks leaked

-- No state of any path from the start leaks.
abbrev pub NothingLeaks : Search → Type 0
NothingLeaks s = (t : State) → Reach s (start s) t → (advance s t).leak ≡ leak_none

-- With `enough` rounds and a protocol that is not on-success, `leaks` returns no leak exactly where no
-- state of any path from the start leaks.
pub leaks_iff :
    (s : Search) (fuel : ℕ)
    → s.protocol.on_success ≡ false
    → enough s ≤ fuel
    → (leaks s fuel ≡ some leak_none) ↔ NothingLeaks s
leaks_iff s fuel plain h = (
  λ e t path. leaks_complete s fuel e path,
  λ clean.
      let (l, e) = leaks-ends s fuel h in
      e
      ∙ ap some (elim (Bool-cases (is_leak l)) [
        | inl leaked ↦
            let (t, path, same) = leaks_sound s fuel l plain e leaked in sym same ∙ clean t path
        | inr nothing ↦ is_leak-none l (λ leaked. absurd (ground (arith, nothing, leaked)))
      ]),
)
