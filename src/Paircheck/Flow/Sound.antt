-- ===== src/Paircheck/Flow/Sound.antt =====
-- What the search of paircheck/flow.go finds is on a path, where the protocol is not on-success: a
-- state then knows no failures, and no two states of a point are merged.
use precept.Base.{
  ℕ, zero, suc, Bool, true, false, ◌&&◌, List, [], ◌∷◌, ◌++◌, some, ◌≡◌, refl, sym, ◌∙◌, inl, inr,
  Bool-cases, Option-cases, some_inj, subst, Memᴰ, reverse, All,
}
use mathlib.Core.List.Memᴰ
use precept.Base.Members.{mem-of_reverse, All-append, All-of_mem}
use precept.Paircheck.Proven.{Proven}
use precept.Paircheck.Flow.Types.{Search, Point, State, Leak, leak_none, Ending}
use precept.Paircheck.Flow.Step.{advance}
use precept.Paircheck.Flow.Explore.{
  Searched, known_at, revisit, is_leak, first_leak, Explored, explore,
}
use precept.Paircheck.Flow.Paths.{Reach, here, onward}
use precept.Paircheck.Flow.Points.{known_at-cons, revisit-nothing}
use precept.Paircheck.Flow.Plain.{next-clean, advance-plain}

module _ (s : Search) (start : State) where
  -- A state of a path, which knows no failures.
  abbrev Live : State → Type 0
  Live u = Reach s start u × (u.failed ≡ [])

  -- A leak found is the leak of a state of a path, and an ending noted the ending of one.
  pub record Witnessed (found : Leak) (ended : List Ending) : Type 0 where
    pub leaks : is_leak found ≡ true → (t : State) × Reach s start t × ((advance s t).leak ≡ found)
    pub ends :
        (e : Ending) → Memᴰ e ended → (t : State) × Reach s start t × Memᴰ e (advance s t).ended

  Witnessed-advance :
      (u : State) (found : Leak) (ended : List Ending)
      → Reach s start u
      → Witnessed found ended
      → Witnessed (first_leak found (advance s u).leak) ((advance s u).ended ++ ended)
  Witnessed-advance u found ended path w = record {
    leaks = first found w.leaks;
    ends = λ e m. elim (Memᴰ.append_cases (advance s u).ended m) [
      | inl now ↦ (u, path, now)
      | inr before ↦ w.ends e before
    ];
  }
    where
      first :
          (f : Leak)
          → (is_leak f ≡ true → (t : State) × Reach s start t × ((advance s t).leak ≡ f))
          → is_leak (first_leak f (advance s u).leak) ≡ true
          → (t : State) × Reach s start t × ((advance s t).leak ≡ first_leak f (advance s u).leak)
      first leak_none h l = (u, path, refl)
      first _ h l = h refl

  module _ (plain : s.protocol.on_success ≡ false) where
    Live-next :
        (u : State) (pending : List State)
        → Live u
        → All Live pending
        → All Live (reverse (advance s u).next ++ pending)
    Live-next u pending (path, none_known) live =
        All-append Live (reverse (advance s u).next) pending
          (All-of_mem Live (reverse (advance s u).next) (λ v m. follows v (mem-of_reverse _ m)))
          live
      where
        follows : (v : State) → Memᴰ v (advance s u).next → Live v
        follows v m = (onward path (next-clean s u m) m, advance-plain s plain u v m ∙ none_known)

    abbrev NothingKnown : Searched → Type 0
    NothingKnown searched = (p : Point) (k : Proven) → known_at searched p ≡ some k → k ≡ []

    NothingKnown-cons :
        (u : State) (searched : Searched)
        → u.failed ≡ []
        → NothingKnown searched
        → NothingKnown ((u.at, u.failed) ∷ searched)
    NothingKnown-cons u searched e h p k known = elim (known_at-cons u.at p u.failed searched) [
      | inl (same, found) ↦ some_inj (sym known ∙ found) ∙ e
      | inr same ↦ h p k (sym same ∙ known)
    ]

    explore-Witnessed :
        (first : Bool) (fuel : ℕ) (pending : List State) (searched : Searched) (found : Leak)
        (ended : List Ending) (r : Explored)
        → explore s first fuel pending searched found ended ≡ some r
        → All Live pending
        → NothingKnown searched
        → Witnessed found ended
        → Witnessed r.found r.ended
    unfolding explore
    explore-Witnessed first fuel [] searched found ended r run live known w =
        subst (λ (x : Explored). Witnessed x.found x.ended) (some_inj run) w
    explore-Witnessed first zero (c ∷ pending) searched found ended r run live known w = cc
    explore-Witnessed first (suc fuel) (c ∷ pending) searched found ended r run (now, live) known
          w =
        elim (Option-cases (known_at searched c.at)) [
          | inl new ↦
              let w' = Witnessed-advance c found ended now.0 w in
              elim (Bool-cases (first && is_leak (first_leak found (advance s c).leak))) [
                | inl stop ↦
                    subst (λ (x : Explored). Witnessed x.found x.ended)
                      (some_inj (rw (new, stop, explore, revisit) at run)) w'
                | inr on ↦
                    explore-Witnessed first fuel (reverse (advance s c).next ++ pending)
                      ((c.at, c.failed) ∷ searched) _ _ r (rw (new, on, explore, revisit) at run)
                      (Live-next c pending now live) (NothingKnown-cons c searched now.1 known) w'
              ]
          | inr (k, old) ↦
              explore-Witnessed first fuel pending searched found ended r
                (passed k old (known c.at k old) run) live known w
        ]
      where
        passed :
            (k : Proven)
            → known_at searched c.at ≡ some k
            → k ≡ []
            → explore s first (suc fuel) (c ∷ pending) searched found ended ≡ some r
            → explore s first fuel pending searched found ended ≡ some r
        passed k old e run = rw (old, e, revisit-nothing c, explore) at run

-- Where the protocol is not on-success, each leak found and each ending noted is one of a path.
pub explore_sound :
    (s : Search) (first : Bool) (fuel : ℕ) (start : State) (r : Explored)
    → s.protocol.on_success ≡ false
    → start.failed ≡ []
    → explore s first fuel (start ∷ []) [] leak_none [] ≡ some r
    → Witnessed s start r.found r.ended
unfolding known_at
explore_sound s first fuel start r plain none_known run =
    explore-Witnessed s start plain first fuel (start ∷ []) [] leak_none [] r run
      ((here, none_known), tt) (λ p k e. cc)
      (record { leaks = λ l. cc; ends = λ e m. absurd (Memᴰ.not-nil m) })
