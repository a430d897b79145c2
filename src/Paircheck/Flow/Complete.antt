-- ===== src/Paircheck/Flow/Complete.antt =====
-- No path is missed: what the loop of `explore` (paircheck/flow.go) leaves of its map covers every state
-- of every path, although it searches a point again only knowing fewer failures.
use precept.Base.{
  ℕ, zero, suc, Bool, true, false, ◌&&◌, List, [], ◌∷◌, ◌++◌, some, ◌≡◌, refl, sym, arith, inl, inr,
  Bool-cases, some_inj, subst, Memᴰ, reverse,
}
use precept.Paircheck.Proven.{Proven}
use precept.Paircheck.Flow.Types.{Search, State, Leak, leak_none, Ending}
use precept.Paircheck.Flow.Step.{advance}
use precept.Paircheck.Flow.Explore.{Searched, known_at, is_leak, first_leak, Explored, explore}
use precept.Paircheck.Flow.Paths.{Reach, here, onward}
use precept.Paircheck.Flow.Simulation.{Fewer, advance-Below}
use precept.Paircheck.Flow.Points.{revisit_cases}
use precept.Paircheck.Flow.Cover.{
  Covered, Covered-Below, in_map, mem-AllBelow, Closed, skip-Covered, search-Covered, search-Closed,
  skip-Closed,
}

module _ (s : Search) where
  -- Where the search was not cut short by a leak, its map settles every state that was waiting.
  pub explore-Closed :
      (first : Bool) (fuel : ℕ) (pending : List State) (searched : Searched) (found : Leak)
      (ended : List Ending) (r : Explored)
      → explore s first fuel pending searched found ended ≡ some r
      → (first && is_leak r.found) ≡ false
      → Closed s searched pending found ended
      → Closed s r.searched [] r.found r.ended
        × ((v : State) → Covered searched pending v → Covered r.searched [] v)
  unfolding explore
  explore-Closed first fuel [] searched found ended r run whole closed =
      subst
        (λ (x : Explored).
          Closed s x.searched [] x.found x.ended
          × ((v : State) → Covered searched [] v → Covered x.searched [] v))
        (some_inj run) (closed, λ v h. h)
  explore-Closed first zero (c ∷ pending) searched found ended r run whole closed = cc
  explore-Closed first (suc fuel) (c ∷ pending) searched found ended r run whole closed =
      elim (revisit_cases c (known_at searched c.at)) [
        | inl (k, known, fewer, again) ↦
            let (done, covers) =
              explore-Closed first fuel pending searched found ended r (rw (again, explore) at run)
                whole (skip-Closed s c searched pending found ended k known fewer closed) in
            (done, λ v h. covers v (skip-Covered s c searched pending k known fewer v h))
        | inr (u, again, at, fewer, older) ↦
            let leak = first_leak found (advance s u).leak in
            elim (Bool-cases (first && is_leak leak)) [
              | inl stop ↦
                  let ended_there =
                    subst (λ (x : Explored). (first && is_leak x.found) ≡ true)
                      (some_inj (rw (again, stop, explore) at run)) stop in
                  cc
              | inr on ↦
                  let (done, covers) =
                    explore-Closed first fuel (reverse (advance s u).next ++ pending)
                      ((u.at, u.failed) ∷ searched) leak ((advance s u).ended ++ ended) r
                      (rw (again, on, explore) at run) whole
                      (search-Closed s c u searched pending found ended at fewer older closed) in
                  (
                    done,
                    λ v h. covers v (
                        search-Covered s c u searched pending (reverse (advance s u).next) at fewer
                          older v h),
                  )
            ]
      ]

  -- Every state of every path is in the map, knowing no more failures.
  pub Reach-Covered :
      (start : State) (r : Explored)
      → Closed s r.searched [] r.found r.ended
      → Covered r.searched [] start
      → {t : State} → Reach s start t
      → (k : Proven) × (known_at r.searched t.at ≡ some k) × Fewer k t.failed
  Reach-Covered start r closed covered here = in_map r.searched start covered
  Reach-Covered start r closed covered (onward {t} {u} path clean m) =
      let (k, known, fewer) = Reach-Covered start r closed covered path in
      let below = advance-Below s (record { at = t.at; failed = k }) t (refl, fewer) in
      let (w, m', under) = mem-AllBelow _ _ below.next m in
      in_map r.searched u (Covered-Below r.searched [] w u under ((closed t.at k known).went w m'))

  nothing-Closed : (pending : List State) → Closed s [] pending leak_none []
  unfolding known_at
  nothing-Closed pending p k e = cc

-- What a whole search finds is all there is on the paths from its start.
pub explore_complete :
    (s : Search) (first : Bool) (fuel : ℕ) (start : State) (r : Explored)
    → explore s first fuel (start ∷ []) [] leak_none [] ≡ some r
    → (first && is_leak r.found) ≡ false
    → {t : State} → Reach s start t
    → (is_leak (advance s t).leak ≡ true → is_leak r.found ≡ true)
      × ((e : Ending) → Memᴰ e (advance s t).ended → Memᴰ e r.ended)
unfolding Covered
explore_complete s first fuel start r run whole {t} path =
    let (closed, covers) =
      explore-Closed s first fuel (start ∷ []) [] leak_none [] r run whole
        (nothing-Closed s (start ∷ [])) in
    let (k, known, fewer) =
      Reach-Covered s start r closed (covers start (inl (start, Memᴰ.head refl, (refl, λ i h. h))))
        path in
    let settled = closed t.at k known in
    let below = advance-Below s (record { at = t.at; failed = k }) t (refl, fewer) in
    (
      λ leaked. settled.leaked (
          leaks_below (advance s (record { at = t.at; failed = k })).leak (advance s t).leak
            below.leak leaked),
      λ e m. settled.noted e (subst (λ (es : List Ending). Memᴰ e es) (sym below.ended) m),
    )
  where
    leaks_below :
        (a b : Leak) → (a ≡ leak_none → b ≡ leak_none) → is_leak b ≡ true → is_leak a ≡ true
    leaks_below leak_none b h l = ground (arith, h refl, l)
    leaks_below _ b h l = refl
