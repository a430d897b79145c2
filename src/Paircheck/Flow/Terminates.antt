-- ===== src/Paircheck/Flow/Terminates.antt =====
-- The loop of `explore` (paircheck/flow.go) ends: a state searched leaves less to search, and a state
-- skipped leaves fewer pending.
use precept.Base.{
  ℕ, zero, suc, ◌+◌, ◌*◌, ◌≤◌, Bool, true, false, ◌&&◌, List, [], ◌∷◌, ◌++◌, Option, none, some,
  ◌≡◌, refl, arith, inl, inr, Bool-cases, Option-cases, All, reverse, length, length-append,
  get_elem?,
}
use precept.Base.Finite.{mul-le}
use precept.Base.Members.{All-append, All-of_mem, All-mem, mem-of_reverse, length-reverse}
use precept.Paircheck.Flow.Types.{
  Search, State, Leak, Ending, Verdict, verdict_none, verdict_failed, verdict_succeeded,
  verdict_unknown,
}
use precept.Paircheck.Flow.Step.{
  Stepped, goes, stops, advance, step, run, successors, into_found, into_position, following,
  chosen, resumed, block_at,
}
use precept.Paircheck.Flow.Explore.{
  Searched, known_at, revisit, is_leak, first_leak, Explored, explore,
}
use precept.Paircheck.Ssa.Blocks.{all_succs, length-succs}
use precept.Paircheck.Flow.Range.{InRange, advance-InRange}
use precept.Paircheck.Flow.Universe.{left, left-lower}

module _ (s : Search) where
  -- More states than a block can have after it.
  abbrev pub fan : ℕ
  fan = length (all_succs s.program.blocks) + 2

  length-into_found : (u : State) (b : Bool) (o : Option ℕ) → length (into_found s u b o) ≤ 1
  length-into_found u b none = omega arith
  length-into_found u b (some block) = omega arith

  length-following :
      (u : State) (branch : Option ℕ) (k : ℕ) (succs : List ℕ)
      → length (following s u branch k succs) ≡ length succs
  unfolding following
  length-following u branch k [] = refl
  length-following u branch k (b ∷ succs) = omega (arith, length-following u branch (suc k) succs)

  length-chosen :
      (u : State) (succs : List ℕ) (branch : Option ℕ) (verdict : Verdict)
      → length (chosen s u succs branch verdict) ≤ length succs + 2
  length-chosen u succs branch verdict_failed =
      omega (arith, length-into_found u false (get_elem? succs 1))
  length-chosen u succs branch verdict_succeeded =
      omega (arith, length-into_found u false (get_elem? succs 0))
  length-chosen u succs branch verdict_unknown = omega (
    arith,
    length-append (into_position s u succs 0 true) (into_position s u succs 1 true),
    length-into_found u true (get_elem? succs 0),
    length-into_found u true (get_elem? succs 1),
  )
  length-chosen u succs branch verdict_none = omega (arith, length-following u branch 0 succs)

  length-run : (is : List ℕ) (u : State) → length (run s is u).next ≤ fan
  unfolding run successors
  length-run [] u = omega (
    arith,
    length-succs s.program.blocks u.at.block,
    length-chosen u (block_at s u.at.block).succs _ _,
  )
  length-run (i ∷ is) u = by_step (step s u i) (length-run is)
    where
      by_step :
          (a : Stepped)
          → ((t : State) → length (run s is t).next ≤ fan)
          → length (resumed s a (run s is)).next ≤ fan
      by_step (goes t) rest = rest t
      by_step (stops l e) rest = omega arith

  length-next : (u : State) → length (advance s u).next ≤ fan
  unfolding advance
  length-next u = length-run _ u

  next-InRange :
      (u : State) (pending : List State)
      → InRange s u
      → All (InRange s) pending
      → All (InRange s) (reverse (advance s u).next ++ pending)
  next-InRange u pending v vs =
      All-append (InRange s) _ pending
        (All-of_mem (InRange s) _
          (λ t m. All-mem (InRange s) _ (advance-InRange s u v) (mem-of_reverse _ m)))
        vs

  -- What the loop may still do.
  abbrev pub work : List State → Searched → ℕ
  work pending searched = left s searched * suc fan + length pending

  work-lower :
      (u : State) (pending : List State) (searched searched' : Searched) (fuel : ℕ)
      → suc (left s searched') ≤ left s searched
      → left s searched * suc fan + suc (length pending) ≤ suc fuel
      → work (reverse (advance s u).next ++ pending) searched' ≤ fuel
  work-lower u pending searched searched' fuel less enough = omega (
    arith,
    mul-le (suc (left s searched')) (left s searched) (suc fan) less,
    length-append (reverse (advance s u).next) pending,
    length-reverse (advance s u).next,
    length-next u,
  )

  -- The loop ends, with fuel for what it may still do.
  pub explore-ends :
      (first : Bool) (fuel : ℕ) (pending : List State) (searched : Searched) (found : Leak)
      (ended : List Ending)
      → All (InRange s) pending
      → work pending searched ≤ fuel
      → (r : Explored) × (explore s first fuel pending searched found ended ≡ some r)
  unfolding explore
  explore-ends first fuel [] searched found ended vs enough = (_, refl)
  explore-ends first zero (c ∷ pending) searched found ended vs enough = absurd (omega arith)
  explore-ends first (suc fuel) (c ∷ pending) searched found ended (v, vs) enough =
      elim (Option-cases (revisit c (known_at searched c.at))) [
        | inl skip ↦
            rw (skip, explore)
              (explore-ends first fuel pending searched found ended vs (omega arith))
        | inr (u, again) ↦
            let (w, less) = left-lower s c u searched v again in
            let leak = first_leak found (advance s u).leak in
            elim (Bool-cases (first && is_leak leak)) [
              | inl stop ↦ rw (again, stop, explore) (_, refl)
              | inr on ↦
                  rw (again, on, explore)
                    (explore-ends first fuel (reverse (advance s u).next ++ pending)
                      ((u.at, u.failed) ∷ searched) leak ((advance s u).ended ++ ended)
                      (next-InRange u pending w vs)
                      (work-lower u pending searched ((u.at, u.failed) ∷ searched) fuel less
                        enough))
            ]
      ]
