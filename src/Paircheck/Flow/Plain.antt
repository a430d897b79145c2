-- ===== src/Paircheck/Flow/Plain.antt =====
-- Where the protocol is not on-success, a state of paircheck/flow.go knows the failures that the state
-- before it knows.
use precept.Base.{
  ℕ, suc, Bool, true, false, List, [], ◌∷◌, Option, none, some, ◌≡◌, refl, arith, inl, inr,
  Bool-cases, subst, Memᴰ, get_elem?, All,
}
use mathlib.Core.List.Memᴰ
use precept.Base.Members.{All-append, All-mem}
use precept.Paircheck.Proven.{Proven}
use precept.Paircheck.Ssa.{Node}
use precept.Paircheck.Flow.Types.{
  Search, Point, State, leak_none, Ending, end_none, Event, event_exit, Verdict, verdict_none,
  verdict_failed, verdict_succeeded, verdict_unknown,
}
use precept.Paircheck.Flow.Success.{remembered, remembered_as, registered}
use precept.Paircheck.Flow.Events.{classify, calls_before_defer}
use precept.Paircheck.Flow.Step.{
  Stepped, goes, stops, advance, step, run, successors, stored, after, exit, exits, continue,
  into_found, chosen, following, known_along, resumed,
}

-- A block that leaks is not followed by any state.
next-clean_run :
    (s : Search) (is : List ℕ) (u : State) {v : State}
    → Memᴰ v (run s is u).next
    → (run s is u).leak ≡ leak_none
unfolding run
next-clean_run s [] u m = refl
next-clean_run s (i ∷ is) u {v} m =
    resumed-clean (step s u i) m (λ t. next-clean_run s is t {v = v})
  where
    resumed-clean :
        (a : Stepped)
        → Memᴰ v (resumed s a (run s is)).next
        → ((t : State) → Memᴰ v (run s is t).next → (run s is t).leak ≡ leak_none)
        → (resumed s a (run s is)).leak ≡ leak_none
    resumed-clean (goes t) m h = h t m
    resumed-clean (stops l e) m h = absurd (Memᴰ.not-nil m)

pub next-clean :
    (s : Search) (u : State) {v : State}
    → Memᴰ v (advance s u).next
    → (advance s u).leak ≡ leak_none
unfolding advance
next-clean s u m = next-clean_run s _ u m

module _ (s : Search) (plain : s.protocol.on_success ≡ false) where
  remembered-plain : (failed : Proven) (i : ℕ) → remembered s failed i ≡ failed
  unfolding remembered
  remembered-plain failed i = by_node (s.program.node i)
    where
      by_node : (n : Node) → remembered_as s failed n ≡ failed
      by_node (Node.store addr value) = ground (arith, plain)
      by_node _ = refl

  known_along-plain : (u : State) (branch : Option ℕ) (k : ℕ) → known_along s u branch k ≡ u.failed
  known_along-plain u none k = refl
  known_along-plain u (some condition) k = ground (arith, plain)

  abbrev KnowsAlike : Proven → State → Type 0
  KnowsAlike failed v = v.failed ≡ failed

  into_found-plain :
      (u : State) (b : Bool) (o : Option ℕ) → All (KnowsAlike u.failed) (into_found s u b o)
  into_found-plain u b none = tt
  into_found-plain u b (some block) = (refl, tt)

  following-plain :
      (u : State) (branch : Option ℕ) (k : ℕ) (succs : List ℕ)
      → All (KnowsAlike u.failed) (following s u branch k succs)
  unfolding following
  following-plain u branch k [] = tt
  following-plain u branch k (b ∷ succs) =
      (known_along-plain u branch k, following-plain u branch (suc k) succs)

  chosen-plain :
      (u : State) (succs : List ℕ) (branch : Option ℕ) (v : Verdict)
      → All (KnowsAlike u.failed) (chosen s u succs branch v)
  chosen-plain u succs branch verdict_failed = into_found-plain u false (get_elem? succs 1)
  chosen-plain u succs branch verdict_succeeded = into_found-plain u false (get_elem? succs 0)
  chosen-plain u succs branch verdict_unknown =
      All-append (KnowsAlike u.failed) _ _ (into_found-plain u true (get_elem? succs 0))
        (into_found-plain u true (get_elem? succs 1))
  chosen-plain u succs branch verdict_none = following-plain u branch 0 succs

  -- A step keeps the failures known.
  abbrev StepKeeps : Proven → Stepped → Type 0
  StepKeeps failed (goes t) = t.failed ≡ failed
  StepKeeps failed (stops l e) = Unit

  continue-plain : (failed : Proven) (r : Point × Ending) → StepKeeps failed (continue s failed r)
  continue-plain failed (p, end_none) = refl
  continue-plain failed (p, _) = tt

  exits-plain :
      (p : Point) (failed : Proven) (n : Node) (happened : Event)
      → StepKeeps failed (exits s p failed n happened)
  unfolding exit
  exits-plain p failed (Node.returns results) event_exit = tt
  exits-plain p failed n happened = continue-plain failed (after p happened)

  step-plain : (u : State) (i : ℕ) → StepKeeps u.failed (step s u i)
  unfolding step
  step-plain u i =
      let p = registered s (stored s.failure u.at (s.program.node i)) i in
      elim (Bool-cases (calls_before_defer s p i (classify s i))) [
        | inl e ↦ rw e tt
        | inr e ↦
            rw (e, remembered-plain u.failed i)
              (exits-plain p u.failed (s.program.node i) (classify s i))
      ]

  run-plain : (is : List ℕ) (u : State) → All (KnowsAlike u.failed) (run s is u).next
  unfolding run successors
  run-plain [] u = chosen-plain u _ _ _
  run-plain (i ∷ is) u = resumed-plain (step s u i) (step-plain u i) (run-plain is)
    where
      resumed-plain :
          (a : Stepped)
          → StepKeeps u.failed a
          → ((t : State) → All (KnowsAlike t.failed) (run s is t).next)
          → All (KnowsAlike u.failed) (resumed s a (run s is)).next
      resumed-plain (goes t) same rest =
          subst (λ (f : Proven). All (KnowsAlike f) (run s is t).next) same (rest t)
      resumed-plain (stops l e) same rest = tt

  pub advance-plain : (u v : State) → Memᴰ v (advance s u).next → v.failed ≡ u.failed
  unfolding advance
  advance-plain u v m = All-mem (KnowsAlike u.failed) _ (run-plain _ u) m
