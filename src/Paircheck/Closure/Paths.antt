-- ===== src/Paircheck/Closure/Paths.antt =====
-- What `coversEveryPath` and `decides` of paircheck/closure.go say of the paths of a closure.
use precept.Base.{
  ℕ, suc, ◌+◌, ◌*◌, ◌≤◌, Bool, true, false, List, [], ◌∷◌, none, some, ◌≡◌, ◌↔◌, ◌⊎◌, inl, inr,
  refl, sym, ap, subst, arith, ◌==◌, ==_iff, some_inj, Memᴰ, length,
}
use mathlib.Core.List.Memᴰ
use precept.Base.Worklist.{Reached, starts, follows}
use precept.Base.Worklist.Decides.{left, IsBounded, none_fails_iff}
use precept.Paircheck.Ssa.Blocks.{block_of, all_succs, mem-all_succs, length-succs}
use precept.Paircheck.Identity.{ValuePath, Values}
use precept.Paircheck.Flow.Types.{Search}
use precept.Paircheck.Closure.{Closure, scan, covers_step, has_blocks, covers_every_path}

module _ (s : Search) (values : Values) (path_of : ℕ → ValuePath) (c : Closure) where
  abbrev pub universe : List ℕ
  universe = 0 ∷ all_succs c.blocks

  abbrev pub fan : ℕ
  fan = length (all_succs c.blocks)

  -- A block reached from the entry, none of those before it covering the path or left by it.
  pub data Uncovered : ℕ → Type 0 where
    entry : Uncovered 0
    next :
        {b b' : ℕ}
        → Uncovered b
        → scan s values path_of c b ≡ (false, false)
        → Memᴰ b' (block_of c.blocks b).succs
        → Uncovered b'

  covers_step-cases :
      (b : ℕ) (next' : List ℕ)
      → covers_step s values path_of c b ≡ some next'
      → (next' ≡ [])
        ⊎ ((next' ≡ (block_of c.blocks b).succs) × (scan s values path_of c b ≡ (false, false)))
  unfolding covers_step
  covers_step-cases b next' h = by_scan (scan s values path_of c b) refl
    where
      by_scan :
          (r : Bool × Bool)
          → scan s values path_of c b ≡ r
          → (next' ≡ [])
            ⊎ ((next' ≡ (block_of c.blocks b).succs) × (scan s values path_of c b ≡ (false, false)))
      by_scan (covered, true) e = absurd (ground (arith, rw (e, covers_step) at h))
      by_scan (true, false) e = inl (sym (some_inj (rw (e, covers_step) at h)))
      by_scan (false, false) e = inr (sym (some_inj (rw (e, covers_step) at h)), e)

  covers-IsBounded : IsBounded ◌==◌ ==_iff (covers_step s values path_of c) universe fan
  covers-IsBounded = record {
    inside = λ b next' h y m. inside b next' y m (covers_step-cases b next' h);
    few = λ b next' h. few b next' (covers_step-cases b next' h);
  }
    where
      inside :
          (b : ℕ) (next' : List ℕ) (y : ℕ)
          → Memᴰ y next'
          → (next' ≡ [])
            ⊎ ((next' ≡ (block_of c.blocks b).succs) × (scan s values path_of c b ≡ (false, false)))
          → Memᴰ y universe
      inside b next' y m (inl e) = absurd (Memᴰ.not-nil (subst (Memᴰ y) e m))
      inside b next' y m (inr (e, run)) = Memᴰ.tail (mem-all_succs c.blocks b (subst (Memᴰ y) e m))

      few :
          (b : ℕ) (next' : List ℕ)
          → (next' ≡ [])
            ⊎ ((next' ≡ (block_of c.blocks b).succs) × (scan s values path_of c b ≡ (false, false)))
          → length next' ≤ fan
      few b next' (inl e) = omega (arith, ap (λ (l : List ℕ). length l) e)
      few b next' (inr (e, run)) =
          omega (arith, ap (λ (l : List ℕ). length l) e, length-succs c.blocks b)

  Reached-Uncovered :
      (b : ℕ) → Reached ◌==◌ (covers_step s values path_of c) (0 ∷ []) b → Uncovered b
  Reached-Uncovered b (starts m) = subst Uncovered (sym (Memᴰ.eq_of_singleton m)) entry
  Reached-Uncovered b (follows {x} {next = next'} r e m) =
      by_step (Reached-Uncovered x r) (covers_step-cases x next' e)
    where
      by_step :
          Uncovered x
          → (next' ≡ [])
            ⊎ ((next' ≡ (block_of c.blocks x).succs) × (scan s values path_of c x ≡ (false, false)))
          → Uncovered b
      by_step u (inl same) = absurd (Memᴰ.not-nil (subst (Memᴰ b) same m))
      by_step u (inr (same, run)) = next u run (subst (Memᴰ b) same m)

  Uncovered-Reached :
      (b : ℕ) → Uncovered b → Reached ◌==◌ (covers_step s values path_of c) (0 ∷ []) b
  unfolding covers_step
  Uncovered-Reached b entry = starts (Memᴰ.head refl)
  Uncovered-Reached b (next {b = before} u run m) =
      follows (Uncovered-Reached before u) (rw (run, covers_step) refl) m

  abbrev pub covers_rounds : ℕ
  covers_rounds = left ◌==◌ ==_iff universe [] * suc fan + 1

  -- A path can leave the closure before it calls a satisfier.
  abbrev pub LeavesUncovered : Type 0
  LeavesUncovered = (b : ℕ) × Uncovered b × ((scan s values path_of c b).1 ≡ true)

  leaves_iff :
      (b : ℕ) → (covers_step s values path_of c b ≡ none) ↔ ((scan s values path_of c b).1 ≡ true)
  unfolding covers_step
  leaves_iff b = (λ h. ground (arith, h), λ h. rw (h, covers_step) refl)

  -- With enough rounds, a closure that has blocks is said to cover every path exactly where no path from its
  -- entry leaves it before it calls a satisfier.
  pub covers_every_path_iff :
      (fuel : ℕ)
      → has_blocks s values path_of c c.blocks ≡ true
      → covers_rounds ≤ fuel
      → (b : Bool) × (covers_every_path s values path_of c fuel ≡ some b)
        × ((b ≡ true) ↔ (¬ LeavesUncovered))
  unfolding covers_every_path
  covers_every_path_iff fuel some_block enough =
      let (b, e, same) =
        none_fails_iff ◌==◌ ==_iff (covers_step s values path_of c) universe fan covers-IsBounded
          (0 ∷ []) (λ x m. Memᴰ.head (Memᴰ.eq_of_singleton m)) fuel (omega (arith, enough)) in
      (
        b,
        rw some_block e,
        (
          λ h leaving. same.0 h (
            leaving.0,
            Uncovered-Reached leaving.0 leaving.1,
            (leaves_iff leaving.0).1 leaving.2,
          ),
          λ no_path. same.1 (λ failing. no_path (
            failing.0,
            Reached-Uncovered failing.0 failing.1,
            (leaves_iff failing.0).0 failing.2,
          )),
        ),
      )
