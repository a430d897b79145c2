-- ===== src/Paircheck/Closure/Decides.antt =====
-- What `decides` of paircheck/closure.go says of the paths of a closure on which the error is not a failure.
use precept.Base.{
  ℕ, zero, suc, ◌+◌, ◌*◌, ◌≤◌, Bool, true, false, ◌&&◌, List, [], ◌∷◌, Option, none, some, ◌≡◌, ◌↔◌,
  ◌⊎◌, inl, inr, refl, sym, ◌∙◌, ap, ap₂, subst, arith, same_bool_iff, Bool-cases, some_inj, Memᴰ,
  length, get_elem?,
}
use mathlib.Core.List.Memᴰ
use precept.Base.Finite.{booleans, mem-booleans, cross, mem-cross}
use precept.Base.Worklist.{Reached, starts, follows, Fails}
use precept.Base.Worklist.Decides.{left, IsBounded, none_fails_iff}
use precept.Paircheck.Ssa.Blocks.{block_of, mem-all_succs, length-succs}
use precept.Paircheck.Identity.{ValuePath, Values}
use precept.Paircheck.Flow.Types.{Search}
use precept.Paircheck.Closure.{
  Closure, capturing, scan, has_blocks, fails_along, ends_in_panic, onward, decides_step, same_pair,
  decides,
}
use precept.Paircheck.Closure.Paths.{universe, fan}

add_0 : (k : ℕ) → k ≡ k + 0
add_0 k = omega arith

zero_add : (k : ℕ) → 0 + k ≡ k
zero_add k = omega arith

suc_add : (k n : ℕ) → suc k + n ≡ k + suc n
suc_add k n = omega arith

and_false : (b : Bool) → (b && false) ≡ false
and_false true = refl
and_false false = refl

module _ (s : Search) (values : Values) (path_of : ℕ → ValuePath) (c : Closure)
    (result : Option ℕ) where
  -- A block reached from the entry with what is known of the error: whether it is a failure.
  pub data Undecided : ℕ → Bool → Type 0 where
    entry : Undecided 0 false
    next :
        {b b' : ℕ} {failed failed' : Bool} (position : ℕ)
        → Undecided b failed
        → scan s values path_of c b ≡ (false, false)
        → get_elem? (block_of c.blocks b).succs position ≡ some b'
        → failed' ≡ fails_along s values path_of c b position (capturing c result) failed
        → Undecided b' failed'

  -- A path can leave the closure by a return before it calls a satisfier, where the error may be nil.
  abbrev pub LeavesUndecided : Type 0
  LeavesUndecided =
      (b : ℕ) × Undecided b false
      × (scan s values path_of c b ≡ (false, true))
      × (ends_in_panic s values path_of c b ≡ false)

  abbrev step : ℕ × Bool → Option (List (ℕ × Bool))
  step = decides_step s values path_of c result

  abbrev after : ℕ → Bool → ℕ → List ℕ → List (ℕ × Bool)
  after = onward s values path_of c result

  abbrev fails_on : ℕ → Bool → ℕ → Bool
  fails_on b failed position = fails_along s values path_of c b position (capturing c result) failed

  abbrev points : List (ℕ × Bool)
  points = cross (λ (b : ℕ) (failed : Bool). (b, failed)) (universe s values path_of c) booleans

  mem-points :
      (b : ℕ) (failed : Bool) → Memᴰ b (universe s values path_of c) → Memᴰ (b, failed) points
  mem-points b failed m =
      mem-cross (λ (b : ℕ) (failed : Bool). (b, failed)) _ booleans m (mem-booleans failed)

  pub same_pair_iff : (p q : ℕ × Bool) → (same_pair s values path_of c result p q ≡ true) ↔ (p ≡ q)
  same_pair_iff (b, f) (b', f') = ground (arith, same_bool_iff f f')

  abbrev Onward : ℕ × Bool → List (ℕ × Bool) → Type 0
  Onward p next' =
      (next' ≡ [])
      ⊎ ((next' ≡ after p.0 p.1 0 (block_of c.blocks p.0).succs)
          × (scan s values path_of c p.0 ≡ (false, false)))

  decides_step-cases :
      (p : ℕ × Bool) (next' : List (ℕ × Bool)) → step p ≡ some next' → Onward p next'
  unfolding decides_step
  decides_step-cases (b, failed) next' h = by_scan (scan s values path_of c b) refl
    where
      by_scan :
          (r : Bool × Bool)
          → scan s values path_of c b ≡ r
          → (next' ≡ [])
            ⊎ ((next' ≡ after b failed 0 (block_of c.blocks b).succs)
                × (scan s values path_of c b ≡ (false, false)))
      by_scan (true, leaves) e = inl (sym (some_inj (rw (e, decides_step) at h)))
      by_scan (false, true) e = elim (Bool-cases failed) [
        | inl f ↦ inl (sym (some_inj (rw (e, f, decides_step) at h)))
        | inr f ↦ elim (Bool-cases (ends_in_panic s values path_of c b)) [
          | inl p ↦ inl (sym (some_inj (rw (e, f, p, decides_step) at h)))
          | inr p ↦ absurd (ground (arith, rw (e, f, p, decides_step) at h))
        ]
      ]
      by_scan (false, false) e =
          inr (sym (some_inj (rw (e, and_false failed, decides_step) at h)), e)

  decides_step-none :
      (b : ℕ) (failed : Bool)
      → (step (b, failed) ≡ none) ↔ (
          (failed ≡ false)
          × (scan s values path_of c b ≡ (false, true))
          × (ends_in_panic s values path_of c b ≡ false))
  unfolding decides_step
  decides_step-none b failed = by_scan (scan s values path_of c b) refl
    where
      by_scan :
          (r : Bool × Bool)
          → scan s values path_of c b ≡ r
          → (step (b, failed) ≡ none) ↔ (
              (failed ≡ false)
              × (scan s values path_of c b ≡ (false, true))
              × (ends_in_panic s values path_of c b ≡ false))
      by_scan (true, leaves) e = (
        λ h. absurd (ground (arith, rw (e, decides_step) at h)),
        λ h. absurd (ground (arith, e, h.1)),
      )
      by_scan (false, true) e = (
        λ h. elim (Bool-cases failed) [
          | inl f ↦ absurd (ground (arith, rw (e, f, decides_step) at h))
          | inr f ↦ elim (Bool-cases (ends_in_panic s values path_of c b)) [
            | inl p ↦ absurd (ground (arith, rw (e, f, p, decides_step) at h))
            | inr p ↦ (f, e, p)
          ]
        ],
        λ h. rw (h.0, h.1, h.2, decides_step) refl,
      )
      by_scan (false, false) e = (
        λ h. absurd (ground (arith, rw (e, and_false failed, decides_step) at h)),
        λ h. absurd (ground (arith, e, h.1)),
      )

  mem-after :
      (b : ℕ) (failed : Bool) (k : ℕ) (succs : List ℕ) (b' : ℕ) (failed' : Bool)
      → Memᴰ (b', failed') (after b failed k succs)
      → (position : ℕ) × (get_elem? succs position ≡ some b')
        × (failed' ≡ fails_along s values path_of c b (k + position) (capturing c result) failed)
  unfolding onward
  mem-after b failed k [] b' failed' m = absurd (Memᴰ.not-nil m)
  mem-after b failed k (x ∷ succs) b' failed' (Memᴰ.head e) = (
    0,
    ap (λ (p : ℕ × Bool). some p.0) (sym e),
    ap (λ (p : ℕ × Bool). p.1) e ∙ ap (λ (n : ℕ). fails_on b failed n) (add_0 k),
  )
  mem-after b failed k (x ∷ succs) b' failed' (Memᴰ.tail m) =
      let (position, e, known) = mem-after b failed (suc k) succs b' failed' m in
      (suc position, e, known ∙ ap (λ (n : ℕ). fails_on b failed n) (suc_add k position))

  after-mem :
      (b : ℕ) (failed : Bool) (k : ℕ) (succs : List ℕ) (b' position : ℕ)
      → get_elem? succs position ≡ some b'
      → Memᴰ
          (b', fails_along s values path_of c b (k + position) (capturing c result) failed)
          (after b failed k succs)
  unfolding onward
  after-mem b failed k [] b' position e = cc
  after-mem b failed k (x ∷ succs) b' zero e = Memᴰ.head (
      ap₂ (λ (a : ℕ) (f : Bool). (a, f)) (sym (some_inj e))
        (ap (λ (n : ℕ). fails_on b failed n) (sym (add_0 k))))
  after-mem b failed k (x ∷ succs) b' (suc position) e = Memᴰ.tail (
      subst (λ (n : ℕ). Memᴰ (b', fails_on b failed n) (after b failed (suc k) succs))
        (suc_add k position) (after-mem b failed (suc k) succs b' position e))

  length-after :
      (b : ℕ) (failed : Bool) (k : ℕ) (succs : List ℕ)
      → length (after b failed k succs) ≡ length succs
  unfolding onward
  length-after b failed k [] = refl
  length-after b failed k (x ∷ succs) = omega (arith, length-after b failed (suc k) succs)

  mem-of_get_elem? : (xs : List ℕ) (i x : ℕ) → get_elem? xs i ≡ some x → Memᴰ x xs
  mem-of_get_elem? [] i x e = cc
  mem-of_get_elem? (y ∷ xs) zero x e = Memᴰ.head (sym (some_inj e))
  mem-of_get_elem? (y ∷ xs) (suc i) x e = Memᴰ.tail (mem-of_get_elem? xs i x e)

  decides-IsBounded :
      IsBounded
        (same_pair s values path_of c result)
        same_pair_iff
        step
        points
        (fan s values path_of c)
  decides-IsBounded = record {
    inside = λ p next' h q m. inside p next' q m (decides_step-cases p next' h);
    few = λ p next' h. few p next' (decides_step-cases p next' h);
  }
    where
      inside :
          (p : ℕ × Bool) (next' : List (ℕ × Bool)) (q : ℕ × Bool)
          → Memᴰ q next'
          → Onward p next'
          → Memᴰ q points
      inside p next' q m (inl e) = absurd (Memᴰ.not-nil (subst (Memᴰ q) e m))
      inside (b, failed) next' (b', failed') m (inr (e, run)) =
          let (position, e', known) =
            mem-after b failed 0 (block_of c.blocks b).succs b' failed'
              (subst (Memᴰ (b', failed')) e m) in
          mem-points b' failed' (
            Memᴰ.tail (
              mem-all_succs c.blocks b
                (mem-of_get_elem? (block_of c.blocks b).succs position b' e')))

      few :
          (p : ℕ × Bool) (next' : List (ℕ × Bool))
          → Onward p next'
          → length next' ≤ fan s values path_of c
      few p next' (inl e) = omega (arith, ap (λ (l : List (ℕ × Bool)). length l) e)
      few (b, failed) next' (inr (e, run)) = omega (
        arith,
        ap (λ (l : List (ℕ × Bool)). length l) e,
        length-after b failed 0 (block_of c.blocks b).succs,
        length-succs c.blocks b,
      )

  Reached-Undecided :
      (p : ℕ × Bool)
      → Reached (same_pair s values path_of c result) step ((0, false) ∷ []) p
      → Undecided p.0 p.1
  Reached-Undecided p (starts m) =
      subst (λ (q : ℕ × Bool). Undecided q.0 q.1) (sym (Memᴰ.eq_of_singleton m)) entry
  Reached-Undecided p (follows {x} {next = next'} r e m) =
      by_step (Reached-Undecided x r) (decides_step-cases x next' e)
    where
      by_step : Undecided x.0 x.1 → Onward x next' → Undecided p.0 p.1
      by_step u (inl same) = absurd (Memᴰ.not-nil (subst (Memᴰ p) same m))
      by_step u (inr (same, run)) =
          let (position, e', known) =
            mem-after x.0 x.1 0 (block_of c.blocks x.0).succs p.0 p.1 (subst (Memᴰ p) same m) in
          next position u run e' (known ∙ ap (λ (n : ℕ). fails_on x.0 x.1 n) (zero_add position))

  decides_step-onward :
      (b : ℕ) (failed : Bool)
      → scan s values path_of c b ≡ (false, false)
      → step (b, failed) ≡ some (after b failed 0 (block_of c.blocks b).succs)
  unfolding decides_step
  decides_step-onward b failed e = rw (e, and_false failed, decides_step) refl

  Undecided-Reached :
      (b : ℕ) (failed : Bool)
      → Undecided b failed
      → Reached (same_pair s values path_of c result) step ((0, false) ∷ []) (b, failed)
  Undecided-Reached b failed entry = starts (Memᴰ.head refl)
  Undecided-Reached b failed (next {b = before} {failed = known} position u run e same) =
      follows (Undecided-Reached before known u) (decides_step-onward before known run) (
        subst (λ (f : Bool). Memᴰ (b, f) (after before known 0 (block_of c.blocks before).succs))
          (ap (λ (n : ℕ). fails_on before known n) (zero_add position) ∙ sym same)
          (after-mem before known 0 (block_of c.blocks before).succs b position e))

  abbrev pub decides_rounds : ℕ
  decides_rounds =
      left (same_pair s values path_of c result) same_pair_iff points []
        * suc (fan s values path_of c)
      + 1

  decides_start : (q : ℕ × Bool) → Memᴰ q ((0, false) ∷ []) → Memᴰ q points
  decides_start q m =
      subst (λ (p : ℕ × Bool). Memᴰ p points) (sym (Memᴰ.eq_of_singleton m))
        (mem-points 0 false (Memᴰ.head refl))

  -- With enough rounds, a closure that has blocks is said to decide exactly where no path from its entry
  -- reaches a return before it calls a satisfier without a check, on the path, that the error the function
  -- returns is a failure.
  pub decides_iff :
      (fuel : ℕ)
      → has_blocks s values path_of c c.blocks ≡ true
      → decides_rounds ≤ fuel
      → (b : Bool) × (decides s values path_of c result fuel ≡ some b)
        × ((b ≡ true) ↔ (¬ LeavesUndecided))
  unfolding decides
  decides_iff fuel some_block enough =
      let (b, e, same) =
        none_fails_iff (same_pair s values path_of c result) same_pair_iff step points
          (fan s values path_of c) decides-IsBounded ((0, false) ∷ []) decides_start fuel
          (omega (arith, enough)) in
      (
        b,
        rw some_block e,
        (
          λ h leaving. same.0 h (
            (leaving.0, false),
            Undecided-Reached leaving.0 false leaving.1,
            (decides_step-none leaving.0 false).1 (refl, leaving.2, leaving.3),
          ),
          λ no_path. same.1 (λ failing. no_path (undecided failing)),
        ),
      )
    where
      undecided :
          Fails (same_pair s values path_of c result) step ((0, false) ∷ []) → LeavesUndecided
      undecided ((b, failed), r, e) =
          let (f, run, p) = (decides_step-none b failed).0 e in
          (b, subst (Undecided b) f (Reached-Undecided (b, failed) r), run, p)
