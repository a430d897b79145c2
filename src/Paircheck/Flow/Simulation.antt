-- ===== src/Paircheck/Flow/Simulation.antt =====
-- Knowing fewer failures never hides a leak: the states of paircheck/flow.go that differ in `failed`
-- alone advance alike, and one that knows less leaks wherever one that knows more does.
use precept.Base.{
  ℕ, suc, Bool, true, false, ◌&&◌, List, [], ◌∷◌, ◌++◌, Option, none, some, ◌==◌, if◌then◌else◌,
  ◌≡◌, refl, arith, last?, get_elem?, Bool-cases, inl, inr, subst,
}
use precept.Paircheck.Proven.{Proven, has, with, without}
use precept.Paircheck.Proven.Laws.{has-with, has-without}
use precept.Paircheck.Ssa.{Node}
use precept.Paircheck.Flow.Types.{
  Search, Point, State, leak_none, Event, Verdict, verdict_none, verdict_failed, verdict_succeeded,
  verdict_unknown, Ending, end_none, event_exit,
}
use precept.Paircheck.Flow.Success.{
  Proof, holds_at, hands_back_failure, holds, remembered_as, remember, learned, proved,
  variable_or_self, index_of, fails, known, variable_read, remembered, along, returns_failure,
  proof_of, registered,
}
use precept.Paircheck.Flow.Events.{classify, calls_before_defer}
use precept.Paircheck.Flow.Step.{
  Stepped, goes, stops, Advanced, step, run, advance, exit, leak_at, after, stored, successors,
  following, continue, exits, into_found, known_along, chosen, resumed,
}

-- Every failure that the first knows, the second knows.
abbrev pub Fewer : Proven → Proven → Type 0
Fewer p q = (index : ℕ) → has p index ≡ true → has q index ≡ true

Fewer-with : (p q : Proven) (k : ℕ) → Fewer p q → Fewer (with p k) (with q k)
Fewer-with p q k h j e = ground (arith, has-with p k j, has-with q k j, h j)

Fewer-without : (p q : Proven) (k : ℕ) → Fewer p q → Fewer (without p k) (without q k)
Fewer-without p q k h j e = ground (arith, has-without p k j, has-without q k j, h j)

Fewer-without-with : (p q : Proven) (k : ℕ) → Fewer p q → Fewer (without p k) (with q k)
Fewer-without-with p q k h j e = ground (arith, has-without p k j, has-with q k j, h j)

module _ (s : Search) (p q : Proven) (fewer : Fewer p q) where
  holds_at-fewer : (o : Option ℕ) → holds_at p o ≡ true → holds_at q o ≡ true
  holds_at-fewer none h = h
  holds_at-fewer (some k) h = fewer k h

  holds-fewer : (o : Option ℕ) → holds s.returned p o ≡ true → holds s.returned q o ≡ true
  unfolding holds
  holds-fewer none h = h
  holds-fewer (some value) h = holds_at-fewer (index_of s.returned value) h

  fails-fewer : (value : ℕ) → fails s p value ≡ true → fails s q value ≡ true
  unfolding fails known
  fails-fewer value h =
      ground (arith, h, holds-fewer (some value), holds-fewer (variable_read s value))

  remember-Fewer : (value : ℕ) (o : Option ℕ) → Fewer (remember s p value o) (remember s q value o)
  remember-Fewer value none = fewer
  remember-Fewer value (some k) = elim (Bool-cases (fails s q value)) [
    | inl now ↦ elim (Bool-cases (fails s p value)) [
      | inl before ↦ rw (now, before) (Fewer-with p q k fewer)
      | inr before ↦ rw (now, before) (Fewer-without-with p q k fewer)
    ]
    | inr now ↦ elim (Bool-cases (fails s p value)) [
      | inl before ↦ cc (fails-fewer value before)
      | inr before ↦ rw (now, before) (Fewer-without p q k fewer)
    ]
  ]

  remembered_as-Fewer : (n : Node) → Fewer (remembered_as s p n) (remembered_as s q n)
  remembered_as-Fewer (Node.store addr value) =
      elim (Bool-cases (s.protocol.on_success && s.program.error_typed value)) [
        | inl e ↦ rw e (remember-Fewer value (index_of s.returned addr))
        | inr e ↦ rw e fewer
      ]
  remembered_as-Fewer _ = fewer

  remembered-Fewer : (i : ℕ) → Fewer (remembered s p i) (remembered s q i)
  unfolding remembered
  remembered-Fewer i = remembered_as-Fewer (s.program.node i)

  proved-Fewer :
      (position : ℕ) (o : Option Proof) → Fewer (proved s p position o) (proved s q position o)
  proved-Fewer position none = fewer
  proved-Fewer position (some found) =
      learned-fewer
        (index_of s.returned (variable_or_self s found.checked (variable_read s found.checked)))
    where
      learned-fewer :
          (o : Option ℕ) → Fewer (learned s p found position o) (learned s q found position o)
      learned-fewer none = fewer
      learned-fewer (some k) = elim (Bool-cases (position == found.failing)) [
        | inl e ↦ rw e (Fewer-with p q k fewer)
        | inr e ↦ elim (Bool-cases found.nil_otherwise) [
          | inl n ↦ rw (e, n) (Fewer-without p q k fewer)
          | inr n ↦ rw (e, n) fewer
        ]
      ]

  along-Fewer :
      (condition position : ℕ) → Fewer (along s p condition position) (along s q condition position)
  unfolding along
  along-Fewer condition position = proved-Fewer position (proof_of s condition)

  -- A return that leaks, knowing the second, leaks knowing the first.
  returns_failure-fewer :
      (results : List ℕ) → returns_failure s p results ≡ true → returns_failure s q results ≡ true
  unfolding returns_failure
  returns_failure-fewer results h = hands_back-fewer (last? results) h
    where
      hands_back-fewer :
          (o : Option ℕ) → hands_back_failure s p o ≡ true → hands_back_failure s q o ≡ true
      hands_back-fewer none h = h
      hands_back-fewer (some v) h = ground (arith, fails-fewer v)

-- One knows fewer failures than the other, at one point.
abbrev pub Below : State → State → Type 0
Below u t = (u.at ≡ t.at) × Fewer u.failed t.failed

-- The first step or block leaks wherever the second does, ends alike, and goes on below it.
abbrev StepBelow : Stepped → Stepped → Type 0
StepBelow (goes u) (goes t) = Below u t
StepBelow (stops l e) (stops l' e') = (e ≡ e') × (l ≡ leak_none → l' ≡ leak_none)
StepBelow _ _ = ⊥

abbrev pub AllBelow : List State → List State → Type 0
AllBelow [] [] = Unit
AllBelow (u ∷ us) (t ∷ ts) = Below u t × AllBelow us ts
AllBelow _ _ = ⊥

pub record AdvancedBelow (a b : Advanced) : Type 0 where
  pub next : AllBelow a.next b.next
  pub ended : a.ended ≡ b.ended
  pub leak : a.leak ≡ leak_none → b.leak ≡ leak_none

module _ (s : Search) (p q : Proven) (fewer : Fewer p q) where
  exit-below :
      (at : Point) (results : List ℕ) → StepBelow (exit s at p results) (exit s at q results)
  unfolding exit leak_at
  exit-below at results = ground (arith, returns_failure-fewer s p q fewer results)

  continue-below : (r : Point × Ending) → StepBelow (continue s p r) (continue s q r)
  continue-below (at, end_none) = (refl, fewer)
  continue-below (at, _) = (refl, λ h. h)

  exits-below :
      (at : Point) (n : Node) (happened : Event)
      → StepBelow (exits s at p n happened) (exits s at q n happened)
  exits-below at (Node.returns results) event_exit = exit-below at results
  exits-below at n happened = continue-below (after at happened)

if-Fewer :
    (b : Bool) (x y x' y' : Proven)
    → Fewer x y
    → Fewer x' y'
    → Fewer (if b then x else x') (if b then y else y')
if-Fewer true x y x' y' h k = h
if-Fewer false x y x' y' h k = k

append-below :
    (us us' ts ts' : List State)
    → AllBelow us ts
    → AllBelow us' ts'
    → AllBelow (us ++ us') (ts ++ ts')
append-below [] us' [] ts' h k = k
append-below [] us' (t ∷ ts) ts' h k = absurd h
append-below (u ∷ us) us' [] ts' h k = absurd h
append-below (u ∷ us) us' (t ∷ ts) ts' h k = (h.0, append-below us us' ts ts' h.1 k)

module _ (s : Search) (p q : Proven) (fewer : Fewer p q) where
  into_found-below :
      (at : Point) (b : Bool) (o : Option ℕ)
      → AllBelow
          (into_found s (record { at = at; failed = p }) b o)
          (into_found s (record { at = at; failed = q }) b o)
  into_found-below at b none = tt
  into_found-below at b (some block) = ((refl, fewer), tt)

  known_along-Fewer :
      (at : Point) (branch : Option ℕ) (k : ℕ)
      → Fewer
          (known_along s (record { at = at; failed = p }) branch k)
          (known_along s (record { at = at; failed = q }) branch k)
  known_along-Fewer at none k = fewer
  known_along-Fewer at (some condition) k =
      if-Fewer s.protocol.on_success _ _ _ _ (along-Fewer s p q fewer condition k) fewer

  following-below :
      (at : Point) (branch : Option ℕ) (k : ℕ) (succs : List ℕ)
      → AllBelow
          (following s (record { at = at; failed = p }) branch k succs)
          (following s (record { at = at; failed = q }) branch k succs)
  unfolding following
  following-below at branch k [] = tt
  following-below at branch k (b ∷ succs) =
      ((refl, known_along-Fewer at branch k), following-below at branch (suc k) succs)

  chosen-below :
      (at : Point) (succs : List ℕ) (branch : Option ℕ) (v : Verdict)
      → AllBelow
          (chosen s (record { at = at; failed = p }) succs branch v)
          (chosen s (record { at = at; failed = q }) succs branch v)
  chosen-below at succs branch verdict_failed = into_found-below at false (get_elem? succs 1)
  chosen-below at succs branch verdict_succeeded = into_found-below at false (get_elem? succs 0)
  chosen-below at succs branch verdict_unknown =
      append-below _ _ _ _ (into_found-below at true (get_elem? succs 0))
        (into_found-below at true (get_elem? succs 1))
  chosen-below at succs branch verdict_none = following-below at branch 0 succs

  step-below :
      (at : Point) (i : ℕ)
      → StepBelow
          (step s (record { at = at; failed = p }) i)
          (step s (record { at = at; failed = q }) i)
  unfolding step
  step-below at i =
      let at' = registered s (stored s.failure at (s.program.node i)) i in
      elim (Bool-cases (calls_before_defer s at' i (classify s i))) [
        | inl e ↦ rw e (refl, λ h. h)
        | inr e ↦ rw e (
            exits-below s (remembered s p i) (remembered s q i) (remembered-Fewer s p q fewer i) at'
              (s.program.node i) (classify s i))
      ]

resumed-below :
    (s : Search) (is : List ℕ) (a b : Stepped)
    → ((p q : Proven) (at : Point)
        → Fewer p q
        → AdvancedBelow
            (run s is (record { at = at; failed = p }))
            (run s is (record { at = at; failed = q })))
    → StepBelow a b
    → AdvancedBelow (resumed s a (run s is)) (resumed s b (run s is))
resumed-below s is (goes u) (goes t) rest (at, fewer) =
    subst
      (λ (a : Point). AdvancedBelow (run s is u) (run s is (record { at = a; failed = t.failed })))
      at (rest u.failed t.failed u.at fewer)
resumed-below s is (goes u) (stops l e) rest h = absurd h
resumed-below s is (stops l e) (goes t) rest h = absurd h
resumed-below s is (stops l e) (stops l' e') rest (ended, leak) = record {
  next = tt;
  ended = ended;
  leak = leak;
}

run-below :
    (s : Search) (is : List ℕ) (p q : Proven) (at : Point)
    → Fewer p q
    → AdvancedBelow
        (run s is (record { at = at; failed = p }))
        (run s is (record { at = at; failed = q }))
unfolding run successors
run-below s [] p q at fewer = record {
  next = chosen-below s p q fewer at _ _ _;
  ended = refl;
  leak = λ h. h;
}
run-below s (i ∷ is) p q at fewer =
    resumed-below s is _ _ (run-below s is) (step-below s p q fewer at i)

-- Of two states at one point, the one that knows fewer failures leaks wherever one that knows more does, its paths end alike, and
-- it goes on to states that know fewer.
pub advance-Below :
    (s : Search) (u t : State) → Below u t → AdvancedBelow (advance s u) (advance s t)
unfolding advance
advance-Below s u t (at, fewer) =
    subst
      (λ (a : Point).
        AdvancedBelow (advance s u) (advance s (record { at = a; failed = t.failed })))
      at (run-below s _ u.failed t.failed u.at fewer)
