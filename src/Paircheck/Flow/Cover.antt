-- ===== src/Paircheck/Flow/Cover.antt =====
-- The states that the loop of `explore` (paircheck/flow.go) has still to search, or has searched, and how
-- each round of it keeps them.
use precept.Base.{
  true, List, [], ◌∷◌, ◌++◌, some, ◌≡◌, refl, sym, ◌∙◌, ◌⊎◌, inl, inr, subst, Memᴰ, reverse,
}
use mathlib.Core.List.Memᴰ
use precept.Base.Members.{mem-reverse}
use precept.Paircheck.Proven.{Proven}
use precept.Paircheck.Flow.Types.{Search, Point, State, Leak, leak_none, Ending}
use precept.Paircheck.Flow.Step.{advance}
use precept.Paircheck.Flow.Explore.{Searched, known_at, is_leak, first_leak}
use precept.Paircheck.Flow.Simulation.{Fewer, Below, AllBelow}
use precept.Paircheck.Flow.Points.{known_at-head, known_at-cons}

-- A state is waiting, or was searched, knowing no more failures.
unfoldable pub Covered : Searched → List State → State → Type 0
Covered searched pending v =
    ((w : State) × Memᴰ w pending × Below w v)
    ⊎ ((k : Proven) × (known_at searched v.at ≡ some k) × Fewer k v.failed)

-- The point is known in the new map with no more failures than in the old.
abbrev Shrinks : Searched → Searched → Type 0
Shrinks old new =
    (p : Point) (k : Proven)
    → known_at old p ≡ some k
    → (k' : Proven) × (known_at new p ≡ some k') × Fewer k' k

pub Covered-Below :
    (searched : Searched) (pending : List State) (w v : State)
    → Below w v
    → Covered searched pending w
    → Covered searched pending v
unfolding Covered
Covered-Below searched pending w v (at, fewer) (inl (x, m, (at', fewer'))) =
    inl (x, m, (at' ∙ at, λ i h. fewer i (fewer' i h)))
Covered-Below searched pending w v (at, fewer) (inr (k, e, fewer')) =
    inr (k, subst (λ (p : Point). known_at searched p ≡ some k) at e, λ i h. fewer i (fewer' i h))

Covered-map :
    (old new : Searched) (before after : List State)
    → Shrinks old new
    → ((w : State) → Memᴰ w before → Covered new after w)
    → (v : State) → Covered old before v
    → Covered new after v
unfolding Covered
Covered-map old new before after shrinks keeps v (inl (w, m, below)) =
    Covered-Below new after w v below (keeps w m)
Covered-map old new before after shrinks keeps v (inr (k, e, fewer)) =
    let (k', e', fewer') = shrinks v.at k e in inr (k', e', λ i h. fewer i (fewer' i h))

pub first_leak_left : (f l : Leak) → is_leak f ≡ true → is_leak (first_leak f l) ≡ true
first_leak_left leak_none l h = cc
first_leak_left _ l h = h

pub first_leak_right : (f l : Leak) → is_leak l ≡ true → is_leak (first_leak f l) ≡ true
first_leak_right leak_none l h = h
first_leak_right _ l h = refl

pub in_map :
    (searched : Searched) (v : State)
    → Covered searched [] v
    → (k : Proven) × (known_at searched v.at ≡ some k) × Fewer k v.failed
unfolding Covered
in_map searched v (inl (w, m, below)) = absurd (Memᴰ.not-nil m)
in_map searched v (inr known) = known

pub mem-AllBelow :
    (us ts : List State) {t : State}
    → AllBelow us ts
    → Memᴰ t ts
    → (u : State) × Memᴰ u us × Below u t
mem-AllBelow [] [] h m = absurd (Memᴰ.not-nil m)
mem-AllBelow [] (x ∷ ts) h m = absurd h
mem-AllBelow (u ∷ us) [] h m = absurd h
mem-AllBelow (u ∷ us) (x ∷ ts) {t} (below, rest) m = elim (Memᴰ.cases_cons m) [
  | inl same ↦ (u, Memᴰ.head refl, subst (λ (y : State). Below u y) (sym same) below)
  | inr later ↦ let (w, m', under) = mem-AllBelow us ts rest later in (w, Memᴰ.tail m', under)
]

module _ (s : Search) where
  -- What a searched state has left behind.
  pub record Settled (searched : Searched) (pending : List State) (found : Leak)
      (ended : List Ending) (u : State) : Type 0 where
    pub leaked : is_leak (advance s u).leak ≡ true → is_leak found ≡ true
    pub noted : (e : Ending) → Memᴰ e (advance s u).ended → Memᴰ e ended
    pub went : (v : State) → Memᴰ v (advance s u).next → Covered searched pending v

  abbrev pub Closed : Searched → List State → Leak → List Ending → Type 0
  Closed searched pending found ended =
      (p : Point) (k : Proven)
      → known_at searched p ≡ some k
      → Settled searched pending found ended (record { at = p; failed = k })

  Settled-map :
      (old new : Searched) (before after : List State) (found found' : Leak)
      (ended ended' : List Ending) (u : State)
      → (is_leak found ≡ true → is_leak found' ≡ true)
      → ((e : Ending) → Memᴰ e ended → Memᴰ e ended')
      → ((v : State) → Covered old before v → Covered new after v)
      → Settled old before found ended u
      → Settled new after found' ended' u
  Settled-map old new before after found found' ended ended' u f g h settled = record {
    leaked = λ l. f (settled.leaked l);
    noted = λ e m. g e (settled.noted e m);
    went = λ v m. h v (settled.went v m);
  }

  -- Where a state is passed over, what it covers is covered by the map.
  pub skip-Covered :
      (c : State) (searched : Searched) (pending : List State) (k : Proven)
      → known_at searched c.at ≡ some k
      → Fewer k c.failed
      → (v : State) → Covered searched (c ∷ pending) v
      → Covered searched pending v
  unfolding Covered
  skip-Covered c searched pending k e fewer =
      Covered-map searched searched (c ∷ pending) pending (λ p k e. (k, e, λ i h. h)) keeps
    where
      known :
          (k : Proven)
          → known_at searched c.at ≡ some k
          → Fewer k c.failed
          → Covered searched pending c
      known k e fewer = inr (k, e, fewer)

      waits : (w : State) → Memᴰ w pending → Covered searched pending w
      waits w m = inl (w, m, (refl, λ i h. h))

      keeps : (w : State) → Memᴰ w (c ∷ pending) → Covered searched pending w
      keeps w m = elim (Memᴰ.cases_cons m) [
        | inl same ↦ subst (λ (x : State). Covered searched pending x) (sym same) (known k e fewer)
        | inr waiting ↦ waits w waiting
      ]

  -- Where it is searched, by the new entry and the states that follow.
  pub search-Covered :
      (c u : State) (searched : Searched) (pending next : List State)
      → u.at ≡ c.at
      → Fewer u.failed c.failed
      → ((k : Proven) → known_at searched c.at ≡ some k → Fewer u.failed k)
      → (v : State) → Covered searched (c ∷ pending) v
      → Covered ((u.at, u.failed) ∷ searched) (next ++ pending) v
  unfolding Covered
  search-Covered c u searched pending next at fewer older =
      Covered-map searched _ (c ∷ pending) _ shrinks keeps
    where
      shrinks : Shrinks searched ((u.at, u.failed) ∷ searched)
      shrinks p k e = elim (known_at-cons u.at p u.failed searched) [
        | inl (same, found) ↦ (
          u.failed,
          found,
          older k (subst (λ (x : Point). known_at searched x ≡ some k) (sym same ∙ at) e),
        )
        | inr same ↦ (k, same ∙ e, λ i h. h)
      ]

      entered : Covered ((u.at, u.failed) ∷ searched) (next ++ pending) c
      entered = inr (
        u.failed,
        subst (λ (x : Point). known_at ((u.at, u.failed) ∷ searched) x ≡ some u.failed) at
            (known_at-head u.at u.failed searched),
        fewer,
      )

      keeps :
          (w : State)
          → Memᴰ w (c ∷ pending)
          → Covered ((u.at, u.failed) ∷ searched) (next ++ pending) w
      keeps w m = elim (Memᴰ.cases_cons m) [
        | inl same ↦
            subst (λ (x : State). Covered ((u.at, u.failed) ∷ searched) (next ++ pending) x)
              (sym same) entered
        | inr waiting ↦ inl (w, Memᴰ.append_right next waiting, (refl, λ i h. h))
      ]

  pub search-Closed :
      (c u : State) (searched : Searched) (pending : List State) (found : Leak)
      (ended : List Ending)
      → u.at ≡ c.at
      → Fewer u.failed c.failed
      → ((k : Proven) → known_at searched c.at ≡ some k → Fewer u.failed k)
      → Closed searched (c ∷ pending) found ended
      → Closed
          ((u.at, u.failed) ∷ searched)
          (reverse (advance s u).next ++ pending)
          (first_leak found (advance s u).leak)
          ((advance s u).ended ++ ended)
  unfolding Covered
  search-Closed c u searched pending found ended at fewer older closed p k e =
      elim (known_at-cons u.at p u.failed searched) [
        | inl (same, now) ↦
            subst (λ (x : State). Settled new after found' ended' x) (eq_state p k same now e) entry
        | inr same ↦
            Settled-map searched new (c ∷ pending) after found found' ended ended'
              (record { at = p; failed = k }) (first_leak_left found (advance s u).leak)
              (λ x m. Memᴰ.append_right (advance s u).ended m)
              (search-Covered c u searched pending (reverse (advance s u).next) at fewer older)
              (closed p k (sym same ∙ e))
      ]
    where
      new : Searched
      new = (u.at, u.failed) ∷ searched

      after : List State
      after = reverse (advance s u).next ++ pending

      found' : Leak
      found' = first_leak found (advance s u).leak

      ended' : List Ending
      ended' = (advance s u).ended ++ ended

      entry : Settled new after found' ended' u
      entry = record {
        leaked = first_leak_right found (advance s u).leak;
        noted = λ x m. Memᴰ.append_left ended m;
        went = λ v m. inl (v, Memᴰ.append_left pending (mem-reverse _ m), (refl, λ i h. h));
      }

      eq_state :
          (p : Point) (k : Proven)
          → u.at ≡ p
          → known_at new p ≡ some u.failed
          → known_at new p ≡ some k
          → u ≡ record { at = p; failed = k }
      eq_state p k same now e = cc

  pub skip-Closed :
      (c : State) (searched : Searched) (pending : List State) (found : Leak) (ended : List Ending)
      (k : Proven)
      → known_at searched c.at ≡ some k
      → Fewer k c.failed
      → Closed searched (c ∷ pending) found ended
      → Closed searched pending found ended
  skip-Closed c searched pending found ended k known fewer closed p k' e =
      Settled-map searched searched (c ∷ pending) pending found found ended ended
        (record { at = p; failed = k' }) (λ l. l) (λ x m. m)
        (skip-Covered c searched pending k known fewer) (closed p k' e)
