-- ===== src/Paircheck/Flow/Explore.antt =====
-- paircheck/flow.go: the loop of `explore`, on fuel, and `leaks`; paircheck/summary.go: `follow`, which
-- reads the endings of one search.
use precept.Base.{
  ℕ, zero, suc, Bool, true, false, ◌&&◌, not, List, [], ◌∷◌, ◌++◌, Option, none, some, ◌==◌,
  same_bool, if◌then◌else◌, reverse, contains_func,
}
use precept.Paircheck.Proven.{Proven, includes, common}
use precept.Paircheck.Flow.Types.{
  Search, Point, State, Leak, leak_none, Ending, end_none, end_discharged, end_open,
  end_transferred, end_abandoned,
}
use precept.Paircheck.Flow.Step.{advance}

abbrev pub same_bytes : List ℕ → List ℕ → Bool
same_bytes [] [] = true
same_bytes [] (c ∷ q) = false
same_bytes (b ∷ p) [] = false
same_bytes (b ∷ p) (c ∷ q) = b == c && same_bytes p q

-- Equality of the keys of `searched`.
unfoldable pub same_point : Point → Point → Bool
same_point p q =
    p.block == q.block
    && p.index == q.index
    && p.open_count == q.open_count
    && p.deferred == q.deferred
    && same_bool p.uncertain q.uncertain
    && same_bool p.displaced q.displaced
    && same_bool p.called q.called
    && same_bytes p.closures q.closures

-- `searched`: a map from points to the failures known there, the newest entry first.
abbrev pub Searched : Type 0
Searched = List (Point × Proven)

unfoldable pub known_at : Searched → Point → Option Proven
unfolding same_point
known_at [] point = none
known_at ((key, known) ∷ searched) point =
    if same_point key point then some known else known_at searched point

-- The state to search on from, unless its point was searched knowing no more.
unfoldable pub revisit : State → Option Proven → Option State
unfolding includes common
revisit current none = some current
revisit current (some known) =
    if includes current.failed known
    then none
    else some (record current { failed = common current.failed known })

abbrev pub is_leak : Leak → Bool
is_leak leak_none = false
is_leak _ = true

-- The first leak found.
abbrev pub first_leak : Leak → Leak → Leak
first_leak leak_none leaked = leaked
first_leak found leaked = found

-- What a search found: its first leak and every way a path ended. `searched` is what it leaves of the
-- map, which the code drops.
pub record Explored : Type 0 where
  pub found : Leak
  pub ended : List Ending
  pub searched : Searched

module _ (s : Search) (first : Bool) where
  -- The loop: `pending` has its last element first, so `next` is pushed reversed. `none` says that the
  -- fuel ran out.
  unfoldable pub explore : ℕ → List State → Searched → Leak → List Ending → Option Explored
  unfolding advance revisit known_at
  explore fuel [] searched found ended =
      some (record { found = found; ended = ended; searched = searched })
  explore zero (current ∷ pending) searched found ended = none
  explore (suc fuel) (current ∷ pending) searched found ended =
      elim (revisit current (known_at searched current.at)) [
        | none ↦ explore fuel pending searched found ended
        | some state ↦
            let advanced = advance s state in
            let found' = first_leak found advanced.leak in
            let searched' = (state.at, state.failed) ∷ searched in
            let ended' = advanced.ended ++ ended in
            elim (first && is_leak found') [
              | true ↦ some (record { found = found'; ended = ended'; searched = searched' })
              | false ↦ explore fuel (reverse advanced.next ++ pending) searched' found' ended'
            ]
      ]

-- The state a search starts from.
unfoldable pub start : Search → State
start s = record {
  at = record {
    block = s.start_block;
    index = s.start_index;
    open_count = 1;
    deferred = 0;
    uncertain = false;
    displaced = false;
    called = false;
    closures = [];
  };
  failed = [];
}

unfoldable pub leaks : Search → ℕ → Option Leak
unfolding explore start
leaks s fuel = elim (explore s true fuel (start s ∷ []) [] leak_none []) [
  | none ↦ none
  | some explored ↦ some explored.found
]

-- The search of `follow`, for the function a parameter belongs to: it starts with the function, no call
-- opened the obligation, and the keys that decide how a caller discharges the value are off.
abbrev pub helper : Search → ℕ → Search
helper s parameter = record s {
  protocol = record (s.protocol) { require_defer = false; defer_first = false; on_success = false };
  value = some parameter;
  failure = record { value = none; homes = [] };
  start_block = 0;
  start_index = 0;
  returned = [];
  tracked = [];
}

abbrev pub same_ending : Ending → Ending → Bool
same_ending end_none end_none = true
same_ending end_discharged end_discharged = true
same_ending end_open end_open = true
same_ending end_transferred end_transferred = true
same_ending end_abandoned end_abandoned = true
same_ending _ _ = false

abbrev pub ends : List Ending → Ending → Bool
ends ended how = contains_func ended (same_ending how)

-- What a function does with a parameter: whether it discharges it, and whether it keeps it.
unfoldable pub judged : List Ending → Bool × Bool
judged ended =
    if ends ended end_transferred
    then (false, false)
    else if ends ended end_discharged && not (ends ended end_open)
    then (true, false)
    else if ends ended end_open && not (ends ended end_discharged)
    then (false, true)
    else (false, false)

unfoldable pub follow : Search → ℕ → ℕ → Option (Bool × Bool)
unfolding explore start judged
follow s parameter fuel =
    let search = helper s parameter in
    elim (explore search false fuel (start search ∷ []) [] leak_none []) [
      | none ↦ none
      | some explored ↦ some (judged explored.ended)
    ]
