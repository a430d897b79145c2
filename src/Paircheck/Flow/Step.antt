-- ===== src/Paircheck/Flow/Step.antt =====
-- paircheck/flow.go: the states that follow a state, how a path ends, and how it leaks.
use precept.Base.{
  ℕ, suc, ◌+◌, ◌-◌, min, Bool, true, false, not, ◌&&◌, List, [], ◌∷◌, ◌++◌, Option, none, some,
  ◌==◌, leb, if◌then◌else◌, contains_func, last?, drop, get_or, get_elem?,
}
use precept.Paircheck.Proven.{Proven}
use precept.Paircheck.Ssa.{Node, Block}
use precept.Paircheck.Flow.Types.{
  Search, Point, State, Failure, Leak, leak_none, leak_at_exit, leak_before_defer, leak_on_success,
  Ending, end_none, end_discharged, end_open, end_transferred, end_abandoned, Event, event_trigger,
  event_satisfier, event_undeferred, event_deferred, event_exit, event_abandon, event_transfer,
  Verdict, verdict_none, verdict_failed, verdict_succeeded, verdict_unknown,
}
use precept.Paircheck.Flow.Success.{remembered, registered, along, returns_failure, closure_decides}
use precept.Paircheck.Flow.Events.{classify, calls_before_defer}

-- The count from which obligations on one value are no longer told apart.
abbrev pub saturated : ℕ
saturated = 2

-- The state once something happened, and how the path ended there. The search counts at least one
-- open obligation, so `s.open--` is never below zero.
unfoldable pub after : Point → Event → Point × Ending
after p event_trigger = (record p { open_count = min (p.open_count + 1) saturated }, end_none)
after p event_satisfier =
    let p' = record p { open_count = p.open_count - 1; called = true } in
    if p.open_count - 1 == 0 then (p', end_discharged) else (p', end_none)
after p event_undeferred = (record p { called = true }, end_none)
after p event_deferred = (record p { deferred = min (p.deferred + 1) saturated }, end_none)
after p event_abandon = (p, end_abandoned)
after p event_transfer = (p, end_transferred)
after p _ = (p, end_none)

abbrev holds_value : Option ℕ → ℕ → Bool
holds_value none stored = false
holds_value (some value) stored = stored == value

-- The state after an instruction that may store into a variable of the trigger's error.
unfoldable pub stored : Failure → Point → Node → Point
stored failed p (Node.store addr value) =
    if contains_func failed.homes (λ home. home == addr)
    then record p { displaced = not (holds_value failed.value value) }
    else p
stored failed p _ = p

-- What one instruction makes of a state: a state at the next one, or the end of the search there.
pub data Stepped : Type 0 where
  goes : State → Stepped
  stops : Leak → List Ending → Stepped

-- What a block makes of a state.
pub record Advanced : Type 0 where
  pub next : List State
  pub leak : Leak
  pub ended : List Ending

-- The node of the last instruction of a block, if it is a branch: its condition.
abbrev pub condition_of : Node → Option ℕ
condition_of (Node.branch condition) = some condition
condition_of _ = none

module _ (s : Search) where
  abbrev node : ℕ → Node
  node = s.program.node

  unfoldable pub leak_at : Point → Proven → List ℕ → Leak
  unfolding returns_failure closure_decides
  leak_at p failed results =
      if p.uncertain
      then leak_none
      else if not (leb p.open_count p.deferred)
      then leak_at_exit
      else if s.protocol.on_success
          && not p.called
          && not (returns_failure s failed results)
          && not (closure_decides s p results)
      then leak_on_success
      else leak_none

  -- `exit`: the leak, and the ending noted.
  abbrev pub exit_ending : Point → Leak → List Ending
  exit_ending p leak_at_exit = end_open ∷ []
  exit_ending p _ = if leb p.open_count p.deferred then end_discharged ∷ [] else []

  unfoldable pub exit : Point → Proven → List ℕ → Stepped
  unfolding leak_at
  exit p failed results = let found = leak_at p failed results in stops found (exit_ending p found)

  abbrev pub continue : Proven → Point × Ending → Stepped
  continue failed (p, end_none) = goes (record { at = p; failed = failed })
  continue failed (p, ends) = stops leak_none (ends ∷ [])

  abbrev pub exits : Point → Proven → Node → Event → Stepped
  exits p failed (Node.returns results) event_exit = exit p failed results
  exits p failed node happened = continue failed (after p happened)

  -- One round of the loop of `advance`.
  unfoldable pub step : State → ℕ → Stepped
  unfolding remembered registered stored classify calls_before_defer exit after
  step current instruction =
      let p = registered s (stored s.failure current.at (node instruction)) instruction in
      let failed = remembered s current.failed instruction in
      let happened = classify s instruction in
      if calls_before_defer s p instruction happened
      then stops leak_before_defer []
      else exits p failed (node instruction) happened

  -- `into`, at a position of the successors of a block
  abbrev pub into : State → ℕ → Bool → State
  into current block uncertain = record {
    at = record (current.at) { block = block; index = 0; uncertain = uncertain };
    failed = current.failed;
  }

  abbrev pub into_found : State → Bool → Option ℕ → List State
  into_found current uncertain none = []
  into_found current uncertain (some block) = into current block uncertain ∷ []

  abbrev pub into_position : State → List ℕ → ℕ → Bool → List State
  into_position current succs position uncertain =
      into_found current uncertain (get_elem? succs position)

  abbrev pub known_along : State → Option ℕ → ℕ → Proven
  known_along current none position = current.failed
  known_along current (some condition) position =
      if s.protocol.on_success then along s current.failed condition position else current.failed

  -- The loop over the successors, from a position.
  unfoldable pub following : State → Option ℕ → ℕ → List ℕ → List State
  unfolding along
  following current branch position [] = []
  following current branch position (successor ∷ succs) =
      record (into current successor current.at.uncertain) {
        failed = known_along current branch position;
      }
      ∷ following current branch (suc position) succs

  abbrev pub read_at : Bool → Failure
  read_at displaced = if displaced then record (s.failure) { homes = [] } else s.failure

  -- What a branch says of the trigger's error, where there is one.
  abbrev pub verdict_at : Point → Option ℕ → Verdict
  verdict_at p none = verdict_none
  verdict_at p (some condition) = elim s.failure.value [
    | none ↦ verdict_none
    | some value ↦ s.rule.verdict_of (read_at p.displaced) condition
  ]

  abbrev pub chosen : State → List ℕ → Option ℕ → Verdict → List State
  chosen current succs branch verdict_failed = into_position current succs 1 false
  chosen current succs branch verdict_succeeded = into_position current succs 0 false
  chosen current succs branch verdict_unknown =
      into_position current succs 0 true ++ into_position current succs 1 true
  chosen current succs branch verdict_none = following current branch 0 succs

  abbrev pub block_at : ℕ → Block
  block_at block = get_or s.program.blocks block (record { instrs = []; succs = [] })

  abbrev pub branch_at : Block → Option ℕ
  branch_at block = elim (last? block.instrs) [
    | none ↦ none
    | some instruction ↦ condition_of (node instruction)
  ]

  unfoldable pub successors : State → List State
  unfolding following
  successors current =
      let block = block_at current.at.block in
      chosen current block.succs (branch_at block) (verdict_at current.at (branch_at block))

  abbrev pub resumed : Stepped → (State → Advanced) → Advanced
  resumed (goes next) rest = rest next
  resumed (stops leak ended) rest = record { next = []; leak = leak; ended = ended }

  unfoldable pub run : List ℕ → State → Advanced
  unfolding step successors
  run [] current = record { next = successors current; leak = leak_none; ended = [] }
  run (instruction ∷ rest) current = resumed (step current instruction) (run rest)

  -- Runs the instructions of a block from where the state resumes.
  unfoldable pub advance : State → Advanced
  unfolding run
  advance current = run (drop current.at.index (block_at current.at.block).instrs) current
