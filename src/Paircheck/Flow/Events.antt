-- ===== src/Paircheck/Flow/Events.antt =====
-- paircheck/flow.go: what an instruction does to the obligation (`classify` and what it asks), and the
-- check of defer-first.
use precept.Base.{
  ℕ, Bool, true, false, not, ◌&&◌, ◌||◌, List, [], ◌∷◌, Option, none, some, leb, if◌then◌else◌,
  contains_func,
}
use precept.Paircheck.Ssa.{Common, Node}
use precept.Paircheck.Flow.Types.{
  Search, Point, Event, event_none, event_trigger, event_satisfier, event_undeferred,
  event_deferred, event_exit, event_abandon, event_transfer, Sameness, same_yes, same_no,
}

abbrev pub is_no : Sameness → Bool
is_no same_no = true
is_no _ = false

abbrev is_yes : Sameness → Bool
is_yes same_yes = true
is_yes _ = false

abbrev pub is_abandon : Event → Bool
is_abandon event_abandon = true
is_abandon _ = false

abbrev is_builtin : Node → Bool
is_builtin Node.builtin = true
is_builtin _ = false

-- The call an instruction makes, now or at the exit.
abbrev call_instruction : Node → Option Common
call_instruction (Node.call common) = some common
call_instruction (Node.deferred_call common) = some common
call_instruction _ = none

module _ (s : Search) where
  abbrev node : ℕ → Node
  node = s.program.node

  -- A value that may be the same one discharges: only one proven to be another does not.
  abbrev carries_opened : ℕ → Option ℕ → Option ℕ → Bool
  carries_opened index none opened = true
  carries_opened index (some value) none = true
  carries_opened index (some value) (some opened) =
      not (is_no (s.rule.satisfied index value opened))

  abbrev discharges_by : ℕ → Option ℕ → Bool
  discharges_by call none = false
  discharges_by call (some index) = carries_opened index (s.rule.satisfier_value index call) s.value

  unfoldable pub discharges : ℕ → Common → Bool
  discharges call common = discharges_by call (s.rule.satisfier_of common)

  unfoldable pub reopens : ℕ → Common → Bool
  reopens call common =
      s.rule.opens common && is_yes (s.rule.compare (s.rule.trigger_value call) s.value)

  abbrev summarized_as : Common → Bool × List ℕ → Event
  summarized_as common (discharged, kept) =
      if discharged && s.protocol.require_defer
      then event_undeferred
      else if discharged
      then event_satisfier
      else if s.rule.hands_over common kept
      then event_transfer
      else event_none

  unfoldable pub called : ℕ → Common → Event
  unfolding discharges reopens
  called call common =
      if discharges call common
      then (if s.protocol.require_defer then event_undeferred else event_satisfier)
      else if reopens call common
      then (if s.protocol.idempotent then event_none else event_trigger)
      else summarized_as common (s.rule.summarized common)

  abbrev deferred_as : ℕ → Common → Bool × List ℕ → Event
  deferred_as statement common (discharged, kept) =
      if discharged || discharges statement common || s.rule.closure_discharges statement
      then event_deferred
      else if s.rule.hands_over common kept
      then event_transfer
      else event_none

  unfoldable pub deferred : ℕ → Common → Event
  unfolding discharges
  deferred statement common = deferred_as statement common (s.rule.summarized common)

  -- What is left to ask of an instruction that does nothing else.
  abbrev escape : ℕ → Event
  escape instruction = if s.rule.escaped instruction then event_transfer else event_none

  abbrev or_escape : ℕ → Event → Event
  or_escape instruction event_none = escape instruction
  or_escape instruction happened = happened

  unfoldable pub classify : ℕ → Event
  unfolding called deferred
  classify instruction = elim (node instruction) [
    | Node.call common ↦ called instruction common
    | Node.deferred_call common ↦ or_escape instruction (deferred instruction common)
    | Node.returns results ↦ if s.rule.hands_back results then event_transfer else event_exit
    | Node.panics ↦ event_abandon
    | _ ↦ escape instruction
  ]

  abbrev defers_satisfier : ℕ → Node → Bool
  defers_satisfier referrer (Node.deferred_call common) = discharges referrer common
  defers_satisfier referrer _ = false

  -- Every use of a call's result is a deferred satisfier.
  unfoldable pub feeds_deferred_satisfier : List ℕ → Bool
  unfolding discharges
  feeds_deferred_satisfier [] = false
  feeds_deferred_satisfier (r ∷ referrers) =
      not (
        contains_func (r ∷ referrers) (λ referrer. not (defers_satisfier referrer (node referrer))))

  unfoldable pub calls_before_defer : Point → ℕ → Event → Bool
  unfolding discharges feeds_deferred_satisfier
  calls_before_defer current instruction happened =
      if not s.protocol.defer_first || current.uncertain || leb current.open_count current.deferred
      then false
      else elim (node instruction) [
        | Node.call common ↦
            if is_abandon happened || discharges instruction common
            then false
            else if is_builtin (node common.value)
            then false
            else not (feeds_deferred_satisfier (s.program.referrers instruction))
        | _ ↦ false
      ]
