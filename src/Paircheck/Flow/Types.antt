-- ===== src/Paircheck/Flow/Types.antt =====
-- The events, leaks, endings and states of paircheck/flow.go, and what a search is given.
use precept.Base.{ℕ, Bool, List, Option}
use precept.Paircheck.Proven.{Proven}
use precept.Paircheck.Ssa.{Program, Common}

pub data Event : Type 0 where
  event_none event_trigger event_satisfier event_undeferred : Event
  event_deferred event_exit event_abandon event_transfer : Event

pub data Leak : Type 0 where
  leak_none leak_at_exit leak_before_defer leak_on_success : Leak

pub data Ending : Type 0 where
  end_none end_discharged end_open end_transferred end_abandoned : Ending

-- paircheck/identity.go
pub data Sameness : Type 0 where
  same_unknown same_yes same_no : Sameness

-- paircheck/failure.go
pub data Verdict : Type 0 where
  verdict_none verdict_failed verdict_succeeded verdict_unknown : Verdict

-- The error a trigger call returned, nil if there is none, and the variables it was stored into.
pub record Failure : Type 0 where
  pub value : Option ℕ
  pub homes : List ℕ

-- The keys of a protocol that the search reads (paircheck/protocol.go).
pub record Protocol : Type 0 where
  pub require_defer : Bool
  pub idempotent : Bool
  pub defer_first : Bool
  pub on_success : Bool

-- A `state` but for the failures it knows: `point` of `explore`, the key of `searched`.
pub record Point : Type 0 where
  pub block : ℕ
  pub index : ℕ
  pub open_count : ℕ
  pub deferred : ℕ
  pub uncertain : Bool
  pub displaced : Bool
  pub called : Bool
  pub closures : Proven

pub record State : Type 0 where
  pub at : Point
  pub failed : Proven

-- What the search asks of the rest of the package, for its one binding and obligation: which satisfier
-- a call is (bind.go), the value a call carries in a satisfier's slot and in the trigger's (slot.go),
-- whether that is the value opened (identity.go), what a call does through a summary (summary.go),
-- what hands the value over (transfer.go), what a deferred closure does (closure.go), which errors
-- are built as failures (failures.go), and what a condition says of the trigger's error (failure.go).
pub record Rule : Type 0 where
  pub satisfier_of : Common → Option ℕ
  pub satisfier_value : ℕ → ℕ → Option ℕ
  pub satisfied : ℕ → ℕ → ℕ → Sameness
  pub opens : Common → Bool
  pub trigger_value : ℕ → Option ℕ
  pub compare : Option ℕ → Option ℕ → Sameness
  pub summarized : Common → Bool × List ℕ
  pub hands_over : Common → List ℕ → Bool
  pub hands_back : List ℕ → Bool
  pub escaped : ℕ → Bool
  pub closure_discharges : ℕ → Bool
  pub closure_settles : ℕ → Option ℕ → Bool
  pub built : ℕ → Bool
  pub verdict_of : Failure → ℕ → Verdict

-- A search: its binding's protocol and rule, its obligation, and under on-success the indices of the
-- errors the function can return and of the deferred closures that call a satisfier.
pub record Search : Type 0 where
  pub program : Program
  pub protocol : Protocol
  pub rule : Rule
  pub value : Option ℕ
  pub failure : Failure
  pub start_block : ℕ
  pub start_index : ℕ
  pub returned : List (ℕ × ℕ)
  pub tracked : List (ℕ × ℕ)
