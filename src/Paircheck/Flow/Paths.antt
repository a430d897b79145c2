-- ===== src/Paircheck/Flow/Paths.antt =====
-- The paths of a function as paircheck/flow.go follows them, with no merging of states: what the search
-- promises is stated over these.
use precept.Base.{◌≡◌, Memᴰ}
use precept.Paircheck.Flow.Types.{Search, State, leak_none}
use precept.Paircheck.Flow.Step.{advance}

-- The states of the paths from a state. A path goes on from a state whose block leaks nothing.
pub data Reach (s : Search) (start : State) : State → Type 0 where
  here : Reach s start start
  onward :
      {t u : State}
      → Reach s start t
      → (advance s t).leak ≡ leak_none
      → Memᴰ u (advance s t).next
      → Reach s start u
