-- ===== src/Paircheck/Samples.antt =====
-- Runs of the model of paircheck on small functions, and the properties at them.

use precept.Base.{
  ℕ, Bool, true, false, [], ◌∷◌, none, some, ◌==◌, if◌then◌else◌, ◌&&◌, ◌≡◌, ◌↔◌, refl, arith, All,
}
use precept.Paircheck.Ssa.{Common, Node}
use precept.Paircheck.Proven.{Proven, has, with, without, common, includes}
use precept.Paircheck.Proven.Laws.{has-with, has-without, has-common}
use precept.Paircheck.Proven.Spelling.{
  IsProven, includes_iff, one_spelling, with-IsProven, without-IsProven,
}
use precept.Paircheck.Flow.Types.{
  Search, State, Rule, Leak, leak_none, leak_at_exit, end_discharged, end_open, end_transferred,
  same_yes, same_unknown, verdict_none,
}
use precept.Paircheck.Flow.Step.{advance}
use precept.Paircheck.Flow.Explore.{start, leaks, helper, follow}
use precept.Paircheck.Flow.Paths.{Reach, here}
use precept.Paircheck.Flow.Simulation.{AdvancedBelow, advance-Below}
use precept.Paircheck.Flow.Range.{InRange, advance-InRange}
use precept.Paircheck.Flow.Correct.{
  enough, start-InRange, leaks-ends, leaks_complete, leaks_sound, NothingLeaks, leaks_iff,
}
use precept.Paircheck.Flow.Follow.{Ends, follow-ends, follow-discharges, follow-keeps}

-- Function 7 is the satisfier. Instruction 2 branches, 3 calls the satisfier, 4 and 5 return.
abbrev call_of : ℕ → Common
call_of f = record {
  invoke = false;
  method = none;
  static_object = some f;
  args = 100 ∷ [];
  value = 50;
}

abbrev sample_node : ℕ → Node
sample_node i =
    if i == 2
    then Node.branch 10
    else if i == 3
    then Node.call (call_of 7)
    else if i == 4
    then Node.returns []
    else if i == 5
    then Node.returns []
    else Node.other_node

abbrev rule : Rule
rule = record {
  satisfier_of =
      λ c. elim c.static_object [ none ↦ none | some f ↦ if f == 7 then some 0 else none ];
  satisfier_value = λ index call. some 100;
  satisfied = λ index value opened. if value == opened then same_yes else same_unknown;
  opens = λ c. false;
  trigger_value = λ call. none;
  compare = λ a b. same_unknown;
  summarized = λ c. (false, []);
  hands_over = λ c kept. false;
  hands_back = λ results. false;
  escaped = λ i. false;
  closure_discharges = λ i. false;
  closure_settles = λ i value. false;
  built = λ v. false;
  verdict_of = λ f condition. verdict_none;
}

-- A function whose second branch goes to the given block.
abbrev pub sample : ℕ → Search
sample other = record {
  program = record {
    node = sample_node;
    error_typed = λ v. false;
    referrers = λ v. [];
    full_name = λ f. "";
    blocks =
        record { instrs = 0 ∷ 1 ∷ 2 ∷ []; succs = 1 ∷ other ∷ [] }
        ∷ record { instrs = 3 ∷ 4 ∷ []; succs = [] }
        ∷ record { instrs = 5 ∷ []; succs = [] }
        ∷ [];
    returns_error = false;
  };
  protocol = record {
    require_defer = false;
    idempotent = false;
    defer_first = false;
    on_success = false;
  };
  rule = rule;
  value = some 100;
  failure = record { value = none; homes = [] };
  start_block = 0;
  start_index = 1;
  returned = [];
  tracked = [];
}

-- Both branches call the satisfier; one does not.
abbrev closing : Search
closing = sample 1

abbrev leaking : Search
leaking = sample 2

leaks_closing : leaks closing 5 ≡ some leak_none
unfolding leaks
leaks_closing = refl

leaks_leaking : leaks leaking 5 ≡ some leak_at_exit
unfolding leaks
leaks_leaking = refl

leaks_unfinished : leaks leaking 1 ≡ none
unfolding leaks
leaks_unfinished = refl

follow-closing : follow closing 100 9 ≡ some (true, false)
unfolding follow
follow-closing = refl

follow-leaking : follow leaking 100 9 ≡ some (false, false)
unfolding follow
follow-leaking = refl

leaks-ends_example : (l : Leak) × (leaks leaking (enough leaking) ≡ some l)
leaks-ends_example = leaks-ends leaking (enough leaking) (omega arith)

leaks_complete_example : (advance closing (start closing)).leak ≡ leak_none
leaks_complete_example = leaks_complete closing 5 leaks_closing here

leaks_sound_example :
    (t : State) × Reach leaking (start leaking) t × ((advance leaking t).leak ≡ leak_at_exit)
leaks_sound_example = leaks_sound leaking 5 leak_at_exit refl leaks_leaking refl

leaks_iff_example : (leaks leaking (enough leaking) ≡ some leak_none) ↔ NothingLeaks leaking
leaks_iff_example = leaks_iff leaking (enough leaking) refl (omega arith)

follow-ends_example :
    (j : Bool × Bool) × (follow closing 100 (enough (helper closing 100)) ≡ some j)
follow-ends_example = follow-ends closing 100 (enough (helper closing 100)) (omega arith)

follow-discharges_example : (true ≡ true) ↔ (
    Ends closing 100 end_discharged
    × ¬ Ends closing 100 end_open
    × ¬ Ends closing 100 end_transferred)
follow-discharges_example = follow-discharges closing 100 9 (true, false) follow-closing

follow-keeps_example : (false ≡ true) ↔ (
    Ends leaking 100 end_open
    × ¬ Ends leaking 100 end_discharged
    × ¬ Ends leaking 100 end_transferred)
follow-keeps_example = follow-keeps leaking 100 9 (false, false) follow-leaking

advance-InRange_example : All (InRange leaking) (advance leaking (start leaking)).next
advance-InRange_example = advance-InRange leaking (start leaking) (start-InRange leaking)

abbrev knowing : Proven → State
knowing failed = record (start leaking) { failed = failed }

nothing_fewer : (p : Proven) (i : ℕ) → has [] i ≡ true → has p i ≡ true
unfolding has
nothing_fewer p i h = ground arith

advance-Below_example :
    AdvancedBelow (advance leaking (knowing [])) (advance leaking (knowing (1 ∷ [])))
advance-Below_example =
    advance-Below leaking (knowing []) (knowing (1 ∷ [])) (refl, nothing_fewer (1 ∷ []))

-- The sets of indices 0, and of 0 and 9.
abbrev first_alone : Proven
first_alone = 1 ∷ []

abbrev two_bytes : Proven
two_bytes = 1 ∷ 2 ∷ []

has-two_bytes : has two_bytes 9 ≡ true
unfolding has
has-two_bytes = refl

common-two_bytes : common two_bytes (0 ∷ 3 ∷ []) ≡ 0 ∷ 2 ∷ []
unfolding common
common-two_bytes = refl

without-two_bytes : without two_bytes 9 ≡ first_alone
unfolding without
without-two_bytes = refl

first_alone-IsProven : IsProven first_alone
first_alone-IsProven = record { bytes = (omega arith, tt); ending = λ e. ground arith }

two_bytes-IsProven : IsProven two_bytes
two_bytes-IsProven = record { bytes = (omega arith, (omega arith, tt)); ending = λ e. ground arith }

has-with_example : has (with first_alone 9) 0 ≡ (if 9 == 0 then true else has first_alone 0)
has-with_example = has-with first_alone 9 0

has-without_example : has (without two_bytes 9) 0 ≡ (if 9 == 0 then false else has two_bytes 0)
has-without_example = has-without two_bytes 9 0

has-common_example : has (common two_bytes first_alone) 0 ≡ (has two_bytes 0 && has first_alone 0)
has-common_example = has-common two_bytes first_alone 0

includes_iff_example :
    (includes two_bytes first_alone ≡ true)
    ↔ ((index : ℕ) → has first_alone index ≡ true → has two_bytes index ≡ true)
includes_iff_example = includes_iff two_bytes first_alone first_alone-IsProven

one_spelling_example : without two_bytes 9 ≡ first_alone
one_spelling_example =
    one_spelling (without two_bytes 9) first_alone (without-IsProven two_bytes 9 two_bytes-IsProven)
      first_alone-IsProven (λ index. rw without-two_bytes refl)

with-IsProven_example : IsProven (with first_alone 9)
with-IsProven_example = with-IsProven first_alone 9 first_alone-IsProven
