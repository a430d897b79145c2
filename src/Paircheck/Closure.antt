-- ===== src/Paircheck/Closure.antt =====
-- The anonymous function that a defer statement calls (paircheck/closure.go), and whether running it
-- discharges the obligation. The path by which a value is reached is a parameter.
pub mod Paths
pub mod Decides
use precept.Base.{
  ℕ, suc, Bool, true, false, not, ◌&&◌, ◌||◌, List, [], ◌∷◌, ◌++◌, Option, none, some, ◌==◌,
  same_bool, if◌then◌else◌, contains_func, get_elem?, last?,
}
use precept.Base.Texts.{Text}
use precept.Base.Worklist.{none_fails}
use precept.Paircheck.Ssa.{Common, Node, Block, Program}
use precept.Paircheck.Ssa.Blocks.{block_of}
use precept.Paircheck.Protocol.{Coverage, any_path, every_path, no_path}
use precept.Paircheck.Identity.{ValuePath, Values, satisfied}
use precept.Paircheck.Flow.Types.{Search, Sameness}
use precept.Paircheck.Flow.Events.{is_no}
use precept.Paircheck.Flow.Success.{Proof, proof_of, variable_read}

pub record Closure : Type 0 where
  pub blocks : List Block
  pub free_vars : List ℕ
  pub bindings : List ℕ

-- `slices.Index`
unfoldable pub index_from : ℕ → List ℕ → ℕ → Option ℕ
index_from index [] wanted = none
index_from index (v ∷ values) wanted =
    let rest = index_from (suc index) values wanted in if v == wanted then some index else rest

-- The element of one list at the place of a value in another.
unfoldable pub beside : List ℕ → List ℕ → ℕ → Option ℕ
unfolding index_from
beside keys values wanted = elim (index_from 0 keys wanted) [
  | none ↦ none
  | some index ↦ get_elem? values index
]

-- The free variable bound to a variable, if there is one.
unfoldable pub capturing : Closure → Option ℕ → Option ℕ
unfolding beside
capturing c none = none
capturing c (some variable) = beside c.bindings c.free_vars variable

module _ (path_of : ℕ → ValuePath) where
  abbrev through : ValuePath → Option ℕ → ValuePath
  through reached none = reached
  through reached (some bound) =
      let outer = path_of bound in
      record outer { steps = outer.steps ++ reached.steps; loads = outer.loads || reached.loads }

  -- How a value of the closure is reached from the function that defers it.
  unfoldable pub translate : Closure → ValuePath → ValuePath
  unfolding beside
  translate c reached = through reached (beside c.free_vars c.bindings reached.root)

module _ (s : Search) (values : Values) (path_of : ℕ → ValuePath) (c : Closure) where
  abbrev carries : ℕ → Option ℕ → Option ℕ → Bool
  carries index none opened = true
  carries index (some value) none = true
  carries index (some value) (some opened) =
      not (is_no (satisfied values index (translate path_of c (path_of value)) (path_of opened)))

  abbrev satisfies_by : ℕ → Option ℕ → Bool
  satisfies_by instruction none = false
  satisfies_by instruction (some index) =
      carries index (s.rule.satisfier_value index instruction) s.value

  unfoldable pub satisfies : ℕ → Bool
  unfolding satisfied translate
  satisfies instruction = elim (s.program.node instruction) [
    | Node.call common ↦ satisfies_by instruction (s.rule.satisfier_of common)
    | _ ↦ false
  ]

  abbrev pub ends_path : Node → Bool
  ends_path (Node.returns results) = true
  ends_path Node.panics = true
  ends_path _ = false

  -- Whether a block covers the path, and whether the path leaves by it.
  unfoldable pub scan_from : List ℕ → Bool × Bool
  unfolding satisfies
  scan_from [] = (false, false)
  scan_from (instruction ∷ instructions) =
      let rest = scan_from instructions in
      if satisfies instruction
      then (true, false)
      else if ends_path (s.program.node instruction)
      then (false, true)
      else rest

  unfoldable pub scan : ℕ → Bool × Bool
  unfolding scan_from
  scan block = scan_from (block_of c.blocks block).instrs

  unfoldable pub covers_any_path : Bool
  unfolding satisfies
  covers_any_path = contains_func c.blocks (λ block. contains_func block.instrs satisfies)

  -- The blocks after one, none where a path leaves by it.
  unfoldable pub covers_step : ℕ → Option (List ℕ)
  unfolding scan
  covers_step block =
      if (scan block).1
      then none
      else if (scan block).0
      then some []
      else some (block_of c.blocks block).succs

  abbrev pub has_blocks : List Block → Bool
  has_blocks [] = false
  has_blocks (b ∷ blocks) = true

  unfoldable pub covers_every_path : ℕ → Option Bool
  unfolding covers_step none_fails
  covers_every_path fuel =
      if has_blocks c.blocks then none_fails ◌==◌ covers_step fuel (0 ∷ []) [] else some false

  unfoldable pub discharges : Coverage → ℕ → Option Bool
  unfolding covers_every_path covers_any_path
  discharges no_path fuel = some false
  discharges every_path fuel = covers_every_path fuel
  discharges any_path fuel = some covers_any_path

  abbrev same_variable : Option ℕ → ℕ → Bool
  same_variable none captured = false
  same_variable (some variable) captured = variable == captured

  abbrev pub fails_by : ℕ → Option ℕ → Bool → Option Proof → Bool
  fails_by position none failed found = failed
  fails_by position (some captured) failed none = failed
  fails_by position (some captured) failed (some found) =
      if same_variable (variable_read s found.checked) captured
      then (if position == found.failing then true else failed && not found.nil_otherwise)
      else failed

  abbrev branch_of : Node → Option ℕ
  branch_of (Node.branch condition) = some condition
  branch_of _ = none

  abbrev fails_at : ℕ → Option ℕ → Bool → Option ℕ → Bool
  fails_at position captured failed none = failed
  fails_at position captured failed (some condition) =
      fails_by position captured failed (proof_of s condition)

  unfoldable pub fails_along : ℕ → ℕ → Option ℕ → Bool → Bool
  unfolding proof_of variable_read
  fails_along block position captured failed = elim (last? (block_of c.blocks block).instrs) [
    | none ↦ failed
    | some instruction ↦ fails_at position captured failed (branch_of (s.program.node instruction))
  ]

  abbrev is_panic : Node → Bool
  is_panic Node.panics = true
  is_panic _ = false

  unfoldable pub ends_in_panic : ℕ → Bool
  ends_in_panic block = elim (last? (block_of c.blocks block).instrs) [
    | none ↦ false
    | some instruction ↦ is_panic (s.program.node instruction)
  ]

  module _ (result : Option ℕ) where
    -- The points after a block, from the position of a successor.
    unfoldable pub onward : ℕ → Bool → ℕ → List ℕ → List (ℕ × Bool)
    unfolding fails_along capturing
    onward block failed position [] = []
    onward block failed position (successor ∷ succs) =
        (successor, fails_along block position (capturing c result) failed)
        ∷ onward block failed (suc position) succs

    unfoldable pub decides_step : ℕ × Bool → Option (List (ℕ × Bool))
    unfolding scan ends_in_panic onward
    decides_step (block, failed) =
        if (scan block).0 || failed && (scan block).1
        then some []
        else if (scan block).1
        then (if ends_in_panic block then some [] else none)
        else some (onward block failed 0 (block_of c.blocks block).succs)

    abbrev pub same_pair : ℕ × Bool → ℕ × Bool → Bool
    same_pair (b, f) (b', f') = b == b' && same_bool f f'

    unfoldable pub decides : ℕ → Option Bool
    unfolding decides_step none_fails
    decides fuel =
        if has_blocks c.blocks
        then none_fails same_pair decides_step fuel ((0, false) ∷ []) []
        else some false
