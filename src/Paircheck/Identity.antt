-- ===== src/Paircheck/Identity.antt =====
-- Whether two values are the same, by how each is reached (paircheck/identity.go). Which values are made by a
-- trigger's function, or are its parameters, is a parameter.
use precept.Base.{ℕ, Bool, true, false, not, ◌&&◌, ◌||◌, ◌==◌, same_bool, if◌then◌else◌}
use precept.Base.Texts.{Text, same_text}
use precept.Paircheck.Flow.Types.{Sameness, same_unknown, same_yes, same_no}

-- How a value is reached: from a root, through fields and loads.
pub record ValuePath : Type 0 where
  pub root : ℕ
  pub steps : Text
  pub loads : Bool

-- What is fresh, whether a root is an instruction, whether a path is a parameter, as it was passed, of the
-- function that an instruction stands in, and whether a satisfier is the call of the value.
pub record Values : Type 0 where
  pub fresh : ℕ → Bool
  pub instruction : ℕ → Bool
  pub received : ValuePath → ℕ → Bool
  pub called_satisfier : ℕ → Bool

unfoldable pub same_path : ValuePath → ValuePath → Bool
unfolding same_text
same_path first second =
    first.root == second.root
    && same_text first.steps second.steps
    && same_bool first.loads second.loads

abbrev is_known : Sameness → Bool
is_known same_unknown = false
is_known _ = true

module _ (values : Values) where
  unfoldable pub compare_paths : ValuePath → ValuePath → Sameness
  unfolding same_path
  compare_paths first second =
      if same_path first second
      then same_yes
      else if first.loads || second.loads || first.root == second.root
      then same_unknown
      else if values.fresh first.root && values.fresh second.root
      then same_no
      else same_unknown

  unfoldable pub fresh_beside : ValuePath → ValuePath → Bool
  fresh_beside made beside =
      values.instruction made.root
      && values.fresh made.root
      && not made.loads
      && values.received beside made.root

  unfoldable pub satisfied : ℕ → ValuePath → ValuePath → Sameness
  unfolding compare_paths fresh_beside
  satisfied index carried opened =
      let same = compare_paths carried opened in
      if is_known same || not (values.called_satisfier index)
      then same
      else if fresh_beside opened carried || fresh_beside carried opened
      then same_no
      else same
