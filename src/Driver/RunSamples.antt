-- ===== src/Driver/RunSamples.antt =====
-- A run under go vet of an analyzer on a file that was generated from another: positions below 1000 are in
-- file "a.go", mapped to "a.y", and those from 1000 in a copy of it without line directives.
use Prim.Native.String.{String}
use text.Mathlib.Text.{◌==◌ as str_eq}
use precept.Base.{
  ℕ, suc, ◌+◌, ◌-◌, Bool, true, false, not, ◌==◌, ◌&&◌, ◌||◌, ltb, List, [], ◌∷◌, none, some, inl,
  inr, map, ◌≡◌, refl, arith, if◌then◌else◌,
}
use precept.Driver.Findings.{Position, Diagnostic}
use precept.Driver.Exclusions.{Exclusions, Outside}
use precept.Driver.Filter.{disable, Files, Filter, kept}
use precept.Driver.Vet.{FileSet, findings, found_in, package_of, run}
use precept.Driver.Reported.{shown_of}
use precept.Driver.Printed.{IsFileSet}
use precept.Driver.Run.{shown_in, run-shown}

abbrev at : String → ℕ → Position
at name line = record { filename = name; offset = 0; line = line; column = 1 }

abbrev line_of : ℕ → ℕ
line_of p = if ltb p 1000 then p else p - 1000

abbrev position_in : Bool → Bool → String → ℕ → Position
position_in none_at below name line =
    if none_at then at "" 0 else if below then at name line else at "a.go" line

abbrev position_of : String → ℕ → Position
position_of name p = position_in (p == 0) (ltb p 1000) name (line_of p)

-- A state is the number of files added.
abbrev set : FileSet ℕ
set = record {
  position = λ s. position_of "a.y";
  compiled = λ s. position_of "a.go";
  has_file = λ s p. not (p == 0) && (ltb p 1000 || ltb 0 s);
  file = λ s p. if ltb p 1000 then 0 else 1;
  add_plain = λ s file. (suc s, 1);
  offset = λ file. line_of;
  pos = λ file offset. offset + 1000;
}

compiled_in : (below : Bool) (line : ℕ) → at "a.go" line ≡ position_in false below "a.go" line
compiled_in true line = refl
compiled_in false line = refl

position-in_copy :
    (p : ℕ) → (p == 0) ≡ false → position_of "a.y" (line_of p + 1000) ≡ position_of "a.go" p
position-in_copy p on =
    let positive : ((line_of p + 1000) == 0) ≡ false = ground arith in
    let beyond : ltb (line_of p + 1000) 1000 ≡ false = ground arith in
    let line : line_of p + 1000 - 1000 ≡ line_of p = ground arith in
    rw (positive, beyond, line, on) (compiled_in (ltb p 1000) (line_of p))

set-IsFileSet : IsFileSet set
set-IsFileSet = record {
  no_position = λ s t. refl;
  keeps_file = λ s file p h. (ground (arith, h), refl, refl, refl);
  in_plain = λ s p h. (ground arith, position-in_copy p (ground (arith, h)));
}

abbrev is_go : String → Bool
is_go name = str_eq name "a.go"

abbrev is_test : String → Bool
is_test name = str_eq name "a_test.go"

abbrev disk : Files
disk = record {
  generated = λ mode path. none;
  silences = λ path. [];
  rel = λ base path. some (if str_eq path "a.go" then "dir/a.go" else path);
}

abbrev outside : Outside
outside = record {
  match_string = λ e text. str_eq e text;
  lines = λ path. none;
  trim_return = λ text. text;
}

abbrev exclusions : Exclusions
exclusions = record { paths = []; paths_except = []; rules = []; warn_unused = false }

abbrev filter : Filter
filter = record { linter = "defcheck"; base = "/"; generated = disable; exclusions = exclusions }

abbrev diagnostics : List Diagnostic
diagnostics =
    record { pos = 3; end_pos = 0; message = "m" }
    ∷ record { pos = 4; end_pos = 5; message = "n" }
    ∷ []

-- Each position is in the one copy made.
run-copies : run set is_go is_test outside disk filter true 0 [] diagnostics ≡ (
  1,
  record { pos = 1003; end_pos = 0; message = "m" }
      ∷ record { pos = 1004; end_pos = 1005; message = "n" }
      ∷ [],
  [],
)
unfolding run
run-copies = refl

run-shown_example :
    map
      (shown_in set (run set is_go is_test outside disk filter true 0 [] diagnostics).0)
      (run set is_go is_test outside disk filter true 0 [] diagnostics).1
    ≡ map shown_of
        (kept outside disk filter
          (findings (found_in is_go is_test true (package_of set 0 []) diagnostics))).0
run-shown_example =
    run-shown set set-IsFileSet 0 is_go is_test outside disk filter true [] diagnostics
      ((inr refl, inl refl), ((inr refl, inr refl), tt))
