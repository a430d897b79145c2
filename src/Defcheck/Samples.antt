-- ===== src/Defcheck/Samples.antt =====
-- Runs of the model of defcheck, and the properties at them. The one expression matches "id".
use Prim.Native.Char.{Char, code}
use Prim.Native.String.{String}
use text.Mathlib.Text.{◌==◌ as str_eq}
use precept.Base.{
  Bool, true, false, List, [], ◌∷◌, none, some, inl, inr, ◌↔◌, ◌≡◌, refl, leb, ◌&&◌, Memᴰ,
}
use precept.Defcheck.Kinds.{unknown_kind, mixed_kinds, normalize}
use precept.Defcheck.Objects.{Object, Function, ParamType, VarKind, run_by_go_test}
use precept.Defcheck.Rules.{Regexp, Rule, Prohibition, duplicate_rule, compile}
use precept.Defcheck.Check.{Declaration, Diagnostic, check}
use precept.Defcheck.Normalize.{IsAccepted, asked, normalize_iff}
use precept.Defcheck.Compile.{AreCompiled, AreDistinct, compile-AreCompiled}
use precept.Defcheck.Report.{Breaks, mem-check_iff}

abbrev literal : Regexp
literal = record { compiles = λ e. true; match_string = λ e name. str_eq e name }

abbrev lower : Char → Bool
lower c = leb 97 (code c) && leb (code c) 122

normalize_dash : normalize ("-field" ∷ "-label" ∷ []) ≡ inr (asked ("-field" ∷ "-label" ∷ []))
unfolding normalize
normalize_dash = refl

normalize_order : normalize ("label" ∷ "field" ∷ "label" ∷ []) ≡ inr ("field" ∷ "label" ∷ [])
unfolding normalize
normalize_order = refl

normalize_mixed : normalize ("field" ∷ "-label" ∷ []) ≡ inl (mixed_kinds "field" "label")
unfolding normalize
normalize_mixed = refl

normalize_unknown : normalize ("-fields" ∷ []) ≡ inl (unknown_kind "-fields")
unfolding normalize
normalize_unknown = refl

normalize_iff_example : (normalize ("label" ∷ "field" ∷ []) ≡ inr ("field" ∷ "label" ∷ [])) ↔ (
    IsAccepted ("label" ∷ "field" ∷ []) × ("field" ∷ "label" ∷ [] ≡ asked ("label" ∷ "field" ∷ [])))
normalize_iff_example = normalize_iff ("label" ∷ "field" ∷ []) ("field" ∷ "label" ∷ [])

abbrev id_rule : List String → Rule
id_rule kinds = record { pattern = "id"; kinds = kinds; message = "" }

abbrev id_prohibition : List String → Prohibition
id_prohibition kinds = record { pattern = "id"; kinds = kinds; message = "" }

compile_twice :
    compile literal (id_rule ("field" ∷ []) ∷ id_rule ("field" ∷ "field" ∷ []) ∷ [])
    ≡ inl (duplicate_rule 1 0)
unfolding compile
compile_twice = refl

compile_two :
    compile literal (id_rule ("field" ∷ []) ∷ id_rule ("label" ∷ []) ∷ [])
    ≡ inr (id_prohibition ("field" ∷ []) ∷ id_prohibition ("label" ∷ []) ∷ [])
unfolding compile
compile_two = refl

compile-AreCompiled_example :
    AreCompiled literal
      (id_rule ("field" ∷ []) ∷ id_rule ("label" ∷ []) ∷ [])
      (id_prohibition ("field" ∷ []) ∷ id_prohibition ("label" ∷ []) ∷ [])
    × AreDistinct (id_prohibition ("field" ∷ []) ∷ id_prohibition ("label" ∷ []) ∷ [])
compile-AreCompiled_example =
    compile-AreCompiled literal (id_rule ("field" ∷ []) ∷ id_rule ("label" ∷ []) ∷ [])
      (id_prohibition ("field" ∷ []) ∷ id_prohibition ("label" ∷ []) ∷ []) compile_two

abbrev test_function : String → Function
test_function name = record {
  name = name;
  receiver = none;
  package_name = "precept";
  file_name = some "a_test.go";
  type_params = 0;
  params = ParamType.pointer_to_named (some "testing") "T" ∷ [];
  results = 0;
}

run_test : run_by_go_test lower (λ s t. true) (test_function "TestRun") ≡ true
unfolding run_by_go_test
run_test = refl

run_testing : run_by_go_test lower (λ s t. true) (test_function "Testing") ≡ false
unfolding run_by_go_test
run_testing = refl

abbrev field_id : Declaration
field_id = record { name = "id"; position = 7; object = Object.variable false VarKind.field_var }

abbrev field_diagnostic : Diagnostic
field_diagnostic = record {
  pos = 7;
  rule = id_prohibition ("field" ∷ []);
  name = "id";
  kind = "field";
}

check_field :
    check lower (λ s t. true) literal (id_prohibition ("field" ∷ []) ∷ []) [] (field_id ∷ [])
    ≡ field_diagnostic ∷ []
unfolding check
check_field = refl

mem-check_iff_example :
    Memᴰ field_diagnostic
      (check lower (λ s t. true) literal (id_prohibition ("field" ∷ []) ∷ []) [] (field_id ∷ []))
    ↔ ((c : Declaration) × Memᴰ c (field_id ∷ [])
        × Breaks lower
            (λ s t. true)
            literal
            (id_prohibition ("field" ∷ []) ∷ [])
            []
            c
            field_diagnostic)
mem-check_iff_example =
    mem-check_iff lower (λ s t. true) literal (id_prohibition ("field" ∷ []) ∷ []) []
      (field_id ∷ []) field_diagnostic
