-- ===== src/Driver/Rules.antt =====
-- The rules that `rulesOf` (internal/driver/exclusions.go) reads of linters.exclusions.rules.
use Prim.Native.String.{String}
use text.Mathlib.Text.{◌==◌ as str_eq}
use precept.Base.{
  ℕ, suc, ◌+◌, Bool, true, false, ◌||◌, ltb, List, [], ◌∷◌, Option, none, some, ◌⊎◌, inl, inr,
  inr_inj, Bool-cases, All, ◌≡◌, ◌≢◌, refl, arith, subst,
}
use precept.Driver.Exclusions.{Exclusion, RuleError, is_some, nonempty, count, valid_rule}
use precept.Driver.Values.{
  Value, map_value, Values, no_values, value_and, Entries, at_key, Texts, list_of, folded,
}
use precept.Driver.Settings.{
  SettingError, and_then, pattern_of, text_of, validated, rule_patterns, rule_texts, rule_linters,
  rule_folded, rule_of, in_order, rules_from, rules_of, elements,
}

pub data Condition : Type 0 where
  on_linters on_path on_text on_source : Condition

-- A rule writes a condition.
abbrev pub Writes : Exclusion → Condition → Type 0
Writes rule on_linters = rule.linters ≢ []
Writes rule on_path = (rule.path ≢ none) ⊎ (rule.path_except ≢ none)
Writes rule on_text = rule.text ≢ none
Writes rule on_source = rule.source ≢ none

abbrev pub IsAccepted : Exclusion → Type 0
IsAccepted rule =
    ((rule.path ≡ none) ⊎ (rule.path_except ≡ none))
    × ((c : Condition) × (d : Condition) × (c ≢ d) × Writes rule c × Writes rule d)

is_some-written : (o : Option String) → is_some o ≡ true → o ≢ none
is_some-written none h e = absurd (ground (arith, h))
is_some-written (some s) h e = cc

is_some-unwritten : (o : Option String) → is_some o ≡ false → o ≡ none
is_some-unwritten none h = refl
is_some-unwritten (some s) h = absurd (ground (arith, h))

nonempty-written : (xs : List String) → nonempty xs ≡ true → xs ≢ []
nonempty-written [] h e = absurd (ground (arith, h))
nonempty-written (x ∷ xs) h e = cc

path-written :
    (rule : Exclusion)
    → (is_some rule.path || is_some rule.path_except) ≡ true
    → Writes rule on_path
path-written rule h = elim (Bool-cases (is_some rule.path)) [
  | inl on ↦ inl (is_some-written rule.path on)
  | inr off ↦ inr (is_some-written rule.path_except (ground (arith, h, off)))
]

two_of :
    (rule : Exclusion) (a b c d : Bool)
    → (a ≡ true → Writes rule on_linters)
    → (b ≡ true → Writes rule on_path)
    → (c ≡ true → Writes rule on_text)
    → (d ≡ true → Writes rule on_source)
    → ltb (count a + count b + count c + count d) 2 ≡ false
    → (c : Condition) × (d : Condition) × (c ≢ d) × Writes rule c × Writes rule d
two_of rule true true c d ha hb hc hd h = (on_linters, on_path, λ e. cc, ha refl, hb refl)
two_of rule true false true d ha hb hc hd h = (on_linters, on_text, λ e. cc, ha refl, hc refl)
two_of rule true false false true ha hb hc hd h = (on_linters, on_source, λ e. cc, ha refl, hd refl)
two_of rule false true true d ha hb hc hd h = (on_path, on_text, λ e. cc, hb refl, hc refl)
two_of rule false true false true ha hb hc hd h = (on_path, on_source, λ e. cc, hb refl, hd refl)
two_of rule false false true true ha hb hc hd h = (on_text, on_source, λ e. cc, hc refl, hd refl)
two_of rule true false false false ha hb hc hd h = absurd (ground (arith, h))
two_of rule false true false false ha hb hc hd h = absurd (ground (arith, h))
two_of rule false false true false ha hb hc hd h = absurd (ground (arith, h))
two_of rule false false false d ha hb hc hd h = absurd (few d h)
  where
    few : (d : Bool) → ltb (0 + 0 + 0 + count d) 2 ≡ false → ⊥
    few true e = ground (arith, e)
    few false e = ground (arith, e)

-- What `validRule` accepts writes no path beside path-except, and two conditions.
valid_rule-IsAccepted : (rule : Exclusion) → valid_rule rule ≡ none → IsAccepted rule
unfolding valid_rule
valid_rule-IsAccepted rule h = (apart, enough)
  where
    apart : (rule.path ≡ none) ⊎ (rule.path_except ≡ none)
    apart = elim (Bool-cases (is_some rule.path)) [
      | inl on ↦ inr (is_some-unwritten rule.path_except (ground (arith, h, on)))
      | inr off ↦ inl (is_some-unwritten rule.path off)
    ]

    enough : (c : Condition) × (d : Condition) × (c ≢ d) × Writes rule c × Writes rule d
    enough =
        two_of rule (nonempty rule.linters) (is_some rule.path || is_some rule.path_except)
          (is_some rule.text) (is_some rule.source) (nonempty-written rule.linters)
          (path-written rule) (is_some-written rule.text) (is_some-written rule.source)
          (ground (arith, h))

module _ (texts : Texts) (compiles : String → Bool) where
  abbrev Compiled : Option String → Type 0
  Compiled none = Unit
  Compiled (some pattern) = compiles pattern ≡ true

  -- A rule that is accepted, whose patterns are expressions.
  abbrev pub IsValid : Exclusion → Type 0
  IsValid rule =
      IsAccepted rule
      × Compiled rule.path
      × Compiled rule.path_except
      × Compiled rule.text
      × Compiled rule.source

  pattern_of-Compiled :
      (s key : String) (o : Option String) → pattern_of texts compiles s key ≡ inr o → Compiled o
  pattern_of-Compiled s key o h = elim (Bool-cases (str_eq s "")) [
    | inl empty ↦ subst Compiled (inr_inj (rw empty at h)) tt
    | inr written ↦ elim (Bool-cases (compiles s)) [
      | inl on ↦ subst Compiled (inr_inj (rw (written, on) at h)) on
      | inr off ↦ absurd (ground (arith, rw (written, off) at h))
    ]
  ]

  abbrev Valid : SettingError ⊎ Exclusion → Type 0
  Valid result = (rule : Exclusion) → result ≡ inr rule → IsValid rule

  and_then-Valid :
      {A : Type 0} (r : SettingError ⊎ A) (next : A → SettingError ⊎ Exclusion)
      → ((a : A) → r ≡ inr a → Valid (next a))
      → Valid (and_then texts compiles r next)
  and_then-Valid (inl wrong) next h rule e = absurd (ground (arith, e))
  and_then-Valid (inr a) next h rule e = h a refl rule e

  validated-Valid :
      (rule : Exclusion)
      → Compiled rule.path
      → Compiled rule.path_except
      → Compiled rule.text
      → Compiled rule.source
      → Valid (validated texts compiles rule)
  validated-Valid rule p1 p2 p3 p4 rule' e = by_test (valid_rule rule) refl e
    where
      by_test :
          (o : Option RuleError)
          → valid_rule rule ≡ o
          → (elim o as (λ x. SettingError ⊎ Exclusion) [
            | none ↦ inr rule
            | some wrong ↦ inl (SettingError.bad_rule wrong)
          ])
            ≡ inr rule'
          → IsValid rule'
      by_test none same h =
          subst IsValid (inr_inj h) (valid_rule-IsAccepted rule same, p1, p2, p3, p4)
      by_test (some wrong) same h = absurd (ground (arith, h))

  rule_patterns-Valid :
      (linters : List String) (path except about source : String)
      → Valid (rule_patterns texts compiles linters path except about source)
  rule_patterns-Valid linters path except about source =
      and_then-Valid (pattern_of texts compiles path "path") _ (λ path' e1.
        and_then-Valid (pattern_of texts compiles except "path-except") _ (λ except' e2.
          and_then-Valid (pattern_of texts compiles about "text") _ (λ about' e3.
            and_then-Valid (pattern_of texts compiles source "source") _ (λ source' e4.
              validated-Valid
                (record {
                  linters = linters;
                  path = path';
                  path_except = except';
                  text = about';
                  source = source';
                })
                (pattern_of-Compiled path "path" path' e1)
                (pattern_of-Compiled except "path-except" except' e2)
                (pattern_of-Compiled about "text" about' e3)
                (pattern_of-Compiled source "source" source' e4)))))

  rule_texts-Valid :
      (written : Entries) (linters : List String)
      → Valid (rule_texts texts compiles written linters)
  rule_texts-Valid written linters =
      and_then-Valid (text_of texts compiles (at_key written "path") "path") _ (λ path read.
        and_then-Valid (text_of texts compiles (at_key written "path-except") "path-except") _
          (λ except read.
            and_then-Valid (text_of texts compiles (at_key written "text") "text") _ (λ about read.
              and_then-Valid (text_of texts compiles (at_key written "source") "source") _
                (λ source read. rule_patterns-Valid linters path except about source))))

  rule_linters-Valid :
      (written : Entries) (linters : Option (List String))
      → Valid (rule_linters texts compiles written linters)
  rule_linters-Valid written none rule e = absurd (ground (arith, e))
  rule_linters-Valid written (some linters) rule e = rule_texts-Valid written linters rule e

  rule_folded-Valid :
      (written : (String × String) ⊎ Entries) → Valid (rule_folded texts compiles written)
  rule_folded-Valid (inl keys) rule e = absurd (ground (arith, e))
  rule_folded-Valid (inr written) rule e =
      rule_linters-Valid written (list_of texts (at_key written "linters")) rule e

  rule_of-Valid : (value : Value) → Valid (rule_of texts compiles value)
  unfolding rule_of
  rule_of-Valid (map_value written) rule e = rule_folded-Valid (folded texts written) rule e
  rule_of-Valid _ rule e = absurd (ground (arith, e))

  AreValid : List Exclusion → Type 0
  AreValid rules = All IsValid rules

  in_order-AreValid :
      (index : ℕ) (first : SettingError ⊎ Exclusion) (rest : SettingError ⊎ List Exclusion)
      (rules : List Exclusion)
      → Valid first
      → ((rs : List Exclusion) → rest ≡ inr rs → AreValid rs)
      → in_order texts compiles index first rest ≡ inr rules
      → AreValid rules
  unfolding AreValid
  in_order-AreValid index (inl wrong) rest rules v vs h = absurd (ground (arith, h))
  in_order-AreValid index (inr rule) (inl wrong) rules v vs h = absurd (ground (arith, h))
  in_order-AreValid index (inr rule) (inr rs) rules v vs h =
      subst AreValid (inr_inj h) (v rule refl, vs rs refl)

  rules_from-AreValid :
      (index : ℕ) (values : Values) (rules : List Exclusion)
      → rules_from texts compiles index values ≡ inr rules
      → AreValid rules
  unfolding rules_from AreValid
  rules_from-AreValid index no_values rules h = subst AreValid (inr_inj h) tt
  rules_from-AreValid index (value_and element values) rules h =
      in_order-AreValid index (rule_of texts compiles element)
        (rules_from texts compiles (suc index) values) rules (rule_of-Valid element)
        (λ rs. rules_from-AreValid (suc index) values rs) h

  -- Each rule that `rulesOf` reads writes no path or no path-except, it writes two different conditions of
  -- its linters, a path, a text and a source, and each pattern that it writes is an expression.
  pub rules_of-AreValid :
      (value : Value) (rules : List Exclusion)
      → rules_of texts compiles value ≡ inr rules
      → All IsValid rules
  unfolding rules_of AreValid
  rules_of-AreValid value rules h = rules_from-AreValid 0 (elements texts compiles value) rules h
