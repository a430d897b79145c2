-- ===== src/Defcheck/Rules.antt =====
-- The rules of defcheck/config.go and the prohibitions of defcheck/prohibition.go they compile to. The
-- package regexp is a parameter: which expressions it compiles, and what one matches.
use Prim.Native.String.{String, ◌++◌}
use text.Mathlib.Text.{◌==◌ as str_eq}
use precept.Base.{
  ◌++◌ as ◌++ᴸ◌, ℕ, suc, Bool, ◌&&◌, List, [], ◌∷◌, Option, none, some, ◌⊎◌, inl, inr,
  if◌then◌else◌,
}
use precept.Defcheck.Kinds.{contains, KindError, normalize}

-- A compiled expression is known by its text, which its String method gives back.
pub record Regexp : Type 0 where
  pub compiles : String → Bool
  pub match_string : String → String → Bool

pub record Rule : Type 0 where
  pub pattern : String
  pub kinds : List String
  pub message : String

pub record Prohibition : Type 0 where
  pub pattern : String
  pub kinds : List String
  pub message : String

pub data RuleError : Type 0 where
  no_pattern invalid_pattern : RuleError
  wrong_kinds : KindError → RuleError

-- `rule N: ...`, and the rule that rule N repeats.
pub data ConfigError : Type 0 where
  wrong_rule : ℕ → RuleError → ConfigError
  duplicate_rule : ℕ → ℕ → ConfigError

-- `strings.Join(kinds, " ")`
abbrev pub joined : List String → String
joined [] = ""
joined (kind ∷ []) = kind
joined (kind ∷ k ∷ kinds) = kind ++ " " ++ joined (k ∷ kinds)

-- `key`: its three quoted parts, which quoting keeps apart.
unfoldable pub key : Prohibition → String × (String × String)
key p = (p.pattern, (joined p.kinds, p.message))

abbrev pub same_key : String × (String × String) → String × (String × String) → Bool
same_key (p, (k, m)) (p', (k', m')) = str_eq p p' && str_eq k k' && str_eq m m'

-- A lookup in `taken`, the map from keys to the index of the rule that has it.
unfoldable pub taken_by :
    List ((String × (String × String)) × ℕ) → String × (String × String) → Option ℕ
taken_by [] wanted = none
taken_by ((k, index) ∷ taken) wanted =
    if same_key k wanted then some index else taken_by taken wanted

module _ (regexp : Regexp) where
  unfoldable pub forbids : Prohibition → String → String → Bool
  forbids p name kind = contains p.kinds kind && regexp.match_string p.pattern name

  abbrev pub with_kinds : Rule → KindError ⊎ List String → RuleError ⊎ Prohibition
  with_kinds r (inl wrong) = inl (wrong_kinds wrong)
  with_kinds r (inr kinds) =
      inr (record { pattern = r.pattern; kinds = kinds; message = r.message })

  -- `Rule.compile`
  unfoldable pub compile_rule : Rule → RuleError ⊎ Prohibition
  unfolding normalize
  compile_rule r =
      if str_eq r.pattern ""
      then inl no_pattern
      else if regexp.compiles r.pattern
      then with_kinds r (normalize r.kinds)
      else inl invalid_pattern

  -- The loop of `Config.compile`, at the rule of an index.
  unfoldable pub compile_from :
      ℕ
      → List ((String × (String × String)) × ℕ)
      → List Prohibition
      → List Rule
      → ConfigError ⊎ List Prohibition
  unfolding compile_rule key taken_by
  compile_from index taken prohibitions [] = inr prohibitions
  compile_from index taken prohibitions (rule ∷ rules) = elim (compile_rule rule) [
    | inl wrong ↦ inl (wrong_rule index wrong)
    | inr compiled ↦ elim (taken_by taken (key compiled)) [
      | some first ↦ inl (duplicate_rule index first)
      | none ↦
          compile_from (suc index) ((key compiled, index) ∷ taken) (prohibitions ++ᴸ compiled ∷ [])
            rules
    ]
  ]

  unfoldable pub compile : List Rule → ConfigError ⊎ List Prohibition
  unfolding compile_from
  compile rules = compile_from 0 [] [] rules
