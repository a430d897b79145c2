-- ===== src/Defcheck/Compile.antt =====
-- What `Config.compile` of defcheck/config.go makes of the rules, for every list of rules.
use Prim.Native.String.{String}
use precept.Base.{
  ℕ, suc, false, List, [], ◌∷◌, ◌++◌, inr_inj, none, ◌⊎◌, inl, inr, Bool-cases, Option-cases, All,
  ◌≡◌, refl, sym, ◌∙◌, arith, subst,
}
use mathlib.Core.List.{append-nil, append_assoc}
use precept.Defcheck.Rules.{
  Regexp, Rule, RuleError, Prohibition, key, same_key, taken_by, compile_rule, compile_from,
  compile,
}

-- Each prohibition is what its rule compiles to, in the order of the rules.
pub data AreCompiled (regexp : Regexp) : List Rule → List Prohibition → Type 0 where
  no_rules : AreCompiled regexp [] []
  rule_and :
      {r : Rule} {p : Prohibition} {rs : List Rule} {ps : List Prohibition}
      → compile_rule regexp r ≡ inr p
      → AreCompiled regexp rs ps
      → AreCompiled regexp (r ∷ rs) (p ∷ ps)

-- No two have one key.
abbrev pub AreDistinct : List Prohibition → Type 0
AreDistinct [] = Unit
AreDistinct (p ∷ ps) = All (λ q. same_key (key p) (key q) ≡ false) ps × AreDistinct ps

abbrev Taken : Type 0
Taken = List ((String × (String × String)) × ℕ)

abbrev Free : Taken → List Prohibition → Type 0
Free taken ps = All (λ p. taken_by taken (key p) ≡ none) ps

free-cons :
    (k : String × (String × String)) (i : ℕ) (taken : Taken) (w : String × (String × String))
    → taken_by ((k, i) ∷ taken) w ≡ none
    → (same_key k w ≡ false) × (taken_by taken w ≡ none)
unfolding taken_by
free-cons k i taken w h = elim (Bool-cases (same_key k w)) [
  | inl e ↦ absurd (ground (arith, rw e at h))
  | inr e ↦ (e, rw e at h)
]

Free-cons :
    (k : String × (String × String)) (i : ℕ) (taken : Taken) (ps : List Prohibition)
    → Free ((k, i) ∷ taken) ps
    → All (λ q. same_key k (key q) ≡ false) ps × Free taken ps
Free-cons k i taken [] h = (tt, tt)
Free-cons k i taken (p ∷ ps) (now, h) =
    let (apart, free) = free-cons k i taken (key p) now in
    let (aparts, frees) = Free-cons k i taken ps h in ((apart, aparts), (free, frees))

compile_from-AreCompiled :
    (regexp : Regexp) (index : ℕ) (taken : Taken) (before : List Prohibition) (rules : List Rule)
    (ps : List Prohibition)
    → compile_from regexp index taken before rules ≡ inr ps
    → (rest : List Prohibition) × (ps ≡ before ++ rest)
      × AreCompiled regexp rules rest
      × AreDistinct rest
      × Free taken rest
unfolding compile_from
compile_from-AreCompiled regexp index taken before [] ps h =
    ([], sym (inr_inj h) ∙ sym (append-nil before), no_rules, tt, tt)
compile_from-AreCompiled regexp index taken before (rule ∷ rules) ps h =
    by_rule (compile_rule regexp rule) refl (λ compiled.
      compile_from-AreCompiled regexp (suc index) ((key compiled, index) ∷ taken)
        (before ++ compiled ∷ []) rules ps)
  where
    Later : Type 0
    Later =
        (compiled : Prohibition)
        → compile_from regexp (suc index) ((key compiled, index) ∷ taken) (before ++ compiled ∷ [])
            rules
          ≡ inr ps
        → (rest : List Prohibition) × (ps ≡ (before ++ compiled ∷ []) ++ rest)
          × AreCompiled regexp rules rest
          × AreDistinct rest
          × Free ((key compiled, index) ∷ taken) rest

    by_rule :
        (o : RuleError ⊎ Prohibition)
        → compile_rule regexp rule ≡ o
        → Later
        → (rest : List Prohibition) × (ps ≡ before ++ rest)
          × AreCompiled regexp (rule ∷ rules) rest
          × AreDistinct rest
          × Free taken rest
    by_rule (inl wrong) e later = absurd (ground (arith, rw (e, compile_from) at h))
    by_rule (inr compiled) e later = elim (Option-cases (taken_by taken (key compiled))) [
      | inl free ↦
          let (rest, same, done, distinct, frees) =
            later compiled (rw (e, free, compile_from) at h) in
          let (aparts, others) = Free-cons (key compiled) index taken rest frees in
          (
            compiled ∷ rest,
            same ∙ append_assoc before (compiled ∷ []) rest,
            rule_and e done,
            (aparts, distinct),
            (free, others),
          )
      | inr (first, e') ↦ absurd (ground (arith, rw (e, e', compile_from) at h))
    ]

-- The rules that `Config.compile` accepts compile one by one, in their order, to what it returns, and no
-- two of them have the same pattern, kinds and message.
pub compile-AreCompiled :
    (regexp : Regexp) (rules : List Rule) (ps : List Prohibition)
    → compile regexp rules ≡ inr ps
    → AreCompiled regexp rules ps × AreDistinct ps
unfolding compile
compile-AreCompiled regexp rules ps h =
    let (rest, same, done, distinct, frees) = compile_from-AreCompiled regexp 0 [] [] rules ps h in
    subst (λ (qs : List Prohibition). AreCompiled regexp rules qs × AreDistinct qs) (sym same)
      (done, distinct)
