-- ===== src/Paircheck/Config/Compile.antt =====
-- What `Config.compile` of paircheck/config.go accepts, and what it returns.
use precept.Base.{
  ℕ, suc, true, false, List, [], ◌∷◌, ◌++◌, inl, inr, ◌≡◌, ◌↔◌, refl, sym, subst, arith,
  if◌then◌else◌, Bool-cases, inr_inj,
}
use precept.Base.Results.{wrapped, >>=-eq_inr, wrapped-eq_inr}
use precept.Base.Texts.{Text}
use precept.Paircheck.Name.{QualifiedName, is_empty}
use precept.Paircheck.Protocol.{Protocol}
use precept.Paircheck.Config.{
  Library, duplicate_id, at_rule, WrittenType, Rule, Config, is_taken, claim, compile_parts,
  compile_rule, claim_each, compile_failures, with_failures, compile_from, compile,
}
use precept.Paircheck.Config.Distinct.{
  AreDistinct, Fresh, claimed, Fresh-iff, Free-nil, Fresh-append,
}

module _ (library : Library) where
  -- The ids that a rule's implementations write.
  abbrev pub written_ids : List WrittenType → List Text
  written_ids [] = []
  written_ids (each ∷ implementations) =
      let rest = written_ids implementations in
      let id = library.trim_space each.id in if is_empty id then rest else id ∷ rest

  -- The ids that the rules and their implementations write, in order.
  abbrev pub ids : List Rule → List Text
  ids [] = []
  ids (rule ∷ rules) = library.trim_space rule.id ∷ written_ids rule.implementations ++ ids rules

  -- Each protocol is what its rule compiles to, with the failures where it is on-success, in the order of
  -- the rules.
  pub data AreCompiled (failures : List QualifiedName) : List Rule → List Protocol → Type 0 where
    no_rules : AreCompiled failures [] []
    rule_and :
        {r : Rule} {p : Protocol} {rs : List Rule} {ps : List Protocol}
        → compile_rule library r ≡ inr p
        → AreCompiled failures rs ps
        → AreCompiled failures (r ∷ rs) (with_failures library failures p ∷ ps)

  claim-empty : (taken : List Text) (id : Text) → is_empty id ≡ true → claim taken id ≡ inr taken
  unfolding claim
  claim-empty taken [] e = refl
  claim-empty taken (c ∷ id) e = cc

  claim_free :
      (taken : List Text) (id : Text)
      → is_empty id ≡ false
      → is_taken taken id ≡ false
      → claim taken id ≡ inr (id ∷ taken)
  unfolding claim
  claim_free taken [] e h = cc
  claim_free taken (c ∷ id) e h = rw h refl

  claim-eq_inr :
      (taken : List Text) (id : Text) {more : List Text}
      → is_empty id ≡ false
      → claim taken id ≡ inr more
      → (is_taken taken id ≡ false) × (more ≡ id ∷ taken)
  unfolding claim
  claim-eq_inr taken [] e h = cc
  claim-eq_inr taken (c ∷ id) e h = elim (Bool-cases (is_taken taken (c ∷ id))) [
    | inl on ↦ absurd (ground (arith, rw on at h))
    | inr off ↦ (off, sym (inr_inj (rw off at h)))
  ]

  claim_taken :
      (taken : List Text) (id : Text)
      → is_taken taken id ≡ true
      → is_empty id ≡ false
      → claim taken id ≡ inl (duplicate_id id)
  unfolding claim
  claim_taken taken [] h e = cc
  claim_taken taken (c ∷ id) h e = rw h refl

  -- The claims of a rule's implementations succeed exactly where their ids are fresh.
  claim_each_iff :
      (index : ℕ) (implementations : List WrittenType) (taken more : List Text)
      → (claim_each library index taken implementations ≡ inr more) ↔ (
          Fresh taken (written_ids implementations)
          × (more ≡ claimed taken (written_ids implementations)))
  unfolding claim_each
  claim_each_iff index [] taken more = (λ h. (tt, sym (inr_inj h)), λ h. rw h.1 refl)
  claim_each_iff index (each ∷ implementations) taken more =
      let id = library.trim_space each.id in
      elim (Bool-cases (is_empty id)) [
        | inl e ↦ rw (e, claim-empty taken id e) (claim_each_iff index implementations taken more)
        | inr e ↦ elim (Bool-cases (is_taken taken id)) [
          | inl on ↦
              rw (e, claim_taken taken id on e) (λ h. cc, λ h. absurd (ground (arith, on, h.0.0)))
          | inr off ↦
              let rest = claim_each_iff index implementations (id ∷ taken) more in
              rw (e, claim_free taken id e off)
                (λ h. ((off, (rest.0 h).0), (rest.0 h).1), λ h. rest.1 (h.0.1, h.1))
        ]
      ]

  compile_parts-id :
      (id : Text) (rule : Rule) {p : Protocol} → compile_parts library id rule ≡ inr p → p.id ≡ id
  unfolding compile_parts
  compile_parts-id id rule h = ground arith

  compile_rule-id :
      (rule : Rule) {p : Protocol}
      → compile_rule library rule ≡ inr p
      → (p.id ≡ library.trim_space rule.id) × (is_empty (library.trim_space rule.id) ≡ false)
  unfolding compile_rule
  compile_rule-id rule {p} h =
      let id = library.trim_space rule.id in
      elim (Bool-cases (is_empty id)) [
        | inl e ↦ absurd (ground (arith, rw e at h))
        | inr e ↦ elim (Bool-cases (is_empty rule.trigger.name)) [
          | inl missing ↦ absurd (ground (arith, rw (e, missing) at h))
          | inr named ↦ (compile_parts-id id rule (rw (e, named) at h), e)
        ]
      ]

  -- What one rule adds.
  compile_from-cons :
      (failures : List QualifiedName) (index : ℕ) (taken : List Text) (rule : Rule)
      (rules : List Rule) (p : Protocol) (ps : List Protocol)
      → compile_rule library rule ≡ inr p
      → Fresh taken (library.trim_space rule.id ∷ written_ids rule.implementations)
      → compile_from library failures
          (suc index)
          (claimed taken (library.trim_space rule.id ∷ written_ids rule.implementations))
          rules
        ≡ inr ps
      → compile_from library failures index taken (rule ∷ rules)
        ≡ inr (with_failures library failures p ∷ ps)
  unfolding compile_from
  compile_from-cons failures index taken rule rules p ps h fresh later =
      let id = library.trim_space rule.id in
      let (same, e) = compile_rule-id rule h in
      let now : claim taken p.id ≡ inr (id ∷ taken) = rw same (claim_free taken id e fresh.0) in
      let then_all =
        (claim_each_iff index rule.implementations (id ∷ taken)
            (claimed (id ∷ taken) (written_ids rule.implementations))).1
          (fresh.1, refl) in
      rw h (rw now (rw then_all (rw later refl)))

  -- What a rule that is accepted shows, and the rules after it.
  compile_from-eq_inr :
      (failures : List QualifiedName) (index : ℕ) (taken : List Text) (rule : Rule)
      (rules : List Rule) (ps : List Protocol)
      → compile_from library failures index taken (rule ∷ rules) ≡ inr ps
      → (p : Protocol) × (rest : List Protocol) × (compile_rule library rule ≡ inr p)
        × Fresh taken (library.trim_space rule.id ∷ written_ids rule.implementations)
        × (compile_from library failures
              (suc index)
              (claimed taken (library.trim_space rule.id ∷ written_ids rule.implementations))
              rules
            ≡ inr rest)
        × (ps ≡ with_failures library failures p ∷ rest)
  unfolding compile_from
  compile_from-eq_inr failures index taken rule rules ps h =
      let id = library.trim_space rule.id in
      let (p, compiled, h1) =
        >>=-eq_inr (wrapped (at_rule index) (compile_rule library rule)) _ h in
      let done = wrapped-eq_inr (at_rule index) (compile_rule library rule) compiled in
      let (same, e) = compile_rule-id rule done in
      let (once, first, h2) = >>=-eq_inr (wrapped (at_rule index) (claim taken p.id)) _ h1 in
      let (off, pushed) =
        claim-eq_inr taken id e
          (rw same at (wrapped-eq_inr (at_rule index) (claim taken p.id) first)) in
      let (all, each, h3) = >>=-eq_inr (claim_each library index once rule.implementations) _ h2 in
      let (fresh, counted) =
        (claim_each_iff index rule.implementations (id ∷ taken) all).0 (rw pushed at each) in
      let (rest, later, last) =
        >>=-eq_inr (compile_from library failures (suc index) all rules) _ h3 in
      (p, rest, done, (off, fresh), rw counted at later, sym (inr_inj last))

  compile_from-AreCompiled :
      (failures : List QualifiedName) (index : ℕ) (taken : List Text) (rules : List Rule)
      (ps : List Protocol)
      → compile_from library failures index taken rules ≡ inr ps
      → AreCompiled failures rules ps × Fresh taken (ids rules)
  unfolding compile_from
  compile_from-AreCompiled failures index taken [] ps h =
      (subst (AreCompiled failures []) (inr_inj h) no_rules, tt)
  compile_from-AreCompiled failures index taken (rule ∷ rules) ps h =
      let own = library.trim_space rule.id ∷ written_ids rule.implementations in
      let (p, rest, done, fresh, later, last) =
        compile_from-eq_inr failures index taken rule rules ps h in
      let (compiled, others) =
        compile_from-AreCompiled failures (suc index) (claimed taken own) rules rest later in
      (
        subst (AreCompiled failures (rule ∷ rules)) (sym last) (rule_and done compiled),
        (Fresh-append taken own (ids rules)).1 (fresh, others),
      )

  compile_from_complete :
      (failures : List QualifiedName) (index : ℕ) (taken : List Text) (rules : List Rule)
      (ps : List Protocol)
      → AreCompiled failures rules ps
      → Fresh taken (ids rules)
      → compile_from library failures index taken rules ≡ inr ps
  unfolding compile_from
  compile_from_complete failures index taken [] ps no_rules fresh = refl
  compile_from_complete failures index taken (rule ∷ rules) ps
        (rule_and {p} {ps = rest} done compiled) fresh =
      let own = library.trim_space rule.id ∷ written_ids rule.implementations in
      let (now, later) = (Fresh-append taken own (ids rules)).0 fresh in
      compile_from-cons failures index taken rule rules p rest done now
        (compile_from_complete failures (suc index) (claimed taken own) rules rest compiled later)

-- A configuration compiles to a list of protocols exactly where every failure it names is a name, its rules
-- compile one by one, in their order, to that list, with the failures in those that are on-success, and
-- no id is written twice, by two rules, two implementations or one of each.
pub compile_iff :
    (library : Library) (config : Config) (ps : List Protocol)
    → (compile library config ≡ inr ps) ↔ (
        (failures : List QualifiedName) × (compile_failures library 0 config.failures
          ≡ inr failures)
        × AreCompiled library failures config.rules ps
        × AreDistinct (ids library config.rules))
unfolding compile
compile_iff library config ps = (there, back)
  where
    all_ids : List Text
    all_ids = ids library config.rules

    there :
        compile library config ≡ inr ps
        → (failures : List QualifiedName) × (compile_failures library 0 config.failures
            ≡ inr failures)
          × AreCompiled library failures config.rules ps
          × AreDistinct all_ids
    there h =
        let (failures, named, rest) = >>=-eq_inr (compile_failures library 0 config.failures) _ h in
        let (compiled, fresh) =
          compile_from-AreCompiled library failures 0 [] config.rules ps rest in
        (failures, named, compiled, ((Fresh-iff [] all_ids).0 fresh).0)

    back :
        (failures : List QualifiedName) × (compile_failures library 0 config.failures
            ≡ inr failures)
          × AreCompiled library failures config.rules ps
          × AreDistinct all_ids
        → compile library config ≡ inr ps
    back (failures, named, compiled, distinct) = rw named (
        compile_from_complete library failures 0 [] config.rules ps compiled
          ((Fresh-iff [] all_ids).1 (distinct, Free-nil all_ids)))
