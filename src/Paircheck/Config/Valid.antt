-- ===== src/Paircheck/Config/Valid.antt =====
-- The protocols that `Config.compile` of paircheck/config.go returns are well formed.
use precept.Base.{
  ℕ, Bool, true, false, List, [], ◌∷◌, ◌⊎◌, inl, inr, ◌≡◌, ◌≢◌, refl, All, if◌then◌else◌,
}
use precept.Base.Results.{
  wrapped, each_from, Ensures, Ensures-inr, Ensures-wrapped, Ensures->>=, Ensures-after,
  Ensures-each_from, Ensures-if,
}
use precept.Base.Texts.{Text, same_text, trim_byte, starts_with}
use precept.Paircheck.Name.{QualifiedName, NameError, parse_name, without_type_parameters, is_empty}
use precept.Paircheck.Name.RoundTrip.{IsName}
use precept.Paircheck.Name.Valid.{parse_name-IsName}
use precept.Paircheck.Slot.{parse_slot}
use precept.Paircheck.Protocol.{Side, Implementation, Protocol}
use precept.Paircheck.Config.{
  Library, Call, WrittenType, Rule, Config, ConfigError, wrong_name, wrong_slot, at_failure,
  at_satisfier, at_trigger, at_implementation, about, call_word, normalize, compile_call,
  compile_satisfier, compile_named, compile_satisfiers, type_named, compile_implementation,
  compile_parts, compile_rule, compile_failures, with_failures, compile,
}
use precept.Paircheck.Config.Compile.{AreCompiled, no_rules, rule_and, compile_iff}

module _ (library : Library) where
  -- A side calls the value itself, or names a function.
  abbrev pub Names : Side → Type 0
  Names side = (side.called ≡ true) ⊎ IsName library.go side.name

  pub record IsValid (p : Protocol) : Type 0 where
    pub trigger : IsName library.go p.trigger.name
    pub satisfiers : All Names p.satisfiers
    pub some_satisfier : p.satisfiers ≢ []
    pub implementations : All (λ each. IsName library.go each.name) p.implementations
    pub failures : All (IsName library.go) p.failures

  parse_name-Ensures : (t : Text) → Ensures (IsName library.go) (parse_name library.go t)
  parse_name-Ensures t = by_result (parse_name library.go t) refl
    where
      by_result :
          (m : NameError ⊎ QualifiedName)
          → parse_name library.go t ≡ m
          → Ensures (IsName library.go) m
      by_result (inl wrong) e = tt
      by_result (inr q) e = parse_name-IsName library.go t e

  compile_call-IsName :
      (call : Call) → Ensures (λ side. IsName library.go side.name) (compile_call library call)
  unfolding compile_call
  compile_call-IsName call =
      Ensures->>= (IsName library.go) _ (wrapped wrong_name (parse_name library.go call.name)) _
        (Ensures-wrapped _ wrong_name (parse_name library.go call.name)
          (parse_name-Ensures call.name))
        (λ name known.
          Ensures-after (λ (side : Side). IsName library.go side.name)
            (wrapped wrong_slot (parse_slot library.atoi call.slot)) _ (λ position. known))

  Ensures-call :
      (m : ConfigError ⊎ Side) → Ensures (λ side. IsName library.go side.name) m → Ensures Names m
  Ensures-call (inl wrong) h = tt
  Ensures-call (inr side) h = inr h

  compile_satisfier-Names : (call : Call) → Ensures Names (compile_satisfier library call)
  unfolding compile_satisfier
  compile_satisfier-Names call =
      Ensures-if Names (same_text call.name call_word) _ _
        (λ word. Ensures-if Names (is_empty call.slot) _ _ (λ e. inl refl) (λ e. tt))
        (λ other. Ensures-call (compile_call library call) (compile_call-IsName call))

  compile_named-Names : (index : ℕ) (call : Call) → Ensures Names (compile_named library index call)
  unfolding compile_named
  compile_named-Names index call =
      Ensures-if Names (is_empty call.name) _ _ (λ e. tt)
        (λ e.
          Ensures-wrapped Names (at_satisfier index) (compile_satisfier library call)
            (compile_satisfier-Names call))

  compile_satisfiers-Names :
      (calls : List Call)
      → Ensures (λ sides. All Names sides × (sides ≢ [])) (compile_satisfiers library calls)
  unfolding compile_satisfiers each_from
  compile_satisfiers-Names [] = tt
  compile_satisfiers-Names (call ∷ calls) =
      Ensures->>= Names _ (compile_named library 0 call) _ (compile_named-Names 0 call) (λ side now.
        Ensures->>= (All Names) _ (each_from (compile_named library) 1 calls) _
          (Ensures-each_from Names (compile_named library) compile_named-Names 1 calls)
          (λ sides later. ((now, later), λ e. cc)))

  type_named-IsName :
      (each : WrittenType) (written rule : Text) (m : NameError ⊎ QualifiedName)
      → Ensures (IsName library.go) m
      → Ensures (λ i. IsName library.go i.name) (type_named library each written rule m)
  type_named-IsName each written rule (inl wrong) h = tt
  type_named-IsName each written rule (inr name) h =
      Ensures-if (λ (i : Implementation). IsName library.go i.name) (starts_with written b'(') _ _
        (λ e. tt) (λ e. h)

  compile_implementation-IsName :
      (rule : Text) (each : WrittenType)
      → Ensures (λ i. IsName library.go i.name) (compile_implementation library rule each)
  unfolding compile_implementation
  compile_implementation-IsName rule each =
      let written = without_type_parameters (trim_byte b'*' each.name) in
      Ensures-if (λ (i : Implementation). IsName library.go i.name) (is_empty each.name) _ _
        (λ e. tt)
        (λ e.
          type_named-IsName each written rule (parse_name library.go written)
            (parse_name-Ensures written))

  -- What `compile_parts` returns, but for the failures, which it leaves empty.
  compile_parts-IsValid :
      (id : Text) (rule : Rule) → Ensures IsValid (compile_parts library id rule)
  unfolding compile_parts
  compile_parts-IsValid id rule =
      Ensures->>= (λ side. IsName library.go side.name) IsValid
        (wrapped (λ wrong. about id (at_trigger wrong)) (compile_call library rule.trigger)) _
        (Ensures-wrapped _ (λ wrong. about id (at_trigger wrong))
          (compile_call library rule.trigger) (compile_call-IsName rule.trigger))
        (λ trigger opened.
          Ensures->>= (λ sides. All Names sides × (sides ≢ [])) IsValid
            (wrapped (about id) (compile_satisfiers library rule.satisfiers)) _
            (Ensures-wrapped _ (about id) (compile_satisfiers library rule.satisfiers)
              (compile_satisfiers-Names rule.satisfiers))
            (λ satisfiers closed.
              Ensures-after IsValid (wrapped (about id) (normalize rule.deferred_closure)) _
                (λ coverage.
                  Ensures->>= (All (λ each. IsName library.go each.name)) IsValid
                    (each_from
                      (λ index each.
                        wrapped (λ wrong. about id (at_implementation index wrong))
                          (compile_implementation library id each))
                      0 rule.implementations)
                    _
                    (Ensures-each_from (λ each. IsName library.go each.name) _
                      (λ index each.
                        Ensures-wrapped _ (λ wrong. about id (at_implementation index wrong))
                          (compile_implementation library id each)
                          (compile_implementation-IsName id each))
                      0 rule.implementations)
                    (λ implementations applied. record {
                      trigger = opened;
                      satisfiers = closed.0;
                      some_satisfier = closed.1;
                      implementations = applied;
                      failures = tt;
                    }))))

  compile_rule-IsValid : (rule : Rule) → Ensures IsValid (compile_rule library rule)
  unfolding compile_rule
  compile_rule-IsValid rule =
      let id = library.trim_space rule.id in
      Ensures-if IsValid (is_empty id) _ _ (λ e. tt)
        (λ e.
          Ensures-if IsValid (is_empty rule.trigger.name) _ _ (λ e'. tt)
            (λ e'. compile_parts-IsValid id rule))

  compile_failures-IsName :
      (names : List Text) → Ensures (All (IsName library.go)) (compile_failures library 0 names)
  unfolding compile_failures
  compile_failures-IsName names =
      Ensures-each_from (IsName library.go) _
        (λ index name.
          Ensures-wrapped _ (λ wrong. at_failure index (wrong_name wrong))
            (parse_name library.go name) (parse_name-Ensures name))
        0 names

  with_failures-IsValid :
      (failures : List QualifiedName) (p : Protocol)
      → All (IsName library.go) failures
      → IsValid p
      → IsValid (with_failures library failures p)
  with_failures-IsValid failures p h v = by_flag p.on_success
    where
      by_flag : (b : Bool) → IsValid (if b then record p { failures = failures } else p)
      by_flag true = record {
        trigger = v.trigger;
        satisfiers = v.satisfiers;
        some_satisfier = v.some_satisfier;
        implementations = v.implementations;
        failures = h;
      }
      by_flag false = v

  AreCompiled-IsValid :
      (failures : List QualifiedName) (rules : List Rule) (ps : List Protocol)
      → All (IsName library.go) failures
      → AreCompiled library failures rules ps
      → All IsValid ps
  AreCompiled-IsValid failures [] ps h no_rules = tt
  AreCompiled-IsValid failures (rule ∷ rules) ps h (rule_and {p} {ps = rest} done more) = (
    with_failures-IsValid failures p h
        (Ensures-inr IsValid (compile_rule library rule) (compile_rule-IsValid rule) done),
    AreCompiled-IsValid failures rules rest h more,
  )

-- Each protocol of a configuration that compiles is well formed: its trigger, its failures and the types it
-- applies to as well are names that a configuration can write, and it has at least one satisfier, each of
-- which is a call of the value itself or has such a name.
pub compile-IsValid :
    (library : Library) (config : Config) {ps : List Protocol}
    → compile library config ≡ inr ps
    → All (IsValid library) ps
compile-IsValid library config {ps} h =
    let (failures, named, compiled, distinct) = (compile_iff library config ps).0 h in
    AreCompiled-IsValid library failures config.rules ps
      (Ensures-inr (All (IsName library.go)) (compile_failures library 0 config.failures)
        (compile_failures-IsName library config.failures) named)
      compiled
