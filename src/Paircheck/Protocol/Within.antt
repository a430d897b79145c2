-- ===== src/Paircheck/Protocol/Within.antt =====
-- What `within` of paircheck/protocol.go resolves, and when it cannot.
use precept.Base.{
  ℕ, Bool, true, false, not, ◌&&◌, ◌||◌, List, [], ◌∷◌, inr, ◌≡◌, refl, ◌∙◌, contains_func, All,
  arith,
}
use precept.Base.Results.{
  wrapped, each_from, is_error, is_error-wrapped, is_error->>=, is_error-each_from, Ensures,
  Ensures-inr, Ensures-wrapped, Ensures->>=, Ensures-each_from, contains_func-All,
}
use precept.Base.Texts.{Text}
use precept.Paircheck.Name.{QualifiedName, within, names_within, is_empty}
use precept.Paircheck.Protocol.{
  Side, Implementation, Protocol, in_side, in_failures, side_within, implementation_within,
  protocol_within, relative,
}

abbrev sides_relative : Side → Bool
sides_relative side = not side.called && side.name.relative

is_error-within :
    (q : QualifiedName) (m : Text) → is_error (within q m) ≡ (is_empty m && q.relative)
unfolding within
is_error-within q m = ground arith

is_error-names_within :
    (names : List QualifiedName) (m : Text)
    → is_error (names_within names m) ≡ (is_empty m && contains_func names (λ name. name.relative))
unfolding names_within
is_error-names_within [] m = ground arith
is_error-names_within (name ∷ names) m =
    ground (arith, is_error-within name m, is_error-names_within names m)

is_error-side_within :
    (m : Text) (side : Side) → is_error (side_within m side) ≡ (is_empty m && sides_relative side)
unfolding side_within
is_error-side_within m side = ground (arith, is_error-within side.name m)

is_error-implementation_within :
    (m : Text) (index : ℕ) (each : Implementation)
    → is_error (implementation_within m index each) ≡ (is_empty m && each.name.relative)
unfolding implementation_within
is_error-implementation_within m index each = ground (arith, is_error-within each.name m)

within-IsAbsolute : (q : QualifiedName) (m : Text) → Ensures (λ r. r.relative ≡ false) (within q m)
unfolding within
within-IsAbsolute q m = ground arith

names_within-IsAbsolute :
    (names : List QualifiedName) (m : Text)
    → Ensures (λ rs. contains_func rs (λ name. name.relative) ≡ false) (names_within names m)
unfolding names_within
names_within-IsAbsolute [] m = refl
names_within-IsAbsolute (name ∷ names) m =
    ground (arith, within-IsAbsolute name m, names_within-IsAbsolute names m)

side_within-IsAbsolute :
    (m : Text) (side : Side) → Ensures (λ r. sides_relative r ≡ false) (side_within m side)
unfolding side_within
side_within-IsAbsolute m side = ground (arith, within-IsAbsolute side.name m)

implementation_within-IsAbsolute :
    (m : Text) (index : ℕ) (each : Implementation)
    → Ensures (λ r. r.name.relative ≡ false) (implementation_within m index each)
unfolding implementation_within
implementation_within-IsAbsolute m index each = ground (arith, within-IsAbsolute each.name m)

contains_func-and {ℓ} :
    {A : Type ℓ} (b : Bool) (p : A → Bool) (xs : List A)
    → contains_func xs (λ x. b && p x) ≡ (b && contains_func xs p)
contains_func-and b p [] = ground arith
contains_func-and b p (x ∷ xs) = ground (arith, contains_func-and b p xs)

regroup :
    (e t s f i : Bool)
    → (e && t || (e && s || (e && f || (e && i || false)))) ≡ (e && (t || s || i || f))
regroup true t s f i = ground arith
regroup false t s f i = refl

-- Resolving a protocol's names fails exactly where the module has no path and a name is relative to it:
-- the trigger's, a satisfier's that is not a call of the value, a failure's or an implementation's.
pub is_error-protocol_within :
    (p : Protocol) (m : Text)
    → is_error (protocol_within p m)
      ≡ (is_empty m && (relative p || contains_func p.failures (λ name. name.relative)))
unfolding protocol_within relative
is_error-protocol_within p m =
    let trigger_error =
      is_error-wrapped in_side (within p.trigger.name m) ∙ is_error-within p.trigger.name m in
    let sides_error =
      is_error-each_from (λ index. side_within m) (λ side. is_empty m && sides_relative side)
        (λ index. is_error-side_within m) 0 p.satisfiers
      ∙ contains_func-and (is_empty m) sides_relative p.satisfiers in
    let failures_error =
      is_error-wrapped in_failures (names_within p.failures m)
      ∙ is_error-names_within p.failures m in
    let implementations_error =
      is_error-each_from (implementation_within m) (λ each. is_empty m && each.name.relative)
        (is_error-implementation_within m) 0 p.implementations
      ∙ contains_func-and (is_empty m) (λ each. each.name.relative) p.implementations in
    is_error->>= (wrapped in_side (within p.trigger.name m)) _ _ (λ trigger.
      is_error->>= (each_from (λ index. side_within m) 0 p.satisfiers) _ _ (λ satisfiers.
        is_error->>= (wrapped in_failures (names_within p.failures m)) _ _ (λ failures.
          is_error->>= (each_from (implementation_within m) 0 p.implementations) _ false
            (λ implementations. refl))))
    ∙ rw (trigger_error, sides_error, failures_error, implementations_error)
        (regroup (is_empty m) p.trigger.name.relative (contains_func p.satisfiers sides_relative)
          (contains_func p.failures (λ name. name.relative))
          (contains_func p.implementations (λ each. each.name.relative)))

-- What `within` returns has no name relative to a module, but under a call of the value.
pub protocol_within-relative :
    (p : Protocol) (m : Text) (q : Protocol)
    → protocol_within p m ≡ inr q
    → (relative q ≡ false) × (contains_func q.failures (λ name. name.relative) ≡ false)
unfolding protocol_within relative
protocol_within-relative p m q h =
    Ensures-inr
      (λ q. (relative q ≡ false) × (contains_func q.failures (λ name. name.relative) ≡ false))
      (protocol_within p m)
      (Ensures->>= (λ name. name.relative ≡ false) _ (wrapped in_side (within p.trigger.name m)) _
        (Ensures-wrapped _ in_side (within p.trigger.name m) (within-IsAbsolute p.trigger.name m))
        (λ trigger now.
          Ensures->>= (All (λ side. sides_relative side ≡ false)) _
            (each_from (λ index. side_within m) 0 p.satisfiers) _
            (Ensures-each_from (λ side. sides_relative side ≡ false) (λ index. side_within m)
              (λ index. side_within-IsAbsolute m) 0 p.satisfiers)
            (λ satisfiers sides.
              Ensures->>= (λ names. contains_func names (λ name. name.relative) ≡ false) _
                (wrapped in_failures (names_within p.failures m)) _
                (Ensures-wrapped _ in_failures (names_within p.failures m)
                  (names_within-IsAbsolute p.failures m))
                (λ failures named.
                  Ensures->>= (All (λ each. each.name.relative ≡ false)) _
                    (each_from (implementation_within m) 0 p.implementations) _
                    (Ensures-each_from (λ each. each.name.relative ≡ false)
                      (implementation_within m) (implementation_within-IsAbsolute m) 0
                      p.implementations)
                    (λ implementations types. (
                      rw
                          (
                            now,
                            contains_func-All sides_relative satisfiers sides,
                            contains_func-All (λ each. each.name.relative) implementations types,
                          )
                          refl,
                      named,
                    ))))))
      h
