-- ===== src/Paircheck/Dispatch/Bounds.antt =====
-- The loops of paircheck/bind.go and protocol.go that find a satisfier, and how long the lists of a binding are.
use precept.Base.{
  ℕ, suc, zero, ◌+◌, Bool, true, not, ◌&&◌, List, [], ◌∷◌, Option, none, some, inl, inr, ◌≡◌, refl,
  ap, arith, sym, ◌∙◌, subst, Memᴰ, Bool-cases, Option-cases, some_inj, inr_inj, length, get_elem?,
  if◌then◌else◌,
}
use mathlib.Core.List.Memᴰ
use precept.Base.Results.{wrapped, >>=-eq_inr}
use precept.Paircheck.Name.{Declared, matches}
use precept.Paircheck.Protocol.{Side, Protocol, satisfier_from, satisfier_named}
use precept.Paircheck.Slot.{Slot}
use precept.Paircheck.Types.{GoTypes}
use precept.Paircheck.Candidates.{Candidate}
use precept.Paircheck.Bind.{
  Visible, Offer, Binding, closing_side, closing_from, functions_of, settle_from, only, in_trigger,
  offered_by, linking_type, resolve,
}
use precept.Paircheck.Bind.Resolve.{AreSlots, settle_from-AreSlots}
use precept.Paircheck.Dispatch.{called_from, or_else, kept_method_from, named_by}

-- The index of the first element that passes a test, from an index.
abbrev pub first_from {ℓ} : {A : Type ℓ} → (A → Bool) → ℕ → List A → Option ℕ
first_from test index [] = none
first_from test index (x ∷ xs) =
    let rest = first_from test (suc index) xs in if test x then some index else rest

-- An element of a list passes a test at an index.
abbrev pub Passes {ℓ} : {A : Type ℓ} → (A → Bool) → List A → ℕ → Type ℓ
Passes {A = A} test xs i = (x : A) × (get_elem? xs i ≡ some x) × (test x ≡ true)

pub first_from-some {ℓ} :
    {A : Type ℓ} (test : A → Bool) (index : ℕ) (xs : List A) (i : ℕ)
    → first_from test index xs ≡ some i
    → (k : ℕ) × (i ≡ index + k) × Passes test xs k
first_from-some test index [] i h = cc
first_from-some test index (x ∷ xs) i h = elim (Bool-cases (test x)) [
  | inl on ↦
      let same : index ≡ i = some_inj (rw on at h) in (0, ground (arith, same), (x, refl, on))
  | inr off ↦
      let (k, at, passes) = first_from-some test (suc index) xs i (rw off at h) in
      (suc k, ground (arith, at), passes)
]

pub first_from-none {ℓ} :
    {A : Type ℓ} (test : A → Bool) (index : ℕ) (xs : List A) (k : ℕ)
    → first_from test index xs ≡ none
    → Passes test xs k
    → ⊥
first_from-none test index [] k h (x, at, on) = cc
first_from-none test index (x ∷ xs) zero h (y, at, on) =
    let same : x ≡ y = some_inj at in absurd (ground (arith, rw (ap test same ∙ on) at h))
first_from-none test index (x ∷ xs) (suc k) h (y, at, on) = elim (Bool-cases (test x)) [
  | inl now ↦ absurd (ground (arith, rw now at h))
  | inr off ↦ first_from-none test (suc index) xs k (rw off at h) (y, at, on)
]

abbrev pub names : Declared → Side → Bool
names function side = not side.called && matches side.name function

satisfier_from-first :
    (index : ℕ) (sides : List Side) (function : Declared)
    → satisfier_from index sides function ≡ first_from (names function) index sides
unfolding satisfier_from
satisfier_from-first index [] function = refl
satisfier_from-first index (side ∷ sides) function =
    ap (λ (o : Option ℕ). if names function side then some index else o)
      (satisfier_from-first (suc index) sides function)

pub called_from-first :
    (index : ℕ) (sides : List Side)
    → called_from index sides ≡ first_from (λ side. side.called) index sides
unfolding called_from
called_from-first index [] = refl
called_from-first index (side ∷ sides) =
    ap (λ (o : Option ℕ). if side.called then some index else o)
      (called_from-first (suc index) sides)

functions_of-length :
    (go : GoTypes) (visible : Visible) (closing : List (Option Offer))
    → length (functions_of go visible closing) ≡ length closing
functions_of-length go visible [] = refl
functions_of-length go visible (none ∷ closing) = ap suc (functions_of-length go visible closing)
functions_of-length go visible (some offer ∷ closing) =
    ap suc (functions_of-length go visible closing)

closing_from-length :
    (go : GoTypes) (visible : Visible) (strict : Bool) (index : ℕ) (sides : List Side)
    {closing : List (Option Offer)}
    → closing_from go visible strict index sides ≡ inr closing
    → length closing ≡ length sides
unfolding closing_from
closing_from-length go visible strict index [] h = ap length (sym (inr_inj h))
closing_from-length go visible strict index (side ∷ sides) h =
    let (offer, now, h1) = >>=-eq_inr (closing_side go visible strict index side) _ h in
    let (rest, later, last) = >>=-eq_inr (closing_from go visible strict (suc index) sides) _ h1 in
    ap length (sym (inr_inj last))
    ∙ ap suc (closing_from-length go visible strict (suc index) sides later)

AreSlots-length :
    (go : GoTypes) (link : Candidate) (closing : List (Option Offer)) (slots : List Slot)
    → AreSlots go link closing slots
    → length slots ≡ length closing
AreSlots-length go link [] [] h = refl
AreSlots-length go link [] (slot ∷ slots) h = absurd h
AreSlots-length go link (offer ∷ closing) [] h = absurd h
AreSlots-length go link (none ∷ closing) (slot ∷ slots) h =
    ap suc (AreSlots-length go link closing slots h.1)
AreSlots-length go link (some offer ∷ closing) (slot ∷ slots) h =
    ap suc (AreSlots-length go link closing slots h.1)

-- A binding has a slot and a function for each satisfier.
pub resolve-lengths :
    (go : GoTypes) (visible : Visible) (current : Protocol) (strict : Bool) {b : Binding}
    → resolve go visible current strict ≡ inr b
    → (length b.satisfier_slots ≡ length current.satisfiers)
      × (length b.satisfiers ≡ length current.satisfiers)
unfolding resolve
resolve-lengths go visible current strict {b} h =
    let (found, e, h1) =
      >>=-eq_inr (wrapped in_trigger (offered_by go visible current.trigger true)) _ h in
    let (closing, e1, h2) = >>=-eq_inr (closing_from go visible strict 0 current.satisfiers) _ h1 in
    let (link, e2, h3) = >>=-eq_inr (linking_type go found.0 closing) _ h2 in
    let (slot, e3, h4) = >>=-eq_inr (wrapped in_trigger (only go found.0 link)) _ h3 in
    let (slots, e4, h5) = >>=-eq_inr (settle_from go link 0 closing) _ h4 in
    let offered = closing_from-length go visible strict 0 current.satisfiers e1 in
    (
      ap (λ (r : Binding). length r.satisfier_slots) (sym (inr_inj h5))
          ∙ AreSlots-length go link closing slots (settle_from-AreSlots go link 0 closing slots e4)
          ∙ offered,
      ap (λ (r : Binding). length r.satisfiers) (sym (inr_inj h5))
          ∙ functions_of-length go visible closing
          ∙ offered,
    )

pub named-some :
    (p : Protocol) (function : Declared) (i : ℕ)
    → satisfier_named p function ≡ some i
    → Passes (names function) p.satisfiers i
unfolding satisfier_named
named-some p function i h =
    let (k, at, passes) =
      first_from-some (names function) 0 p.satisfiers i
        (sym (satisfier_from-first 0 p.satisfiers function) ∙ h) in
    let same : k ≡ i = ground (arith, at) in
    subst (Passes (names function) p.satisfiers) same passes

pub named-none :
    (p : Protocol) (function : Declared) (i : ℕ)
    → satisfier_named p function ≡ none
    → Passes (names function) p.satisfiers i
    → ⊥
unfolding satisfier_named
named-none p function i h =
    first_from-none (names function) 0 p.satisfiers i
      (sym (satisfier_from-first 0 p.satisfiers function) ∙ h)

pub kept_method_from-some :
    (p : Protocol) (methods : List (Option Declared)) (i : ℕ)
    → kept_method_from p methods ≡ some i
    → (function : Declared) × Memᴰ (some function) methods × (satisfier_named p function ≡ some i)
unfolding kept_method_from
kept_method_from-some p [] i h = cc
kept_method_from-some p (none ∷ methods) i h =
    let (function, m, e) = kept_method_from-some p methods i h in (function, Memᴰ.tail m, e)
kept_method_from-some p (some function ∷ methods) i h =
    elim (Option-cases (satisfier_named p function)) [
      | inl e ↦
          let (later, m, found) = kept_method_from-some p methods i (rw e at h) in
          (later, Memᴰ.tail m, found)
      | inr (j, e) ↦ (function, Memᴰ.head refl, e ∙ (rw e at h))
    ]

pub or_else-none : (o p : Option ℕ) → or_else o p ≡ none → (o ≡ none) × (p ≡ none)
or_else-none none p h = (refl, h)
or_else-none (some i) p h = cc

pub kept_method_from-none :
    (p : Protocol) (methods : List (Option Declared)) (function : Declared)
    → kept_method_from p methods ≡ none
    → Memᴰ (some function) methods
    → satisfier_named p function ≡ none
unfolding kept_method_from
kept_method_from-none p [] function h m = absurd (Memᴰ.not-nil m)
kept_method_from-none p (method ∷ methods) function h m =
    let (now, later) = or_else-none (named_by p method) (kept_method_from p methods) h in
    elim (Memᴰ.cases_cons m) [
      | inl same ↦ subst (λ (o : Option Declared). named_by p o ≡ none) (sym same) now
      | inr rest ↦ kept_method_from-none p methods function later rest
    ]
