-- ===== src/Paircheck/Dispatch/Found.antt =====
-- Which satisfier `satisfierOf` of paircheck/bind.go finds for a call, and its slot.
use precept.Base.{
  ℕ, suc, zero, Bool, true, false, ◌&&◌, ◌||◌, List, [], ◌∷◌, Option, none, some, ◌⊎◌, inl, inr,
  ◌≡◌, refl, ap, arith, sym, ◌∙◌, subst, Memᴰ, Bool-cases, Option-cases, length, get_elem?,
  if◌then◌else◌,
}
use precept.Base.Texts.{Text, same_text}
use precept.Paircheck.Name.{Declared}
use precept.Paircheck.Protocol.{Side, Protocol}
use precept.Paircheck.Slot.{Slot}
use precept.Paircheck.Types.{GoType, GoTypes}
use precept.Paircheck.Candidates.{Function}
use precept.Paircheck.Bind.{Visible, Binding, resolve}
use precept.Paircheck.Dispatch.{
  CallCommon, satisfied_by, called_from, or_else, called_by, kept_satisfier, dispatches_to,
  dispatched_from, dispatched, satisfier_of,
}
use precept.Paircheck.Dispatch.Bounds.{
  first_from, Passes, names, first_from-some, first_from-none, called_from-first, named-some,
  named-none, kept_method_from-some, kept_method_from-none, or_else-none, resolve-lengths,
}

or_else-some : (o p : Option ℕ) {i : ℕ} → or_else o p ≡ some i → (o ≡ some i) ⊎ (p ≡ some i)
or_else-some none p h = inr h
or_else-some (some j) p h = inl h

-- A list as long as another has an element wherever the other has one.
get_elem?-beside {ℓ κ} :
    {A : Type ℓ} {B : Type κ} (xs : List A) (ys : List B) (i : ℕ) {x : A}
    → length xs ≡ length ys
    → get_elem? xs i ≡ some x
    → (y : B) × (get_elem? ys i ≡ some y)
get_elem?-beside [] ys i same h = cc
get_elem?-beside (x ∷ xs) [] i same h = absurd (ground (arith, same))
get_elem?-beside (x ∷ xs) (y ∷ ys) zero same h = (y, refl)
get_elem?-beside (x ∷ xs) (y ∷ ys) (suc i) same h =
    get_elem?-beside xs ys i (ground (arith, same)) h

module _ (go : GoTypes) (implements : GoType → ℕ → Bool)
    (kept_methods : ℕ → List (Option Declared)) where
  -- The function called is the satisfier.
  abbrev IsNamed : Protocol → CallCommon → ℕ → Type 0
  IsNamed p common i =
      (function : Declared) × (common.callee ≡ some function)
      × Passes (names function) p.satisfiers i

  abbrev IsDynamic : CallCommon → Type 0
  IsDynamic common = (common.invoke ≡ false) × (common.static ≡ false)

  -- The value itself is called.
  abbrev IsValueCall : Protocol → Binding → CallCommon → ℕ → Type 0
  IsValueCall p b common i =
      IsDynamic common
      × ((t : GoType) × (b.value_type ≡ some t) × (go.identical common.value_type t ≡ true))
      × Passes (λ (side : Side). side.called) p.satisfiers i

  -- A method value of the satisfier, read back, is called.
  abbrev IsKept : Protocol → CallCommon → ℕ → Type 0
  IsKept p common i =
      IsDynamic common
      × ((function : Declared) × Memᴰ (some function) (kept_methods common.value)
          × Passes (names function) p.satisfiers i)

  -- A method of an interface is called, which the satisfier's receiver implements.
  abbrev IsDispatched : Binding → CallCommon → ℕ → Type 0
  IsDispatched b common i =
      (common.invoke ≡ true)
      × ((method : Declared) × (contract : ℕ) × (common.callee ≡ some method)
          × (common.contract ≡ some contract)
          × ((function : Function) × (t : GoType) × (get_elem? b.satisfiers i
                ≡ some (some function))
              × (same_text function.name method.name ≡ true)
              × (function.receiver ≡ some t)
              × (implements t contract ≡ true)))

  abbrev pub IsSatisfier : Protocol → Binding → CallCommon → ℕ → Type 0
  IsSatisfier p b common i =
      IsNamed p common i
      ⊎ (IsValueCall p b common i ⊎ (IsKept p common i ⊎ IsDispatched b common i))

  -- None is found where the call is no satisfier, and one that it is otherwise, which has a slot.
  abbrev pub Finds : Protocol → Binding → CallCommon → Option ℕ → Type 0
  Finds p b common none = (i : ℕ) → ¬ IsSatisfier p b common i
  Finds p b common (some i) =
      IsSatisfier p b common i × ((slot : Slot) × (get_elem? b.satisfier_slots i ≡ some slot))

  satisfied_by-some :
      (p : Protocol) (common : CallCommon) (i : ℕ)
      → satisfied_by p common ≡ some i
      → IsNamed p common i
  unfolding satisfied_by
  satisfied_by-some p common i h = elim (Option-cases common.callee) [
    | inl e ↦ absurd (ground (arith, rw e at h))
    | inr (function, e) ↦ (function, e, named-some p function i (rw e at h))
  ]

  satisfied_by-none :
      (p : Protocol) (common : CallCommon) (i : ℕ)
      → satisfied_by p common ≡ none
      → IsNamed p common i
      → ⊥
  unfolding satisfied_by
  satisfied_by-none p common i h (function, e, passes) = named-none p function i (rw e at h) passes

  first_called :
      (p : Protocol) (i : ℕ)
      → called_from 0 p.satisfiers ≡ some i
      → Passes (λ (side : Side). side.called) p.satisfiers i
  first_called p i h =
      let (k, at, passes) =
        first_from-some (λ (side : Side). side.called) 0 p.satisfiers i
          (sym (called_from-first 0 p.satisfiers) ∙ h) in
      let same : k ≡ i = ground (arith, at) in
      subst (Passes (λ (side : Side). side.called) p.satisfiers) same passes

  called_by-some :
      (p : Protocol) (b : Binding) (common : CallCommon) (i : ℕ)
      → called_by go implements kept_methods p b common ≡ some i
      → IsValueCall p b common i
  unfolding called_by
  called_by-some p b common i h = elim (Bool-cases (common.invoke || common.static)) [
    | inl on ↦ absurd (ground (arith, rw on at h))
    | inr off ↦ elim (Option-cases b.value_type) [
      | inl e ↦ absurd (ground (arith, rw (off, e) at h))
      | inr (t, e) ↦ elim (Bool-cases (go.identical common.value_type t)) [
        | inl same ↦ (
          (ground (arith, off), ground (arith, off)),
          (t, e, same),
          first_called p i (rw (off, e, same) at h),
        )
        | inr apart ↦ absurd (ground (arith, rw (off, e, apart) at h))
      ]
    ]
  ]

  called_by-none :
      (p : Protocol) (b : Binding) (common : CallCommon) (i : ℕ)
      → called_by go implements kept_methods p b common ≡ none
      → IsValueCall p b common i
      → ⊥
  unfolding called_by
  called_by-none p b common i h ((invoke, static), (t, e, same), passes) =
      first_from-none (λ (side : Side). side.called) 0 p.satisfiers i
        (sym (called_from-first 0 p.satisfiers) ∙ (rw (invoke, static, e, same) at h)) passes

  kept_satisfier-some :
      (p : Protocol) (common : CallCommon) (i : ℕ)
      → kept_satisfier go implements kept_methods p common ≡ some i
      → IsKept p common i
  unfolding kept_satisfier
  kept_satisfier-some p common i h = elim (Bool-cases (common.invoke || common.static)) [
    | inl on ↦ absurd (ground (arith, rw on at h))
    | inr off ↦
        let (function, m, e) =
          kept_method_from-some p (kept_methods common.value) i (rw off at h) in
        ((ground (arith, off), ground (arith, off)), (function, m, named-some p function i e))
  ]

  kept_satisfier-none :
      (p : Protocol) (common : CallCommon) (i : ℕ)
      → kept_satisfier go implements kept_methods p common ≡ none
      → IsKept p common i
      → ⊥
  unfolding kept_satisfier
  kept_satisfier-none p common i h ((invoke, static), (function, m, passes)) =
      named-none p function i
        (kept_method_from-none p (kept_methods common.value) function (rw (invoke, static) at h) m)
        passes

  dispatched_from-first :
      (method : Text) (contract index : ℕ) (satisfiers : List (Option Function))
      → dispatched_from go implements kept_methods method contract index satisfiers
        ≡ first_from (dispatches_to go implements kept_methods method contract) index satisfiers
  unfolding dispatched_from
  dispatched_from-first method contract index [] = refl
  dispatched_from-first method contract index (satisfier ∷ satisfiers) =
      ap
        (λ (o : Option ℕ).
          if dispatches_to go implements kept_methods method contract satisfier
          then some index
          else o)
        (dispatched_from-first method contract (suc index) satisfiers)

  abbrev Receives : Text → ℕ → Option Function → Type 0
  Receives method contract satisfier =
      (function : Function) × (t : GoType) × (satisfier ≡ some function)
      × (same_text function.name method ≡ true)
      × (function.receiver ≡ some t)
      × (implements t contract ≡ true)

  dispatches_to-Receives :
      (method : Text) (contract : ℕ) (satisfier : Option Function)
      → dispatches_to go implements kept_methods method contract satisfier ≡ true
      → Receives method contract satisfier
  unfolding dispatches_to
  dispatches_to-Receives method contract none h = absurd (ground (arith, h))
  dispatches_to-Receives method contract (some function) h = elim (Option-cases function.receiver) [
    | inl e ↦ absurd (ground (arith, rw e at h))
    | inr (t, e) ↦
        let both : (same_text function.name method && implements t contract) ≡ true = rw e at h in
        (function, t, refl, ground (arith, both), e, ground (arith, both))
  ]

  Receives-dispatches_to :
      (method : Text) (contract : ℕ) (satisfier : Option Function)
      → Receives method contract satisfier
      → dispatches_to go implements kept_methods method contract satisfier ≡ true
  unfolding dispatches_to
  Receives-dispatches_to method contract satisfier (function, t, e, named, receiver, on) =
      rw e (rw (named, receiver) on)

  dispatched-some :
      (b : Binding) (common : CallCommon) (i : ℕ)
      → common.invoke ≡ true
      → dispatched go implements kept_methods b common.callee common.contract ≡ some i
      → IsDispatched b common i
  dispatched-some b common i on h = elim (Option-cases common.callee) [
    | inl e ↦ absurd (ground (arith, rw e at h))
    | inr (method, e) ↦ elim (Option-cases common.contract) [
      | inl e' ↦ absurd (ground (arith, rw (e, e') at h))
      | inr (contract, e') ↦
          let test = dispatches_to go implements kept_methods method.name contract in
          let (k, at, (satisfier, there, passes)) =
            first_from-some test 0 b.satisfiers i (
              sym (dispatched_from-first method.name contract 0 b.satisfiers)
              ∙ (rw (e, e') at h)) in
          let same : k ≡ i = ground (arith, at) in
          let (function, t, f, named, receiver, received) =
            dispatches_to-Receives method.name contract satisfier passes in
          (
            on,
            (
              method,
              contract,
              e,
              e',
              (
                function,
                t,
                subst (λ (j : ℕ). get_elem? b.satisfiers j ≡ some satisfier) same there ∙ ap some f,
                named,
                receiver,
                received,
              ),
            ),
          )
    ]
  ]

  dispatched-none :
      (b : Binding) (common : CallCommon) (i : ℕ)
      → dispatched go implements kept_methods b common.callee common.contract ≡ none
      → IsDispatched b common i
      → ⊥
  dispatched-none b common i h
        (on, (method, contract, e, e', (function, t, there, named, receiver, received))) =
      let test = dispatches_to go implements kept_methods method.name contract in
      first_from-none test 0 b.satisfiers i
        (sym (dispatched_from-first method.name contract 0 b.satisfiers) ∙ (rw (e, e') at h))
        (
          some function,
          there,
          Receives-dispatches_to method.name contract (some function)
              (function, t, refl, named, receiver, received),
        )

  satisfier_of-some :
      (p : Protocol) (b : Binding) (common : CallCommon) (i : ℕ)
      → satisfier_of go implements kept_methods p b common ≡ some i
      → IsSatisfier p b common i
  unfolding satisfier_of
  satisfier_of-some p b common i h = elim (or_else-some (satisfied_by p common) _ h) [
    | inl named ↦ inl (satisfied_by-some p common i named)
    | inr h1 ↦ elim (or_else-some (called_by go implements kept_methods p b common) _ h1) [
      | inl called ↦ inr (inl (called_by-some p b common i called))
      | inr h2 ↦ elim (or_else-some (kept_satisfier go implements kept_methods p common) _ h2) [
        | inl kept ↦ inr (inr (inl (kept_satisfier-some p common i kept)))
        | inr h3 ↦ elim (Bool-cases common.invoke) [
          | inl on ↦ inr (inr (inr (dispatched-some b common i on (rw on at h3))))
          | inr off ↦ absurd (ground (arith, rw off at h3))
        ]
      ]
    ]
  ]

  satisfier_of-none :
      (p : Protocol) (b : Binding) (common : CallCommon) (i : ℕ)
      → satisfier_of go implements kept_methods p b common ≡ none
      → ¬ IsSatisfier p b common i
  unfolding satisfier_of
  satisfier_of-none p b common i h found =
      let (h0, h1) = or_else-none (satisfied_by p common) _ h in
      let (called, h2) = or_else-none (called_by go implements kept_methods p b common) _ h1 in
      let (kept, last) = or_else-none (kept_satisfier go implements kept_methods p common) _ h2 in
      elim found [
        | inl named ↦ satisfied_by-none p common i h0 named
        | inr (inl value_call) ↦ called_by-none p b common i called value_call
        | inr (inr (inl read_back)) ↦ kept_satisfier-none p common i kept read_back
        | inr (inr (inr sent)) ↦ dispatched-none b common i (rw sent.0 at last) sent
      ]

  IsSatisfier-slot :
      (visible : Visible) (p : Protocol) (strict : Bool) {b : Binding} (common : CallCommon) (i : ℕ)
      → resolve go visible p strict ≡ inr b
      → IsSatisfier p b common i
      → (slot : Slot) × (get_elem? b.satisfier_slots i ≡ some slot)
  IsSatisfier-slot visible p strict {b} common i h found =
      let (slots, functions) = resolve-lengths go visible p strict h in
      elim found [
        | inl (function, e, (side, at, on)) ↦
            get_elem?-beside p.satisfiers b.satisfier_slots i (sym slots) at
        | inr (inl (dynamic, typed, (side, at, on))) ↦
            get_elem?-beside p.satisfiers b.satisfier_slots i (sym slots) at
        | inr (inr (inl (dynamic, (function, m, (side, at, on))))) ↦
            get_elem?-beside p.satisfiers b.satisfier_slots i (sym slots) at
        | inr (inr (inr (on, (method, contract, e, e', (function, t, at, named, receiver, on'))))) ↦
            get_elem?-beside b.satisfiers b.satisfier_slots i (functions ∙ sym slots) at
      ]

-- For a protocol that resolves, `satisfierOf` finds no satisfier for a call only where the call is none at any
-- index, and otherwise finds an index at which it is one and the binding has a slot, be it the zero slot. A
-- call is the satisfier at an index where its function has that satisfier's name; where, called neither
-- statically nor through an interface, its value is of the value's type and the satisfier is a call of it,
-- or is a method value read back that has the satisfier's name; or where it calls a method of an interface
-- that the receiver of the satisfier's function implements, and that function has the method's name.
pub satisfier_of-Finds :
    (go : GoTypes) (implements : GoType → ℕ → Bool) (kept_methods : ℕ → List (Option Declared))
    (visible : Visible) (p : Protocol) (strict : Bool) {b : Binding} (common : CallCommon)
    → resolve go visible p strict ≡ inr b
    → Finds go implements kept_methods p b common
        (satisfier_of go implements kept_methods p b common)
satisfier_of-Finds go implements kept_methods visible p strict {b} common h =
    by_result (satisfier_of go implements kept_methods p b common) refl
  where
    by_result :
        (o : Option ℕ)
        → satisfier_of go implements kept_methods p b common ≡ o
        → Finds go implements kept_methods p b common o
    by_result none e = λ i. satisfier_of-none go implements kept_methods p b common i e
    by_result (some i) e =
        let found = satisfier_of-some go implements kept_methods p b common i e in
        (found, IsSatisfier-slot go implements kept_methods visible p strict common i h found)
