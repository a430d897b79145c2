-- ===== src/Paircheck/Bind/Resolve.antt =====
-- What `resolve` and `bind` of paircheck/bind.go return for a protocol.
use precept.Base.{
  ℕ, suc, Bool, true, false, not, List, [], ◌∷◌, Option, none, some, ◌⊎◌, inl, inr, ◌≡◌, ◌↔◌, refl,
  sym, ◌∙◌, ap, arith, if◌then◌else◌, Bool-cases, Option-cases, contains_func, keep, inr_inj, subst,
}
use precept.Base.Results.{wrapped, >>=-eq_inr, wrapped-eq_inr, result_cases}
use precept.Paircheck.Protocol.{Side, Protocol}
use precept.Paircheck.Slot.{Slot}
use precept.Paircheck.Types.{GoTypes}
use precept.Paircheck.Candidates.{Candidate, Function, links}
use precept.Paircheck.Bind.{
  Visible, BindError, unknown_function, slot_not_in_signature, ambiguous_slot, no_linking_type,
  in_trigger, in_satisfier, Offer, Binding, offered_by_all, linking_type, only, settle_from,
  lookup_func, offered_by, closing_of, closing_side, closing_from, resolve, sees, sees_all, bind,
  zero_slot,
}
use precept.Paircheck.Bind.Link.{slot_of, only-eq, link_of, linking_type-eq}

module _ (go : GoTypes) (visible : Visible) where
  closing_of-strict :
      (index : ℕ) (empty : Bool) (offer : List Candidate × Function)
      → closing_of go visible true index (if empty then inl slot_not_in_signature else inr offer)
        ≡ closing_of go visible false index (if empty then inl slot_not_in_signature else inr offer)
  closing_of-strict index true offer = refl
  closing_of-strict index false offer = refl

  -- A satisfier in sight is never one that cannot be found.
  closing_side-strict :
      (index : ℕ) (side : Side)
      → sees go visible side ≡ true
      → closing_side go visible true index side ≡ closing_side go visible false index side
  unfolding closing_side sees offered_by
  closing_side-strict index side h = elim (Bool-cases side.called) [
    | inl e ↦ rw e refl
    | inr e ↦ elim (Option-cases (lookup_func go visible side.name)) [
      | inl unseen ↦ absurd (ground (arith, rw (e, unseen) at h))
      | inr (function, seen) ↦ rw (e, seen, offered_by) (closing_of-strict index _ (_, function))
    ]
  ]

  closing_from-strict :
      (index : ℕ) (sides : List Side)
      → contains_func sides (λ side. not (sees go visible side)) ≡ false
      → closing_from go visible true index sides ≡ closing_from go visible false index sides
  unfolding closing_from
  closing_from-strict index [] h = refl
  closing_from-strict index (side ∷ sides) h =
      rw
        (
          closing_side-strict index side (ground (arith, h)),
          closing_from-strict (suc index) sides (ground (arith, h)),
        )
        refl

  sees_all-parts :
      (current : Protocol)
      → sees_all go visible current ≡ true
      → contains_func current.satisfiers (λ side. not (sees go visible side)) ≡ false
  unfolding sees_all sees
  sees_all-parts current h = ground (arith, h)

  -- To a pass that sees every function that a protocol names, it resolves as it does to Validate.
  resolve-strict :
      (current : Protocol)
      → sees_all go visible current ≡ true
      → resolve go visible current true ≡ resolve go visible current false
  unfolding resolve
  resolve-strict current h =
      rw (closing_from-strict 0 current.satisfiers (sees_all-parts current h)) refl

  closing_side-lenient :
      (index : ℕ) (side : Side) {offer : Option Offer}
      → closing_side go visible true index side ≡ inr offer
      → closing_side go visible false index side ≡ inr offer
  unfolding closing_side
  closing_side-lenient index side {offer} h = elim (Bool-cases side.called) [
    | inl e ↦ rw e (rw e at h)
    | inr e ↦ rw e (by_offer (offered_by go visible side false) (rw e at h))
  ]
    where
      by_offer :
          (m : BindError ⊎ (List Candidate × Function))
          → closing_of go visible true index m ≡ inr offer
          → closing_of go visible false index m ≡ inr offer
      by_offer (inr found) e = e
      by_offer (inl unknown_function) e = cc
      by_offer (inl slot_not_in_signature) e = cc
      by_offer (inl ambiguous_slot) e = cc
      by_offer (inl (no_linking_type reason)) e = cc
      by_offer (inl (in_trigger wrong)) e = cc
      by_offer (inl (in_satisfier i wrong)) e = cc

  closing_from-lenient :
      (index : ℕ) (sides : List Side) {closing : List (Option Offer)}
      → closing_from go visible true index sides ≡ inr closing
      → closing_from go visible false index sides ≡ inr closing
  unfolding closing_from
  closing_from-lenient index [] h = h
  closing_from-lenient index (side ∷ sides) h =
      let (offer, now, h1) = >>=-eq_inr (closing_side go visible true index side) _ h in
      let (rest, later, last) = >>=-eq_inr (closing_from go visible true (suc index) sides) _ h1 in
      rw (closing_side-lenient index side now, closing_from-lenient (suc index) sides later) last

  resolve-lenient :
      (current : Protocol) {b : Binding}
      → resolve go visible current true ≡ inr b
      → resolve go visible current false ≡ inr b
  unfolding resolve
  resolve-lenient current h =
      let (opening, e, h1) =
        >>=-eq_inr (wrapped in_trigger (offered_by go visible current.trigger true)) _ h in
      let (closing, now, h2) =
        >>=-eq_inr (closing_from go visible true 0 current.satisfiers) _ h1 in
      rw (e, closing_from-lenient 0 current.satisfiers now) h2

-- `bind` fails on a protocol exactly where the pass sees every function that it names and Validate, from what
-- that pass sees, fails on it, with the same error.
pub bind-error :
    (go : GoTypes) (visible : Visible) (current : Protocol) (wrong : BindError)
    → (bind go visible current ≡ inl wrong)
      ↔ ((sees_all go visible current ≡ true) × (resolve go visible current true ≡ inl wrong))
unfolding bind
bind-error go visible current wrong = (there, back)
  where
    there :
        bind go visible current ≡ inl wrong
        → (sees_all go visible current ≡ true) × (resolve go visible current true ≡ inl wrong)
    there h = elim (result_cases (resolve go visible current false)) [
      | inl (found, e) ↦ elim (Bool-cases (sees_all go visible current)) [
        | inl all ↦
            let same : found ≡ wrong = ground (arith, rw (e, all, bind) at h) in
            (all, resolve-strict go visible current all ∙ e ∙ ap (λ (w : BindError). inl w) same)
        | inr some_unseen ↦ absurd (ground (arith, rw (e, some_unseen, bind) at h))
      ]
      | inr (b, e) ↦ absurd (ground (arith, rw (e, bind) at h))
    ]

    back :
        (sees_all go visible current ≡ true) × (resolve go visible current true ≡ inl wrong)
        → bind go visible current ≡ inl wrong
    back (all, e) = rw (sym (resolve-strict go visible current all) ∙ e, all, bind) refl

-- What Validate binds from what a pass sees, that pass binds alike.
pub bind-strict :
    (go : GoTypes) (visible : Visible) (current : Protocol) {b : Binding}
    → resolve go visible current true ≡ inr b
    → bind go visible current ≡ inr (some b)
unfolding bind
bind-strict go visible current h = rw (resolve-lenient go visible current h, bind) refl

-- Each satisfier in sight has the slot of its only candidate that links, and any other the zero slot.
abbrev pub AreSlots : GoTypes → Candidate → List (Option Offer) → List Slot → Type 0
AreSlots go link [] [] = Unit
AreSlots go link [] (slot ∷ slots) = ⊥
AreSlots go link (offer ∷ closing) [] = ⊥
AreSlots go link (none ∷ closing) (slot ∷ slots) =
    (slot ≡ zero_slot) × AreSlots go link closing slots
AreSlots go link (some offer ∷ closing) (slot ∷ slots) =
    (slot_of go (keep (λ c. links go c link) offer.offered) ≡ inr slot)
    × AreSlots go link closing slots

pub settle_from-AreSlots :
    (go : GoTypes) (link : Candidate) (index : ℕ) (closing : List (Option Offer))
    (slots : List Slot)
    → settle_from go link index closing ≡ inr slots
    → AreSlots go link closing slots
unfolding settle_from
settle_from-AreSlots go link index [] slots h = subst (AreSlots go link []) (inr_inj h) tt
settle_from-AreSlots go link index (none ∷ closing) slots h =
    let (rest, later, last) = >>=-eq_inr (settle_from go link (suc index) closing) _ h in
    subst (AreSlots go link (none ∷ closing)) (inr_inj last)
      (refl, settle_from-AreSlots go link (suc index) closing rest later)
settle_from-AreSlots go link index (some offer ∷ closing) slots h =
    let (slot, now, h1) =
      >>=-eq_inr (wrapped (in_satisfier index) (only go offer.offered link)) _ h in
    let found = wrapped-eq_inr (in_satisfier index) (only go offer.offered link) now in
    let (rest, later, last) = >>=-eq_inr (settle_from go link (suc index) closing) _ h1 in
    subst (AreSlots go link (some offer ∷ closing)) (inr_inj last) (
      sym (only-eq go offer.offered link) ∙ found,
      settle_from-AreSlots go link (suc index) closing rest later,
    )

-- A protocol that resolves has a link: the first candidate of the trigger that each satisfier in sight offers,
-- with which any other such candidate links. The value has its type, and each side's slot is that of the only
-- candidate there that links with it; a satisfier out of sight has the zero slot.
pub resolve-AreSlots :
    (go : GoTypes) (visible : Visible) (current : Protocol) (strict : Bool) {b : Binding}
    → resolve go visible current strict ≡ inr b
    → (opening : List Candidate) × (trigger : Function) × (closing : List (Option Offer))
      × (link : Candidate) × (offered_by go visible current.trigger true ≡ inr (opening, trigger))
      × (closing_from go visible strict 0 current.satisfiers ≡ inr closing)
      × (link_of go opening closing (keep (offered_by_all go closing) opening) ≡ inr link)
      × (b.value_type ≡ link.value_type)
      × (slot_of go (keep (λ c. links go c link) opening) ≡ inr b.trigger_slot)
      × AreSlots go link closing b.satisfier_slots
unfolding resolve
resolve-AreSlots go visible current strict {b} h =
    let (found, e, h1) =
      >>=-eq_inr (wrapped in_trigger (offered_by go visible current.trigger true)) _ h in
    let (closing, e1, h2) = >>=-eq_inr (closing_from go visible strict 0 current.satisfiers) _ h1 in
    let (link, e2, h3) = >>=-eq_inr (linking_type go found.0 closing) _ h2 in
    let (slot, e3, h4) = >>=-eq_inr (wrapped in_trigger (only go found.0 link)) _ h3 in
    let (slots, e4, h5) = >>=-eq_inr (settle_from go link 0 closing) _ h4 in
    (
      found.0,
      found.1,
      closing,
      link,
      wrapped-eq_inr in_trigger (offered_by go visible current.trigger true) e,
      e1,
      sym (linking_type-eq go found.0 closing) ∙ e2,
      sym (ap (λ (r : Binding). r.value_type) (inr_inj h5)),
      sym (only-eq go found.0 link)
          ∙ wrapped-eq_inr in_trigger (only go found.0 link) e3
          ∙ ap (λ (r : Binding). inr r.trigger_slot) (inr_inj h5),
      subst (λ (r : Binding). AreSlots go link closing r.satisfier_slots) (inr_inj h5)
          (settle_from-AreSlots go link 0 closing slots e4),
    )
