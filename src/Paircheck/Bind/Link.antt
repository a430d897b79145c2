-- ===== src/Paircheck/Bind/Link.antt =====
-- The type that links the trigger to the satisfiers and the slot that carries it (`linkingType` and `only`
-- of paircheck/bind.go).
use precept.Base.{
  false, not, List, [], ◌∷◌, ◌++◌, Option, ◌⊎◌, inl, inr, ◌≡◌, refl, if◌then◌else◌, Bool-cases,
  contains_func, keep,
}
use precept.Base.Members.{keep-true, keep-false}
use precept.Paircheck.Slot.{Slot}
use precept.Paircheck.Types.{GoTypes}
use precept.Paircheck.Candidates.{Candidate, links}
use precept.Paircheck.Bind.{
  BindError, ambiguous_slot, no_linking_type, Offer, find, contains_link, only, offered_by_all,
  no_link, linking_from, one_link, linking_type,
}

module _ (go : GoTypes) where
  -- The slot of the only candidate of a list.
  abbrev pub slot_of : List Candidate → BindError ⊎ Slot
  slot_of [] = inl (no_linking_type false)
  slot_of (found ∷ []) = inr found.slot
  slot_of (found ∷ other ∷ more) = inl ambiguous_slot

  slot_of-cons :
      (found : Candidate) (link : Candidate) (offered : List Candidate)
      → (if contains_link go offered link then inl ambiguous_slot else inr found.slot)
        ≡ slot_of (found ∷ keep (λ c. links go c link) offered)
  unfolding contains_link
  slot_of-cons found link [] = refl
  slot_of-cons found link (current ∷ offered) = elim (Bool-cases (links go current link)) [
    | inl e ↦ rw (keep-true (λ c. links go c link) current offered e, e) refl
    | inr e ↦
        rw (keep-false (λ c. links go c link) current offered e, e)
          (slot_of-cons found link offered)
  ]

  -- The slot that carries the value on one side is that of the only candidate there that links with the
  -- trigger's; where none links, and where more than one does, it is an error.
  pub only-eq :
      (offered : List Candidate) (link : Candidate)
      → only go offered link ≡ slot_of (keep (λ c. links go c link) offered)
  unfolding only find
  only-eq [] link = refl
  only-eq (current ∷ offered) link = elim (Bool-cases (links go current link)) [
    | inl e ↦
        rw (keep-true (λ c. links go c link) current offered e, e)
          (slot_of-cons current link offered)
    | inr e ↦ rw (keep-false (λ c. links go c link) current offered e, e) (only-eq offered link)
  ]

  module _ (opening : List Candidate) (closing : List (Option Offer)) where
    -- The link of the candidates that every satisfier offers: the first, where the others link with it.
    abbrev pub link_of : List Candidate → BindError ⊎ Candidate
    link_of [] = inl (no_link go opening closing)
    link_of (first ∷ others) =
        if contains_func others (λ other. not (links go first other))
        then inl ambiguous_slot
        else inr first

    many_links :
        (a b : Candidate) (linking offered : List Candidate)
        → one_link go opening closing (linking_from go closing (a ∷ b ∷ linking) offered)
          ≡ inl ambiguous_slot
    unfolding linking_from
    many_links a b linking [] = refl
    many_links a b linking (current ∷ offered) =
        elim (Bool-cases (contains_link go (a ∷ b ∷ linking) current)) [
          | inl e ↦ rw e (many_links a b linking offered)
          | inr e ↦ elim (Bool-cases (offered_by_all go closing current)) [
            | inl k ↦ rw (e, k) (many_links a b (linking ++ current ∷ []) offered)
            | inr k ↦ rw (e, k) (many_links a b linking offered)
          ]
        ]

    first_link :
        (first : Candidate) (offered : List Candidate)
        → one_link go opening closing (linking_from go closing (first ∷ []) offered)
          ≡ link_of (first ∷ keep (offered_by_all go closing) offered)
    unfolding linking_from contains_link
    first_link first [] = refl
    first_link first (current ∷ offered) = elim (Bool-cases (offered_by_all go closing current)) [
      | inl k ↦ elim (Bool-cases (links go first current)) [
        | inl e ↦
            rw (keep-true (offered_by_all go closing) current offered k, k, e)
              (first_link first offered)
        | inr e ↦
            rw (keep-true (offered_by_all go closing) current offered k, k, e)
              (many_links first current [] offered)
      ]
      | inr k ↦ elim (Bool-cases (links go first current)) [
        | inl e ↦
            rw (keep-false (offered_by_all go closing) current offered k, k, e)
              (first_link first offered)
        | inr e ↦
            rw (keep-false (offered_by_all go closing) current offered k, k, e)
              (first_link first offered)
      ]
    ]

    linking_from-eq :
        (offered : List Candidate)
        → one_link go opening closing (linking_from go closing [] offered)
          ≡ link_of (keep (offered_by_all go closing) offered)
    unfolding linking_from contains_link
    linking_from-eq [] = refl
    linking_from-eq (current ∷ offered) = elim (Bool-cases (offered_by_all go closing current)) [
      | inl k ↦
          rw (keep-true (offered_by_all go closing) current offered k, k)
            (first_link current offered)
      | inr k ↦
          rw (keep-false (offered_by_all go closing) current offered k, k) (linking_from-eq offered)
    ]

  -- The candidate of the trigger that links it to the satisfiers is the first that each satisfier in sight
  -- offers, where every other such candidate links with it; where one does not, and where there is no such
  -- candidate, it is an error.
  pub linking_type-eq :
      (opening : List Candidate) (closing : List (Option Offer))
      → linking_type go opening closing
        ≡ link_of opening closing (keep (offered_by_all go closing) opening)
  unfolding linking_type
  linking_type-eq opening closing = linking_from-eq opening closing opening
