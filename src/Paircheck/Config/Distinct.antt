-- ===== src/Paircheck/Config/Distinct.antt =====
-- Ids claimed in turn, each not taken by then, are ids of which no two are one text (`claim` of
-- paircheck/config.go).
use precept.Base.{Bool, false, ◌||◌, List, [], ◌∷◌, ◌++◌, ◌≡◌, ◌↔◌, refl, All, arith}
use precept.Base.Texts.{Text, same_text}
use precept.Paircheck.Config.{is_taken}

-- No two have one text.
abbrev pub AreDistinct : List Text → Type 0
AreDistinct [] = Unit
AreDistinct (id ∷ ids) = All (λ other. same_text id other ≡ false) ids × AreDistinct ids

-- Each claim is of an id not taken by then, and what is taken after them.
abbrev pub Fresh : List Text → List Text → Type 0
Fresh taken [] = Unit
Fresh taken (id ∷ ids) = (is_taken taken id ≡ false) × Fresh (id ∷ taken) ids

abbrev pub claimed : List Text → List Text → List Text
claimed taken [] = taken
claimed taken (id ∷ ids) = claimed (id ∷ taken) ids

abbrev pub Free : List Text → List Text → Type 0
Free taken ids = All (λ id. is_taken taken id ≡ false) ids

or_eq_false : (a b : Bool) → (a || b) ≡ false → (a ≡ false) × (b ≡ false)
or_eq_false a b h = ground arith

or_eq_false_of : (a b : Bool) → a ≡ false → b ≡ false → (a || b) ≡ false
or_eq_false_of a b h k = ground arith

Free-cons :
    (id : Text) (taken ids : List Text)
    → Free (id ∷ taken) ids ↔ (All (λ other. same_text id other ≡ false) ids × Free taken ids)
unfolding is_taken
Free-cons id taken [] = (λ h. (tt, tt), λ h. tt)
Free-cons id taken (other ∷ ids) =
    let rest = Free-cons id taken ids in
    (
      λ h.
          let (apart, free) = rest.0 h.1 in
          let (now, later) = or_eq_false (same_text id other) (is_taken taken other) h.0 in
          ((now, apart), (later, free)),
      λ h. (
        or_eq_false_of (same_text id other) (is_taken taken other) h.0.0 h.1.0,
        rest.1 (h.0.1, h.1.1),
      ),
    )

pub Fresh-iff : (taken ids : List Text) → Fresh taken ids ↔ (AreDistinct ids × Free taken ids)
Fresh-iff taken [] = (λ h. (tt, tt), λ h. tt)
Fresh-iff taken (id ∷ ids) =
    let rest = Fresh-iff (id ∷ taken) ids in
    let parts = Free-cons id taken ids in
    (
      λ h.
          let (distinct, free) = rest.0 h.1 in
          let (apart, later) = parts.0 free in ((apart, distinct), (h.0, later)),
      λ h. (h.1.0, rest.1 (h.0.1, parts.1 (h.0.0, h.1.1))),
    )

pub Free-nil : (ids : List Text) → Free [] ids
unfolding is_taken
Free-nil [] = tt
Free-nil (id ∷ ids) = (refl, Free-nil ids)

pub Fresh-append :
    (taken xs ys : List Text)
    → Fresh taken (xs ++ ys) ↔ (Fresh taken xs × Fresh (claimed taken xs) ys)
Fresh-append taken [] ys = (λ h. (tt, h), λ h. h.1)
Fresh-append taken (x ∷ xs) ys =
    let rest = Fresh-append (x ∷ taken) xs ys in
    (λ h. ((h.0, (rest.0 h.1).0), (rest.0 h.1).1), λ h. (h.0.0, rest.1 (h.0.1, h.1)))
