-- ===== src/Defcheck/Normalize.antt =====
-- What `normalize` of defcheck/config.go makes of a list of kinds, for every list.
use Prim.Native.String.{String}
use precept.Base.{
  and_true, Bool, true, false, ◌&&◌, ◌||◌, List, [], ◌∷◌, ◌++◌, ◌↔◌, inr_inj, inl, inr, Bool-cases,
  if◌then◌else◌, keep, ◌≡◌, refl, sym, ◌∙◌, ap, arith,
}
use mathlib.Core.List.{append-nil, append_assoc}
use precept.Defcheck.Kinds.{
  is_empty, every, is_kind, unknown_kind, cut_dash, partition_from, partition, unmixed, applies,
  some_left, chosen_kinds, normalize,
}

-- The kinds written with no dash, those written after one, and whether each is one of `every`.
abbrev pub named_in : List String → List String
named_in [] = []
named_in (kind ∷ written) =
    if (cut_dash kind).1 then named_in written else (cut_dash kind).0 ∷ named_in written

abbrev pub left_out_of : List String → List String
left_out_of [] = []
left_out_of (kind ∷ written) =
    if (cut_dash kind).1 then (cut_dash kind).0 ∷ left_out_of written else left_out_of written

abbrev pub all_known : List String → Bool
all_known [] = true
all_known (kind ∷ written) = is_kind (cut_dash kind).0 && all_known written

partition_from-known :
    (written named left_out : List String)
    → all_known written ≡ true
    → partition_from named left_out written
      ≡ inr (named ++ named_in written, left_out ++ left_out_of written)
unfolding partition_from
partition_from-known [] named left_out h = rw (append-nil named, append-nil left_out) refl
partition_from-known (kind ∷ written) named left_out h =
    let (known, rest) = and_true (is_kind (cut_dash kind).0) (all_known written) h in
    elim (Bool-cases (cut_dash kind).1) [
      | inl dashed ↦
          rw (known, dashed, partition_from)
            (partition_from-known written named (left_out ++ (cut_dash kind).0 ∷ []) rest
              ∙ rw (append_assoc left_out ((cut_dash kind).0 ∷ []) (left_out_of written)) refl)
      | inr plain ↦
          rw (known, plain, partition_from)
            (partition_from-known written (named ++ (cut_dash kind).0 ∷ []) left_out rest
              ∙ rw (append_assoc named ((cut_dash kind).0 ∷ []) (named_in written)) refl)
    ]

partition_from-unknown :
    (written named left_out : List String)
    → all_known written ≡ false
    → (kind : String) × (partition_from named left_out written ≡ inl (unknown_kind kind))
unfolding partition_from
partition_from-unknown [] named left_out h = cc
partition_from-unknown (kind ∷ written) named left_out h =
    elim (Bool-cases (is_kind (cut_dash kind).0)) [
      | inl known ↦
          let rest : all_known written ≡ false = rw known at h in
          elim (Bool-cases (cut_dash kind).1) [
            | inl dashed ↦
                rw (known, dashed, partition_from)
                  (partition_from-unknown written named (left_out ++ (cut_dash kind).0 ∷ []) rest)
            | inr plain ↦
                rw (known, plain, partition_from)
                  (partition_from-unknown written (named ++ (cut_dash kind).0 ∷ []) left_out rest)
          ]
      | inr unknown ↦ (kind, rw (unknown, partition_from) refl)
    ]

-- What a list of kinds asks for: the kinds it names, or every kind but those it leaves out.
abbrev pub asked : List String → List String
asked written = keep (applies (named_in written) (left_out_of written)) every

-- The list is accepted: each kind is known, it does not both name kinds and leave kinds out, and it asks
-- for some kind.
pub record IsAccepted (written : List String) : Type 0 where
  pub known : all_known written ≡ true
  pub unmixed_lists : (is_empty (named_in written) || is_empty (left_out_of written)) ≡ true
  pub some_kind : is_empty (asked written) ≡ false

partition_accepts :
    (written : List String)
    → IsAccepted written
    → partition written ≡ inr (named_in written, left_out_of written)
unfolding partition
partition_accepts written a =
    rw (partition_from-known written [] [] a.known, partition)
      (unmixed_pair (named_in written) (left_out_of written) a.unmixed_lists)
  where
    unmixed_pair :
        (n l : List String) → (is_empty n || is_empty l) ≡ true → unmixed (inr (n, l)) ≡ inr (n, l)
    unmixed_pair [] l h = refl
    unmixed_pair (x ∷ n) [] h = refl
    unmixed_pair (x ∷ n) (y ∷ l) h = cc

-- An accepted list is normalized to what it asks for.
normalize_accepts :
    (written : List String) → IsAccepted written → normalize written ≡ inr (asked written)
unfolding normalize
normalize_accepts [] a = refl
normalize_accepts (kind ∷ written) a =
    rw (partition_accepts (kind ∷ written) a, normalize) (rw a.some_kind refl)

some_left-kinds : (asked kinds : List String) → some_left asked ≡ inr kinds → is_empty asked ≡ false
some_left-kinds [] kinds h = cc
some_left-kinds (k ∷ asked) kinds h = refl

chosen_accepted :
    (named left_out kinds : List String)
    → chosen_kinds (unmixed (inr (named, left_out))) ≡ inr kinds
    → ((is_empty named || is_empty left_out) ≡ true)
      × (is_empty (keep (applies named left_out) every) ≡ false)
chosen_accepted [] left_out kinds h =
    (refl, some_left-kinds (keep (applies [] left_out) every) kinds h)
chosen_accepted (n ∷ named) [] kinds h =
    (refl, some_left-kinds (keep (applies (n ∷ named) []) every) kinds h)
chosen_accepted (n ∷ named) (l ∷ left_out) kinds h = cc

-- A list that is not accepted is refused.
normalize_refuses :
    (written kinds : List String) → normalize written ≡ inr kinds → IsAccepted written
unfolding normalize
normalize_refuses [] kinds h = record { known = refl; unmixed_lists = refl; some_kind = refl }
normalize_refuses (kind ∷ written) kinds h = elim (Bool-cases (all_known (kind ∷ written))) [
  | inr unknown ↦
      let (k, e) = partition_from-unknown (kind ∷ written) [] [] unknown in
      absurd (ground (arith, rw (e, partition, normalize) at h))
  | inl known ↦
      let after =
        rw (partition_from-known (kind ∷ written) [] [] known, partition, normalize) at h in
      let (single, some_kind) =
        chosen_accepted (named_in (kind ∷ written)) (left_out_of (kind ∷ written)) kinds after in
      record { known = known; unmixed_lists = single; some_kind = some_kind }
]

-- `normalize` accepts a list exactly where each kind is known, the list does not both name kinds and
-- leave kinds out, and it asks for some kind; it gives the kinds asked for, each once, in the order of
-- `every`.
pub normalize_iff :
    (written kinds : List String)
    → (normalize written ≡ inr kinds) ↔ (IsAccepted written × (kinds ≡ asked written))
normalize_iff written kinds = (
  λ h.
      let a = normalize_refuses written kinds h in
      (a, inr_inj (sym h ∙ normalize_accepts written a)),
  λ (a, same). normalize_accepts written a ∙ ap inr (sym same),
)
