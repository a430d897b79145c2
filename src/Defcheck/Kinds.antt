-- ===== src/Defcheck/Kinds.antt =====
-- The kinds of declaration of defcheck/config.go, and how a rule's list of kinds is read. A kind is the
-- text that configures it.
use Prim.Native.Char.{code}
use Prim.Native.String.{String, [] as []ˢ, ◌∷◌ as ◌∷ˢ◌}
use text.Mathlib.Text.{◌==◌ as str_eq}
use precept.Base.{
  Bool, true, false, not, List, [], ◌∷◌, ◌++◌, ◌⊎◌, inl, inr, ◌==◌, if◌then◌else◌, contains_func,
  keep,
}

-- slices.Contains on texts
abbrev pub contains : List String → String → Bool
contains xs x = contains_func xs (λ y. str_eq y x)

abbrev pub is_empty {ℓ} : {A : Type ℓ} → List A → Bool
is_empty [] = true
is_empty (x ∷ xs) = false

abbrev pub every : List String
every =
    "function" ∷ "method" ∷ "package-var" ∷ "local-var" ∷ "constant" ∷ "field" ∷ "parameter"
    ∷ "receiver" ∷ "result" ∷ "type" ∷ "type-parameter" ∷ "label" ∷ []

-- `slices.Contains(every, Kind(name))`
unfoldable pub is_kind : String → Bool
is_kind name = contains every name

-- The errors of `normalize`, with the kinds their texts name.
pub data KindError : Type 0 where
  unknown_kind : String → KindError
  mixed_kinds : String → String → KindError
  no_kind_left : KindError

-- `strings.CutPrefix(kind, "-")`
unfoldable pub cut_dash : String → String × Bool
cut_dash []ˢ = ("", false)
cut_dash (c ∷ˢ rest) = if code c == b'-' then (rest, true) else (c ∷ˢ rest, false)

-- The loop of `partition`, with what it has named and left out.
unfoldable pub partition_from :
    List String → List String → List String → KindError ⊎ (List String × List String)
unfolding cut_dash is_kind
partition_from named left_out [] = inr (named, left_out)
partition_from named left_out (kind ∷ written) =
    let (name, is_left_out) = cut_dash kind in
    elim (is_kind name) [
      | false ↦ inl (unknown_kind kind)
      | true ↦ elim is_left_out [
        | true ↦ partition_from named (left_out ++ name ∷ []) written
        | false ↦ partition_from (named ++ name ∷ []) left_out written
      ]
    ]

abbrev pub unmixed :
    KindError ⊎ (List String × List String) → KindError ⊎ (List String × List String)
unmixed (inl wrong) = inl wrong
unmixed (inr (n ∷ named, l ∷ left_out)) = inl (mixed_kinds n l)
unmixed (inr (named, left_out)) = inr (named, left_out)

unfoldable pub partition : List String → KindError ⊎ (List String × List String)
unfolding partition_from
partition written = unmixed (partition_from [] [] written)

-- Whether `normalize` keeps a kind.
abbrev pub applies : List String → List String → String → Bool
applies named left_out kind =
    if not (is_empty named) then contains named kind else not (contains left_out kind)

abbrev pub some_left : List String → KindError ⊎ List String
some_left kinds = if is_empty kinds then inl no_kind_left else inr kinds

abbrev pub chosen_kinds : KindError ⊎ (List String × List String) → KindError ⊎ List String
chosen_kinds (inl wrong) = inl wrong
chosen_kinds (inr (named, left_out)) = some_left (keep (applies named left_out) every)

unfoldable pub normalize : List String → KindError ⊎ List String
unfolding partition
normalize [] = inr every
normalize (kind ∷ written) = chosen_kinds (partition (kind ∷ written))
