-- ===== src/Driver/Read.antt =====
-- What the readers of linters.exclusions (internal/driver/exclusions.go and config.go) accept.
use Prim.Native.String.{String}
use text.Mathlib.Text.{◌==◌ as str_eq}
use precept.Base.{
  false, List, [], ◌∷◌, map, Option, none, some, ◌⊎◌, inl, inr, inr_inj, Bool-cases, All, ◌≡◌, refl,
  ap, arith, subst,
}
use precept.Driver.Values.{
  Value, Entries, no_entries, entry_and, Texts, written_as, FoldError, with_entry, unless_taken,
  folded_from, folded_value, folded,
}

abbrev keys : Entries → List String
keys no_entries = []
keys (entry_and key value entries) = key ∷ keys entries

module _ (texts : Texts) where
  -- No key equals a later one.
  abbrev pub AreApart : List String → Type 0
  AreApart [] = Unit
  AreApart (k ∷ ks) = All (λ other. str_eq k other ≡ false) ks × AreApart ks

  abbrev Unwritten : List (String × String) → List String → Type 0
  Unwritten written ks = All (λ k. written_as texts written k ≡ none) ks

  Unwritten-cons :
      (lower key : String) (written : List (String × String)) (ks : List String)
      → Unwritten ((lower, key) ∷ written) ks
      → All (λ k. str_eq lower k ≡ false) ks × Unwritten written ks
  unfolding written_as
  Unwritten-cons lower key written [] h = (tt, tt)
  Unwritten-cons lower key written (k ∷ ks) (now, h) =
      let (aparts, others) = Unwritten-cons lower key written ks h in
      elim (Bool-cases (str_eq lower k)) [
        | inl e ↦ absurd (ground (arith, rw (e, written_as) at now))
        | inr e ↦ ((e, aparts), (rw (e, written_as) at now, others))
      ]

  -- The keys are folded one by one, and none to a key already written.
  abbrev AreFolded : List (String × String) → Entries → Entries → Type 0
  AreFolded written section result =
      (keys result ≡ map texts.to_lower (keys section))
      × AreApart (keys result)
      × Unwritten written (keys result)

  with_entry-AreFolded :
      (written : List (String × String)) (key : String) (value : Value) (section result : Entries)
      (taken : Option String) (first : FoldError texts ⊎ Value) (rest : FoldError texts ⊎ Entries)
      → written_as texts written (texts.to_lower key) ≡ taken
      → ((r : Entries) → rest ≡ inr r → AreFolded ((texts.to_lower key, key) ∷ written) section r)
      → unless_taken texts taken key (with_entry texts (texts.to_lower key) first rest) ≡ inr result
      → AreFolded written (entry_and key value section) result
  with_entry-AreFolded written key value section result (some other) first rest e ih h =
      absurd (ground (arith, h))
  with_entry-AreFolded written key value section result none (inl wrong) rest e ih h =
      absurd (ground (arith, h))
  with_entry-AreFolded written key value section result none (inr v) (inl wrong) e ih h =
      absurd (ground (arith, h))
  with_entry-AreFolded written key value section result none (inr v) (inr r) e ih h =
      let (same, apart, free) = ih r refl in
      let (aparts, others) = Unwritten-cons (texts.to_lower key) key written (keys r) free in
      subst (λ (x : Entries). AreFolded written (entry_and key value section) x) (inr_inj h)
        (ap (λ ks. texts.to_lower key ∷ ks) same, (aparts, apart), (e, others))

  folded_from-AreFolded :
      (written : List (String × String)) (section result : Entries)
      → folded_from texts written section ≡ inr result
      → AreFolded written section result
  unfolding folded_from
  folded_from-AreFolded written no_entries result h =
      subst (λ (x : Entries). AreFolded written no_entries x) (inr_inj h) (refl, tt, tt)
  folded_from-AreFolded written (entry_and key value section) result h =
      with_entry-AreFolded written key value section result
        (written_as texts written (texts.to_lower key)) (folded_value texts value)
        (folded_from texts ((texts.to_lower key, key) ∷ written) section) refl
        (λ r. folded_from-AreFolded ((texts.to_lower key, key) ∷ written) section r) h

  -- A section that `folded` accepts keeps its keys, each in lower case, and no two of them are then the
  -- same.
  pub folded-AreApart :
      (section result : Entries)
      → folded texts section ≡ inr result
      → (keys result ≡ map texts.to_lower (keys section)) × AreApart (keys result)
  unfolding folded
  folded-AreApart section result h =
      let (same, apart, free) = folded_from-AreFolded [] section result h in (same, apart)
