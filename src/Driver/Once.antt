-- ===== src/Driver/Once.antt =====
-- What the loops of internal/driver/generated.go, nolint.go and exclusions.go keep, over the files
-- themselves: what they keep of a file they have read changes nothing.
use Prim.Native.String.{String}
use text.Mathlib.TextEquality.{eq_iff}
use text.Mathlib.Text.{◌==◌ as str_eq}
use precept.Base.{
  ℕ, suc, Bool, true, false, not, List, [], ◌∷◌, Option, none, some, ◌⊎◌, inl, inr, inr_inj,
  some_inj, Bool-cases, Option-cases, contains_func, keep, ◌≡◌, ◌≢◌, refl, sym, ◌∙◌, ap, arith,
  subst,
}
use precept.Driver.Findings.{Finding}
use precept.Driver.Exclusions.{
  Exclusion, Exclusions, Outside, Warning, matches, first_match, Unmatched, matched_at,
  unmatched_findings, unmatched,
}
use precept.Driver.Filter.{
  Generated, strict, lax, disable, Silence, known_of, Files, consed, kept_from, generated_kept,
  silenced_by, unless, unsilenced_from, unsilenced,
}

-- An entry of a map is the newest one, or one it held before.
known_of-cons {ℓ} :
    {A : Type ℓ} (key path : String) (value a : A) (known : List (String × A))
    → known_of ((key, value) ∷ known) path ≡ some a
    → ((key ≡ path) × (value ≡ a)) ⊎ (known_of known path ≡ some a)
unfolding known_of
known_of-cons key path value a known h = elim (Bool-cases (str_eq key path)) [
  | inl e ↦ inl ((eq_iff key path).0 e, some_inj (rw (e, known_of) at h))
  | inr e ↦ inr (rw (e, known_of) at h)
]

module _ (files : Files) where
  -- Whether a file is generated, as far as it can be parsed.
  abbrev pub is_generated : Option Bool → Bool
  is_generated none = false
  is_generated (some drop) = drop

  abbrev pub not_generated : Generated → Finding → Bool
  not_generated g f = not (is_generated (files.generated g f.position.filename))

  abbrev Agrees : Generated → List (String × Bool) → Type 0
  Agrees g known =
      (path : String) (drop : Bool)
      → known_of known path ≡ some drop
      → files.generated g path ≡ some drop

  Agrees-cons :
      (g : Generated) (known : List (String × Bool)) (key : String) (value : Bool)
      → files.generated g key ≡ some value
      → Agrees g known
      → Agrees g ((key, value) ∷ known)
  Agrees-cons g known key value e agrees path drop h =
      elim (known_of-cons key path value drop known h) [
        | inl (same, same') ↦
            subst (λ (p : String). files.generated g p ≡ some drop) same (e ∙ ap some same')
        | inr old ↦ agrees path drop old
      ]

  consed-keep :
      (g : Generated) (current : Finding) (found : List Finding) (drop : Bool)
      (rest : String ⊎ List Finding) (kept : List Finding)
      → files.generated g current.position.filename ≡ some drop
      → ((k : List Finding) → rest ≡ inr k → k ≡ keep (not_generated g) found)
      → consed files drop current rest ≡ inr kept
      → kept ≡ keep (not_generated g) (current ∷ found)
  consed-keep g current found drop (inl path) kept e ih h = cc
  consed-keep g current found true (inr rest) kept e ih h =
      rw (e, keep) (sym (inr_inj h) ∙ ih rest refl)
  consed-keep g current found false (inr rest) kept e ih h =
      rw (e, keep) (sym (inr_inj h) ∙ ap (λ k. current ∷ k) (ih rest refl))

  kept_from-keep :
      (g : Generated) (known : List (String × Bool)) (found kept : List Finding)
      → Agrees g known
      → kept_from files g known found ≡ inr kept
      → kept ≡ keep (not_generated g) found
  unfolding kept_from
  kept_from-keep g known [] kept agrees h = sym (inr_inj h)
  kept_from-keep g known (current ∷ found) kept agrees h =
      elim (Option-cases (known_of known current.position.filename)) [
        | inr (drop, e) ↦
            consed-keep g current found drop (kept_from files g known found) kept (agrees _ drop e)
              (λ k. kept_from-keep g known found k agrees) (rw (e, kept_from) at h)
        | inl e ↦ elim (Option-cases (files.generated g current.position.filename)) [
          | inl e' ↦ absurd (ground (arith, rw (e, e', kept_from) at h))
          | inr (drop, e') ↦
              consed-keep g current found drop
                (kept_from files g ((current.position.filename, drop) ∷ known) found) kept e'
                (λ k.
                  kept_from-keep g ((current.position.filename, drop) ∷ known) found k
                    (Agrees-cons g known _ drop e' agrees))
                (rw (e, e', kept_from) at h)
        ]
      ]

  -- Where `kept` of a mode that is not disable returns findings, they are those of the given findings, in
  -- their order, whose file is not generated in the mode.
  pub generated_kept-keep :
      (g : Generated) (found kept : List Finding)
      → g ≢ disable
      → generated_kept files g found ≡ inr kept
      → kept ≡ keep (not_generated g) found
  unfolding generated_kept known_of
  generated_kept-keep strict found kept on h = kept_from-keep strict [] found kept (λ p d e. cc) h
  generated_kept-keep lax found kept on h = kept_from-keep lax [] found kept (λ p d e. cc) h
  generated_kept-keep disable found kept on h = absurd (on refl)

  abbrev pub not_silenced : String → Finding → Bool
  not_silenced linter f = not (silenced_by files (files.silences f.position.filename) f linter)

  abbrev AreSilences : List (String × List Silence) → Type 0
  AreSilences known =
      (path : String) (s : List Silence) → known_of known path ≡ some s → files.silences path ≡ s

  unless-keep :
      (p : Finding → Bool) (current : Finding) (found kept : List Finding) (drop : Bool)
      → p current ≡ not drop
      → kept ≡ keep p found
      → unless files drop current kept ≡ keep p (current ∷ found)
  unless-keep p current found kept true e ih = rw (e, keep) ih
  unless-keep p current found kept false e ih = rw (e, keep) (ap (λ k. current ∷ k) ih)

  unsilenced_from-keep :
      (known : List (String × List Silence)) (found : List Finding) (linter : String)
      → AreSilences known
      → unsilenced_from files known found linter ≡ keep (not_silenced linter) found
  unfolding unsilenced_from
  unsilenced_from-keep known [] linter agrees = refl
  unsilenced_from-keep known (current ∷ found) linter agrees =
      elim (Option-cases (known_of known current.position.filename)) [
        | inr (s, e) ↦
            rw (e, unsilenced_from)
              (unless-keep (not_silenced linter) current found _
                (silenced_by files s current linter)
                (ap (λ (x : List Silence). not (silenced_by files x current linter))
                  (agrees current.position.filename s e))
                (unsilenced_from-keep known found linter agrees))
        | inl e ↦
            rw (e, unsilenced_from)
              (unless-keep (not_silenced linter) current found _
                (silenced_by files (files.silences current.position.filename) current linter) refl
                (unsilenced_from-keep
                  ((current.position.filename, files.silences current.position.filename) ∷ known)
                  found linter (AreSilences-cons known current.position.filename agrees)))
      ]
    where
      AreSilences-cons :
          (known : List (String × List Silence)) (key : String)
          → AreSilences known
          → AreSilences ((key, files.silences key) ∷ known)
      AreSilences-cons known key agrees path s h =
          elim (known_of-cons key path (files.silences key) s known h) [
            | inl (same, same') ↦ subst (λ (p : String). files.silences p ≡ s) same same'
            | inr old ↦ agrees path s old
          ]

  -- `unsilenced` keeps the findings, in their order, that no //nolint directive of their file silences.
  pub unsilenced-keep :
      (found : List Finding) (linter : String)
      → unsilenced files found linter ≡ keep (not_silenced linter) found
  unfolding unsilenced known_of
  unsilenced-keep found linter = unsilenced_from-keep [] found linter (λ p s e. cc)

module _ (outside : Outside) where
  -- No rule matches the finding.
  abbrev pub unruled : List Exclusion → String → Finding → Bool
  unruled rules linter f = not (contains_func rules (λ rule. (matches outside rule f linter).0))

  first_match-none :
      (rules : List Exclusion) (f : Finding) (linter : String) (index : ℕ)
      → ((first_match outside rules f linter index).0 ≡ none) × (unruled rules linter f ≡ true)
        ⊎ ((k : ℕ) × ((first_match outside rules f linter index).0 ≡ some k)
            × (unruled rules linter f ≡ false))
  unfolding first_match
  first_match-none [] f linter index = inl (refl, refl)
  first_match-none (rule ∷ rules) f linter index =
      elim (Bool-cases (matches outside rule f linter).0) [
        | inl on ↦ inr (index, rw (on, first_match) refl, rw on refl)
        | inr off ↦ elim (first_match-none rules f linter (suc index)) [
          | inl (e, e') ↦ inl (rw (off, first_match) e, rw off e')
          | inr (k, e, e') ↦ inr (k, rw (off, first_match) e, rw off e')
        ]
      ]

  matched_at-kept :
      (current : Finding) (r : Option ℕ × List Warning) (rest : Unmatched)
      → ((r.0 ≡ none) → (matched_at outside current r rest).kept ≡ current ∷ rest.kept)
        × ((k : ℕ) → r.0 ≡ some k → (matched_at outside current r rest).kept ≡ rest.kept)
  matched_at-kept current (none, warned) rest = (λ e. refl, λ k e. cc)
  matched_at-kept current (some index, warned) rest = (λ e. cc, λ k e. refl)

  unmatched_findings-keep :
      (rules : List Exclusion) (found : List Finding) (linter : String)
      → (unmatched_findings outside rules found linter).kept ≡ keep (unruled rules linter) found
  unfolding unmatched_findings
  unmatched_findings-keep rules [] linter = refl
  unmatched_findings-keep rules (current ∷ found) linter =
      let r = first_match outside rules current linter 0 in
      let rest = unmatched_findings outside rules found linter in
      let ih = unmatched_findings-keep rules found linter in
      elim (first_match-none rules current linter 0) [
        | inl (e, e') ↦
            rw (e', keep) ((matched_at-kept current r rest).0 e ∙ ap (λ k. current ∷ k) ih)
        | inr (k, e, e') ↦ rw (e', keep) ((matched_at-kept current r rest).1 k e ∙ ih)
      ]

  -- `unmatched` keeps the findings, in their order, that no rule of linters.exclusions matches.
  pub unmatched-keep :
      (e : Exclusions) (found : List Finding) (linter : String)
      → (unmatched outside e found linter).0 ≡ keep (unruled e.rules linter) found
  unfolding unmatched
  unmatched-keep e found linter = unmatched_findings-keep e.rules found linter
