-- ===== src/Driver/Printed.antt =====
-- Where `printedAt` of internal/driver/vet.go prints a position, and what its copies of files keep.
use Prim.Native.String.{String}
use precept.Base.{
  ℕ, Bool, true, false, not, ◌==◌, ==_iff, List, ◌∷◌, Option, none, some, ◌⊎◌, inl, inr, Bool-cases,
  ◌≡◌, refl, sym, ◌∙◌, ap, arith, subst, some_inj, if◌then◌else◌,
}
use precept.Driver.Findings.{Position, Package, same_position, placed}
use precept.Driver.Reported.{same_position_refl, same_position-eq}
use precept.Driver.Vet.{FileSet, Printing, copy_of, in_copy, printed_at}

-- What go/token says of a file set: no position is of no file; adding a file changes nothing of the files
-- before it; and a file added with the lines of one, and no line directives, has its positions.
pub record IsFileSet {S : Type 0} (set : FileSet S) : Type 0 where
  pub no_position : (s t : S) → set.position s 0 ≡ set.compiled t 0
  pub keeps_file :
      (s : S) (file p : ℕ)
      → set.has_file s p ≡ true
      → (set.has_file (set.add_plain s file).0 p ≡ true)
        × (set.file (set.add_plain s file).0 p ≡ set.file s p)
        × (set.position (set.add_plain s file).0 p ≡ set.position s p)
        × (set.compiled (set.add_plain s file).0 p ≡ set.compiled s p)
  pub in_plain :
      (s : S) (p : ℕ)
      → set.has_file s p ≡ true
      → (set.has_file
            (set.add_plain s (set.file s p)).0
            (set.pos (set.add_plain s (set.file s p)).1 (set.offset (set.file s p) p))
          ≡ true)
        × (set.position
              (set.add_plain s (set.file s p)).0
              (set.pos (set.add_plain s (set.file s p)).1 (set.offset (set.file s p) p))
            ≡ set.compiled s p)

module _ {S : Type 0} (set : FileSet S) (laws : IsFileSet set) where
  -- A later state of the file set.
  pub record Extends (s t : S) : Type 0 where
    pub has_file : (p : ℕ) → set.has_file s p ≡ true → set.has_file t p ≡ true
    pub file : (p : ℕ) → set.has_file s p ≡ true → set.file t p ≡ set.file s p
    pub position : (p : ℕ) → set.has_file s p ≡ true → set.position t p ≡ set.position s p
    pub compiled : (p : ℕ) → set.has_file s p ≡ true → set.compiled t p ≡ set.compiled s p

  pub Extends-refl : (s : S) → Extends s s
  Extends-refl s = record {
    has_file = λ p h. h;
    file = λ p h. refl;
    position = λ p h. refl;
    compiled = λ p h. refl;
  }

  pub Extends-trans : {s t u : S} → Extends s t → Extends t u → Extends s u
  Extends-trans e e' = record {
    has_file = λ p h. e'.has_file p (e.has_file p h);
    file = λ p h. e'.file p (e.has_file p h) ∙ e.file p h;
    position = λ p h. e'.position p (e.has_file p h) ∙ e.position p h;
    compiled = λ p h. e'.compiled p (e.has_file p h) ∙ e.compiled p h;
  }

  Extends-add : (s : S) (file : ℕ) → Extends s (set.add_plain s file).0
  Extends-add s file = record {
    has_file = λ p h. (laws.keeps_file s file p h).0;
    file = λ p h. (laws.keeps_file s file p h).1;
    position = λ p h. (laws.keeps_file s file p h).2;
    compiled = λ p h. (laws.keeps_file s file p h).3;
  }

  -- No position, or one of a file.
  abbrev pub IsKnown : S → ℕ → Type 0
  IsKnown s p = (p ≡ 0) ⊎ (set.has_file s p ≡ true)

  abbrev pub IsPrinted : S → ℕ → Position → Type 0
  IsPrinted s p wanted = IsKnown s p × (set.position s p ≡ wanted)

  pub IsPrinted-later :
      {s t : S} (p : ℕ) {wanted : Position}
      → Extends s t
      → IsPrinted s p wanted
      → IsPrinted t p wanted
  IsPrinted-later {s} {t} p {wanted} e (inl zero', h) = (
    inl zero',
    subst (λ (q : ℕ). set.position s q ≡ wanted → set.position t q ≡ wanted) (sym zero')
        (λ k. laws.no_position t s ∙ sym (laws.no_position s s) ∙ k) h,
  )
  IsPrinted-later p e (inr known, h) = (inr (e.has_file p known), e.position p known ∙ h)

  -- Each copy has the positions of its file in the file set at first.
  abbrev pub AreCopies : S → S → List (ℕ × ℕ) → Type 0
  AreCopies s t copies =
      (file plain : ℕ)
      → copy_of set copies file ≡ some plain
      → (p : ℕ) → set.has_file s p ≡ true
      → set.file s p ≡ file
      → (set.has_file t (set.pos plain (set.offset file p)) ≡ true)
        × (set.position t (set.pos plain (set.offset file p)) ≡ set.compiled s p)

  pub record IsBegun (s : S) (p : Printing set) : Type 0 where
    pub extends : Extends s p.files
    pub copied : AreCopies s p.files p.copies

  -- The position in a copy just added.
  added-position :
      (s : S) (p : Printing set) (file position : ℕ)
      → Extends s p.files
      → set.has_file s position ≡ true
      → set.file s position ≡ file
      → (set.has_file
            (set.add_plain p.files file).0
            (set.pos (set.add_plain p.files file).1 (set.offset file position))
          ≡ true)
        × (set.position
              (set.add_plain p.files file).0
              (set.pos (set.add_plain p.files file).1 (set.offset file position))
            ≡ set.compiled s position)
  added-position s p file position e known same =
      subst
        (λ (f : ℕ).
          (set.has_file (set.add_plain p.files f).0
              (set.pos (set.add_plain p.files f).1 (set.offset f position))
            ≡ true)
          × (set.position (set.add_plain p.files f).0
                (set.pos (set.add_plain p.files f).1 (set.offset f position))
              ≡ set.compiled s position))
        (e.file position known ∙ same)
        (
          (laws.in_plain p.files position (e.has_file position known)).0,
          (laws.in_plain p.files position (e.has_file position known)).1
              ∙ e.compiled position known,
        )

  AreCopies-add :
      (s : S) (p : Printing set) (file : ℕ)
      → IsBegun s p
      → AreCopies s
          (set.add_plain p.files file).0
          ((file, (set.add_plain p.files file).1) ∷ p.copies)
  unfolding copy_of
  AreCopies-add s p file begun file' plain found at known same = elim (Bool-cases (file == file')) [
    | inl e ↦
        let key : file ≡ file' = (==_iff file file').0 e in
        let new : (set.add_plain p.files file).1 ≡ plain = some_inj (rw (e, copy_of) at found) in
        subst
          (λ (q : ℕ).
            (set.has_file (set.add_plain p.files file).0 (set.pos q (set.offset file' at)) ≡ true)
            × (set.position (set.add_plain p.files file).0 (set.pos q (set.offset file' at))
                ≡ set.compiled s at))
          new
          (subst
            (λ (f : ℕ).
              (set.has_file (set.add_plain p.files file).0
                  (set.pos (set.add_plain p.files file).1 (set.offset f at))
                ≡ true)
              × (set.position (set.add_plain p.files file).0
                    (set.pos (set.add_plain p.files file).1 (set.offset f at))
                  ≡ set.compiled s at))
            key (added-position s p file at begun.extends known (same ∙ sym key)))
    | inr e ↦
        let (has, old) = begun.copied file' plain (rw (e, copy_of) at found) at known same in
        let later = Extends-add p.files file in (later.has_file _ has, later.position _ has ∙ old)
  ]

  -- What printing a position leaves and prints.
  abbrev pub IsDone : S → Printing set → Position → Printing set × ℕ → Type 0
  IsDone s p wanted r = IsBegun s r.0 × Extends p.files r.0.files × IsPrinted r.0.files r.1 wanted

  in_copy-IsDone :
      (s : S) (p : Printing set) (position : ℕ) (file : ℕ) (o : Option ℕ)
      → IsBegun s p
      → set.has_file s position ≡ true
      → set.file s position ≡ file
      → copy_of set p.copies file ≡ o
      → IsDone s p (set.compiled s position) (in_copy set p file position o)
  in_copy-IsDone s p position file (some plain) begun known same e =
      let (has, at) = begun.copied file plain e position known same in
      (begun, Extends-refl p.files, (inr has, at))
  in_copy-IsDone s p position file none begun known same e =
      let (has, at) = added-position s p file position begun.extends known same in
      let later = Extends-add p.files file in
      (
        record {
          extends = Extends-trans begun.extends later;
          copied = AreCopies-add s p file begun;
        },
        later,
        (inr has, at),
      )

  abbrev pub IsPlacedAt : S → ℕ → Position → Type 0
  IsPlacedAt s position wanted =
      (wanted ≡ set.position s position) ⊎ (wanted ≡ set.compiled s position)

  printed_at-no_position :
      (s : S) (p : Printing set) (position : ℕ) (wanted : Position)
      → IsBegun s p
      → position ≡ 0
      → IsPlacedAt s position wanted
      → IsDone s p wanted (printed_at set p position wanted)
  unfolding printed_at
  printed_at-no_position s p position wanted begun none_at either =
      let h : (position == 0) ≡ true = ground (arith, none_at) in
      let at : set.position s position ≡ wanted = elim either [
        | inl e ↦ sym e
        | inr e ↦
            subst (λ (q : ℕ). wanted ≡ set.compiled s q → set.position s q ≡ wanted) (sym none_at)
              (λ k. laws.no_position s s ∙ sym k) e
      ] in
      rw h (begun, Extends-refl p.files, IsPrinted-later position begun.extends (inl none_at, at))

  printed_at-of_file :
      (s : S) (p : Printing set) (position : ℕ) (wanted : Position)
      → IsBegun s p
      → (position == 0) ≡ false
      → set.has_file s position ≡ true
      → IsPlacedAt s position wanted
      → IsDone s p wanted (printed_at set p position wanted)
  unfolding printed_at
  printed_at-of_file s p position wanted begun off known either =
      elim (Bool-cases (same_position (set.position p.files position) wanted)) [
        | inl on ↦
            rw (off, on)
              (
                begun,
                Extends-refl p.files,
                (
                  inr (begun.extends.has_file position known),
                  same_position-eq (set.position p.files position) wanted on,
                ),
              )
        | inr apart ↦
            rw (off, apart)
              (subst
                (λ (w : Position). IsDone s p w (
                  in_copy set p (set.file p.files position) position
                    (copy_of set p.copies (set.file p.files position))))
                (sym (elsewhere apart either))
                (in_copy-IsDone s p position (set.file p.files position)
                  (copy_of set p.copies (set.file p.files position)) begun known
                  (sym (begun.extends.file position known)) refl))
      ]
    where
      elsewhere :
          same_position (set.position p.files position) wanted ≡ false
          → IsPlacedAt s position wanted
          → wanted ≡ set.compiled s position
      elsewhere apart (inr e) = e
      elsewhere apart (inl e) = absurd (
          ground (
            arith,
            sym apart
                ∙ ap (same_position (set.position p.files position))
                    (e ∙ sym (begun.extends.position position known))
                ∙ same_position_refl (set.position p.files position),
          ))

  pub printed_at-IsDone :
      (s : S) (p : Printing set) (position : ℕ) (wanted : Position)
      → IsBegun s p
      → IsKnown s position
      → IsPlacedAt s position wanted
      → IsDone s p wanted (printed_at set p position wanted)
  printed_at-IsDone s p position wanted begun (inl none_at) either =
      printed_at-no_position s p position wanted begun none_at either
  printed_at-IsDone s p position wanted begun (inr known) either =
      elim (Bool-cases (position == 0)) [
        | inl on ↦
            printed_at-no_position s p position wanted begun ((==_iff position 0).0 on) either
        | inr off ↦ printed_at-of_file s p position wanted begun off known either
      ]

either_of :
    (b c : Bool) (x y : Position)
    → ((if b then y else if c then y else x) ≡ x) ⊎ ((if b then y else if c then y else x) ≡ y)
either_of true c x y = inr refl
either_of false true x y = inr refl
either_of false false x y = inl refl

-- A position is placed where it is mapped or where it was compiled.
pub placed-either :
    (is_go : String → Bool) (pkg : Package) (position : ℕ)
    → (placed is_go pkg position ≡ pkg.mapped position)
      ⊎ (placed is_go pkg position ≡ pkg.compiled position)
unfolding placed
placed-either is_go pkg position =
    either_of (not (is_go (pkg.mapped position).filename)) _ (pkg.mapped position)
      (pkg.compiled position)
