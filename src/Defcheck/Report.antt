-- ===== src/Defcheck/Report.antt =====
-- Which diagnostics `check` of defcheck/defcheck.go reports, for every package.
use Prim.Native.Char.{Char}
use Prim.Native.String.{String}
use precept.Base.{
  Bool, true, false, List, [], ◌∷◌, map, Memᴰ, Option, none, some, ◌↔◌, inl, inr, keep, some_inj,
  ◌≡◌, refl, sym, ◌∙◌, arith, subst,
}
use mathlib.Core.List.Memᴰ
use precept.Base.Members.{mem-of_keep, mem-keep}
use precept.Defcheck.Objects.{Interface, kind_of, imposed}
use precept.Defcheck.Rules.{Regexp, Prohibition, forbids}
use precept.Defcheck.Check.{Declaration, Diagnostic, diagnosed, reported, checked, check}

module _ (is_lower : Char → Bool) (has_suffix : String → String → Bool) (regexp : Regexp) where
  -- A rule forbids the declaration, whose name the code chose.
  pub record Breaks (prohibitions : List Prohibition) (interfaces : List Interface)
      (c : Declaration) (d : Diagnostic) : Type 0 where
    pub kind : kind_of c.object ≡ some d.kind
    pub rule : Memᴰ d.rule prohibitions
    pub forbidden : forbids regexp d.rule c.name d.kind ≡ true
    pub free : imposed is_lower has_suffix interfaces c.object ≡ false
    pub placed : d ≡ diagnosed is_lower has_suffix regexp c d.kind d.rule

  mem-reported :
      (off : Bool) (c : Declaration) (kind : String) (rules : List Prohibition) (d : Diagnostic)
      → Memᴰ d (reported is_lower has_suffix regexp off c kind rules) ↔ (
          (off ≡ false)
          × ((rule : Prohibition) × Memᴰ rule rules
              × (d ≡ diagnosed is_lower has_suffix regexp c kind rule)))
  mem-reported true c kind [] d = (λ m. absurd (Memᴰ.not-nil m), λ (e, r). cc)
  mem-reported true c kind (r ∷ rules) d = (λ m. absurd (Memᴰ.not-nil m), λ (e, r). cc)
  mem-reported false c kind [] d =
      (λ m. absurd (Memᴰ.not-nil m), λ (e, (rule, m, same)). absurd (Memᴰ.not-nil m))
  mem-reported false c kind (r ∷ rules) d = (
    λ m.
        let (rule, m', same) =
          Memᴰ.of_map (diagnosed is_lower has_suffix regexp c kind) (r ∷ rules) m in
        (refl, (rule, m', sym same)),
    λ (e, (rule, m, same)).
        subst
          (λ (x : Diagnostic).
            Memᴰ x (map (diagnosed is_lower has_suffix regexp c kind) (r ∷ rules)))
          (sym same) (Memᴰ.map (diagnosed is_lower has_suffix regexp c kind) m),
  )

  mem-checked :
      (prohibitions : List Prohibition) (interfaces : List Interface) (c : Declaration)
      (d : Diagnostic) (o : Option String)
      → kind_of c.object ≡ o
      → Memᴰ d (checked is_lower has_suffix regexp prohibitions interfaces c o)
        ↔ Breaks prohibitions interfaces c d
  mem-checked prohibitions interfaces c d none e =
      (λ m. absurd (Memᴰ.not-nil m), λ b. absurd (ground (arith, sym e ∙ b.kind)))
  mem-checked prohibitions interfaces c d (some kind) e =
      let rules = keep (λ rule. forbids regexp rule c.name kind) prohibitions in
      let off = imposed is_lower has_suffix interfaces c.object in
      (
        λ m.
            let (free, (rule, m', same)) = (mem-reported off c kind rules d).0 m in
            let (known, forbidden) =
              mem-of_keep (λ r. forbids regexp r c.name kind) prohibitions m' in
            subst (λ (x : Diagnostic). Breaks prohibitions interfaces c x) (sym same)
              (record {
                kind = e;
                rule = known;
                forbidden = forbidden;
                free = free;
                placed = refl;
              }),
        λ b.
            let same : d.kind ≡ kind = some_inj (sym b.kind ∙ e) in
            (mem-reported off c kind rules d).1 (
              b.free,
              (
                d.rule,
                mem-keep (λ r. forbids regexp r c.name kind) prohibitions b.rule
                    (subst (λ (k : String). forbids regexp d.rule c.name k ≡ true) same
                      b.forbidden),
                subst (λ (k : String). d ≡ diagnosed is_lower has_suffix regexp c k d.rule) same
                    b.placed,
              ),
            ),
      )

  -- A diagnostic is reported exactly where it is of a declaration of a kind, for a rule that forbids the
  -- declaration, whose name the code chose.
  pub mem-check_iff :
      (prohibitions : List Prohibition) (interfaces : List Interface)
      (declarations : List Declaration) (d : Diagnostic)
      → Memᴰ d (check is_lower has_suffix regexp prohibitions interfaces declarations)
        ↔ ((c : Declaration) × Memᴰ c declarations × Breaks prohibitions interfaces c d)
  unfolding check
  mem-check_iff prohibitions interfaces [] d =
      (λ m. absurd (Memᴰ.not-nil m), λ (c, m, b). absurd (Memᴰ.not-nil m))
  mem-check_iff prohibitions interfaces (c ∷ declarations) d =
      let here = mem-checked prohibitions interfaces c d (kind_of c.object) refl in
      let later = mem-check_iff prohibitions interfaces declarations d in
      let now = checked is_lower has_suffix regexp prohibitions interfaces c (kind_of c.object) in
      (
        λ m. elim (Memᴰ.append_cases now m) [
          | inl first ↦ (c, Memᴰ.head refl, here.0 first)
          | inr rest ↦ let (c', m', b) = later.0 rest in (c', Memᴰ.tail m', b)
        ],
        λ (c', m', b). elim (Memᴰ.cases_cons m') [
          | inl same ↦
              Memᴰ.append_left
                (check is_lower has_suffix regexp prohibitions interfaces declarations)
                (here.1 (subst (λ (x : Declaration). Breaks prohibitions interfaces x d) same b))
          | inr rest ↦ Memᴰ.append_right now (later.1 (c', rest, b))
        ],
      )
