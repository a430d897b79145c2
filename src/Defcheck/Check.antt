-- ===== src/Defcheck/Check.antt =====
-- defcheck/defcheck.go: the diagnostics of a package's declarations, which are given in the order of the
-- source.
use Prim.Native.Char.{Char}
use Prim.Native.String.{String}
use precept.Base.{ℕ, Bool, ◌||◌, List, [], ◌∷◌, ◌++◌, map, Option, none, some, if◌then◌else◌, keep}
use precept.Defcheck.Kinds.{is_empty}
use precept.Defcheck.Objects.{Object, Interface, kind_of, imposed}
use precept.Defcheck.Rules.{Regexp, Prohibition, forbids}

pub record Declaration : Type 0 where
  pub name : String
  pub position : ℕ
  pub object : Object

-- A diagnostic: where it is, and the rule, name and kind its message is written from.
pub record Diagnostic : Type 0 where
  pub pos : ℕ
  pub rule : Prohibition
  pub name : String
  pub kind : String

module _ (is_lower : Char → Bool) (has_suffix : String → String → Bool) (regexp : Regexp) where
  abbrev pub diagnosed : Declaration → String → Prohibition → Diagnostic
  diagnosed current kind rule = record {
    pos = current.position;
    rule = rule;
    name = current.name;
    kind = kind;
  }

  abbrev pub reported : Bool → Declaration → String → List Prohibition → List Diagnostic
  reported is_imposed current kind forbidding =
      if is_empty forbidding || is_imposed then [] else map (diagnosed current kind) forbidding

  abbrev pub checked :
      List Prohibition → List Interface → Declaration → Option String → List Diagnostic
  checked prohibitions interfaces current none = []
  checked prohibitions interfaces current (some kind) =
      reported (imposed is_lower has_suffix interfaces current.object) current kind
        (keep (λ rule. forbids regexp rule current.name kind) prohibitions)

  -- The loop of `check` over the declarations.
  unfoldable pub check : List Prohibition → List Interface → List Declaration → List Diagnostic
  unfolding kind_of imposed forbids
  check prohibitions interfaces [] = []
  check prohibitions interfaces (current ∷ rest) =
      checked prohibitions interfaces current (kind_of current.object)
      ++ check prohibitions interfaces rest
