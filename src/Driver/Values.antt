-- ===== src/Driver/Values.antt =====
-- The values of a configuration and how they are read, weakly typed (internal/driver/config.go and
-- exclusions.go). strconv, strings.ToLower and strings.Split are parameters.
use Prim.Native.String.{String}
use text.Mathlib.Text.{◌==◌ as str_eq}
use precept.Base.{
  Bool, true, false, not, List, [], ◌∷◌, Option, none, some, ◌⊎◌, inl, inr, if◌then◌else◌,
}

-- A decoded value. A number is the text strconv formats it as, and whether it is zero; `other_value` is
-- of a type that no reader names. A map has its entries in the order of its keys.
mutual
  pub data Value : Type 0 where
    null other_value : Value
    text_value : String → Value
    truth : Bool → Value
    number : String → Bool → Value
    list_value : Values → Value
    map_value : Entries → Value

  pub data Values : Type 0 where
    no_values : Values
    value_and : Value → Values → Values

  pub data Entries : Type 0 where
    no_entries : Entries
    entry_and : String → Value → Entries → Entries

pub record Texts : Type 0 where
  pub parse_bool : String → Option Bool
  pub to_lower : String → String
  pub split_commas : String → List String

-- A lookup in a map; a key left out reads as nil.
unfoldable pub at_key : Entries → String → Value
at_key no_entries key = null
at_key (entry_and k value entries) key = if str_eq k key then value else at_key entries key

-- `section, _ := value.(map[string]any)`
abbrev pub section_of : Value → Entries
section_of (map_value entries) = entries
section_of _ = no_entries

abbrev pub is_no_entries : Entries → Bool
is_no_entries no_entries = true
is_no_entries _ = false

unfoldable pub read_text : Value → Option String
read_text (text_value s) = some s
read_text (truth b) = some (if b then "1" else "0")
read_text (number formatted zero) = some formatted
read_text _ = none

-- An element of a list of texts: an empty one is the empty text.
abbrev pub element_text : Value → Option String
element_text null = some ""
element_text value = read_text value

abbrev pub cons_text : Option String → Option (List String) → Option (List String)
cons_text none texts = none
cons_text (some s) none = none
cons_text (some s) (some texts) = some (s ∷ texts)

abbrev pub texts_of : Values → Option (List String)
texts_of no_values = some []
texts_of (value_and value values) = cons_text (element_text value) (texts_of values)

abbrev pub single : Option String → Option (List String)
single none = none
single (some s) = some (s ∷ [])

abbrev pub no_texts : Bool → Option (List String)
no_texts empty = if empty then some [] else none

unfoldable pub tags_of : Value → Option (List String)
unfolding read_text
tags_of null = some []
tags_of (map_value entries) = no_texts (is_no_entries entries)
tags_of (list_value values) = texts_of values
tags_of value = single (read_text value)

module _ (texts : Texts) where
  unfoldable pub list_of : Value → Option (List String)
  unfolding read_text
  list_of null = some []
  list_of (text_value s) = some (if str_eq s "" then [] else texts.split_commas s)
  list_of (map_value entries) = no_texts (is_no_entries entries)
  list_of (list_value values) = texts_of values
  list_of value = single (read_text value)

  -- A Boolean, with what a key left empty reads as.
  abbrev pub truth_of : Bool → Value → Option Bool
  truth_of empty null = some empty
  truth_of empty (truth b) = some b
  truth_of empty (number formatted zero) = some (not zero)
  truth_of empty (text_value s) = if str_eq s "" then some false else texts.parse_bool s
  truth_of empty _ = none

  unfoldable pub warn_unused_of : Value → Option Bool
  warn_unused_of value = truth_of false value

  unfoldable pub tests_of : Value → Option Bool
  tests_of value = truth_of true value

  -- The two keys that fold alike.
  abbrev pub FoldError : Type 0
  FoldError = String × String

  -- A lookup in `written`: the key that was folded to a text.
  unfoldable pub written_as : List (String × String) → String → Option String
  written_as [] lower = none
  written_as ((folded, key) ∷ written) lower =
      if str_eq folded lower then some key else written_as written lower

  abbrev pub mapped : FoldError ⊎ Entries → FoldError ⊎ Value
  mapped (inl wrong) = inl wrong
  mapped (inr entries) = inr (map_value entries)

  abbrev pub with_entry : String → FoldError ⊎ Value → FoldError ⊎ Entries → FoldError ⊎ Entries
  with_entry lower (inl wrong) rest = inl wrong
  with_entry lower (inr value) (inl wrong) = inl wrong
  with_entry lower (inr value) (inr entries) = inr (entry_and lower value entries)

  abbrev pub unless_taken : Option String → String → FoldError ⊎ Entries → FoldError ⊎ Entries
  unless_taken (some other) key result = inl (other, key)
  unless_taken none key result = result

  -- The loop of `folded`, with the keys it has folded, and `folded` of the values that are maps.
  unfoldable mutual
    pub folded_from : List (String × String) → Entries → FoldError ⊎ Entries
    folded_from written no_entries = inr no_entries
    folded_from written (entry_and key value entries) =
        let lower = texts.to_lower key in
        let rest = folded_from ((lower, key) ∷ written) entries in
        unless_taken (written_as written lower) key (with_entry lower (folded_value value) rest)

    pub folded_value : Value → FoldError ⊎ Value
    folded_value (map_value entries) = mapped (folded_from [] entries)
    folded_value value = inr value

  unfoldable pub folded : Entries → FoldError ⊎ Entries
  unfolding folded_from folded_value written_as
  folded section = folded_from [] section
