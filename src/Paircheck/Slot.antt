-- ===== src/Paircheck/Slot.antt =====
-- The slots of a configuration (paircheck/slot.go), where a value sits in a call. strconv.Atoi is a
-- parameter: the number it reads, if it reads one that is not negative.
use precept.Base.{ℕ, [], ◌∷◌, Option, none, some, ◌⊎◌, inl, inr, ◌==◌, if◌then◌else◌}
use precept.Base.Texts.{Text, same_text}

pub data SlotKind : Type 0 where
  slot_none slot_receiver slot_argument slot_result slot_callee : SlotKind

pub record Slot : Type 0 where
  pub kind : SlotKind
  pub index : ℕ

-- The word before the first space, and what follows the space.
unfoldable pub cut_space : Text → Option (Text × Text)
cut_space [] = none
cut_space (c ∷ t) =
    if c == b' '
    then some ([], t)
    else elim (cut_space t) [ none ↦ none | some parts ↦ some (c ∷ parts.0, parts.1) ]

-- A text that is no slot.
pub data SlotError : Type 0 where
  invalid_slot : Text → SlotError

-- The words of a slot.
abbrev pub receiver_word : Text
receiver_word = b'r' ∷ b'e' ∷ b'c' ∷ b'e' ∷ b'i' ∷ b'v' ∷ b'e' ∷ b'r' ∷ []

abbrev pub argument_word : Text
argument_word = b'a' ∷ b'r' ∷ b'g' ∷ b'u' ∷ b'm' ∷ b'e' ∷ b'n' ∷ b't' ∷ []

abbrev pub result_word : Text
result_word = b'r' ∷ b'e' ∷ b's' ∷ b'u' ∷ b'l' ∷ b't' ∷ []

abbrev kind_named : Text → Option SlotKind
kind_named word =
    if same_text word argument_word
    then some slot_argument
    else if same_text word result_word
    then some slot_result
    else none

abbrev slot_of : Text → Option SlotKind → Option ℕ → SlotError ⊎ Slot
slot_of text (some kind) (some index) = inr (record { kind = kind; index = index })
slot_of text _ _ = inl (invalid_slot text)

module _ (atoi : Text → Option ℕ) where
  abbrev slot_parts : Text → Option (Text × Text) → SlotError ⊎ Slot
  slot_parts text none = inl (invalid_slot text)
  slot_parts text (some (word, number)) = slot_of text (kind_named word) (atoi number)

  unfoldable pub parse_slot : Text → SlotError ⊎ Slot
  unfolding same_text cut_space
  parse_slot [] = inr (record { kind = slot_none; index = 0 })
  parse_slot (c ∷ text) =
      if same_text (c ∷ text) receiver_word
      then inr (record { kind = slot_receiver; index = 0 })
      else slot_parts (c ∷ text) (cut_space (c ∷ text))
