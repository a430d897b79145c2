-- ===== src/Paircheck/Proven.antt =====
-- The set `proven` of paircheck/success.go: one bit for each index, in a string of bytes that never
-- ends in a zero byte. A byte is a number below 256; an index is a Go int that is not negative.
pub mod Laws
pub mod Spelling
pub mod Size
use Prim.Native.Nat.{bit_and, bit_or}
use precept.Base.{
  ℕ, zero, suc, ◌/◌, ◌%◌, ◌^◌, Bool, true, false, not, ◌&&◌, List, [], ◌∷◌, ltb, ◌==◌,
  if◌then◌else◌, length, get_or, set,
}
use precept.Base.Bits.{and_not}

abbrev pub Proven : Type 0
Proven = List ℕ

unfoldable pub has : Proven → ℕ → Bool
has p index =
    ltb (index / 8) (length p) && not (bit_and (get_or p (index / 8) 0) (2 ^ (index % 8)) == 0)

-- `for len(bits) <= last { bits = append(bits, 0) }`
unfoldable pub padded : List ℕ → ℕ → List ℕ
padded [] zero = 0 ∷ []
padded [] (suc last) = 0 ∷ padded [] last
padded (b ∷ bits) zero = b ∷ bits
padded (b ∷ bits) (suc last) = b ∷ padded bits last

-- `bits[index/8] |= 1 << (index % 8)`
unfoldable pub with : Proven → ℕ → Proven
unfolding padded
with p index =
    let bits = padded p (index / 8) in
    set bits (index / 8) (bit_or (get_or bits (index / 8) 0) (2 ^ (index % 8)))

-- No byte of the second that the first does not cover.
unfoldable pub covers : List ℕ → List ℕ → Bool
covers p [] = true
covers [] (o ∷ other) = false
covers (b ∷ p) (o ∷ other) = and_not o b == 0 && covers p other

unfoldable pub includes : Proven → Proven → Bool
unfolding covers and_not
includes p other = if ltb (length p) (length other) then false else covers p other

-- `strings.TrimRight(bits, "\x00")`
unfoldable pub trimmed : List ℕ → Proven
trimmed [] = []
trimmed (b ∷ bits) = elim (trimmed bits) [
  | [] ↦ if b == 0 then [] else b ∷ []
  | c ∷ rest ↦ b ∷ c ∷ rest
]

-- The bytes that both have, in as many places as the shorter has.
unfoldable pub both : List ℕ → List ℕ → List ℕ
both [] other = []
both (b ∷ p) [] = []
both (b ∷ p) (o ∷ other) = bit_and b o ∷ both p other

unfoldable pub common : Proven → Proven → Proven
unfolding both trimmed
common p other = trimmed (both p other)

unfoldable pub without : Proven → ℕ → Proven
unfolding has trimmed and_not
without p index =
    if not (has p index)
    then p
    else trimmed (set p (index / 8) (and_not (get_or p (index / 8) 0) (2 ^ (index % 8))))
