-- ===== src/Paircheck/Proven/Spelling.antt =====
-- Each set of `proven` (paircheck/success.go) has one spelling, which the operations keep.

use precept.Base.{
  ℕ, zero, suc, ◌+◌, ◌*◌, ◌/◌, ◌%◌, ◌<◌, ◌≤◌, true, List, [], ◌∷◌, ◌==◌, length, get_or, set, ◌≡◌,
  refl, ap, ◌↔◌, inl, inr, arith, Bool-cases, All, last?, ◌≢◌, some, ap₂, sym, ◌∙◌, ==_iff,
  and_true,
}
use precept.Base.Bits.{
  digit, digit-zero, bit_and-le, bit_or-byte, pow-byte, and_not, and_not-zero_digit, and_not_zero,
  and_not_antisym, and_not-byte, bit_or-pow_ne,
}
use precept.Paircheck.Proven.{
  Proven, has, padded, with, covers, includes, trimmed, both, common, without,
}
use precept.Paircheck.Proven.Laws.{has-bit}

abbrev pub AreBytes : List ℕ → Type 0
AreBytes = All (λ b. b < 256)

-- A string of bytes that does not end in a zero byte.
pub record IsProven (p : Proven) : Type 0 where
  pub bytes : AreBytes p
  pub ending : last? p ≢ some 0

-- One byte at a time: inclusion of the digits of each byte.
abbrev Within : List ℕ → List ℕ → Type 0
Within other p = (k d : ℕ) → d < 8 → digit (get_or other k 0) d ≡ 1 → digit (get_or p k 0) d ≡ 1

zero-and_not : (y : ℕ) → and_not 0 y ≡ 0
zero-and_not y = and_not_zero 0 y (omega arith) (λ d p e. absurd (omega (arith, e, digit-zero d)))

covers-byte :
    (p other : List ℕ) (k : ℕ)
    → covers p other ≡ true
    → and_not (get_or other k 0) (get_or p k 0) ≡ 0
unfolding covers and_not
covers-byte p [] k h = zero-and_not (get_or p k 0)
covers-byte [] (o ∷ other) k h = cc
covers-byte (b ∷ p) (o ∷ other) zero h =
    ground (arith, and_true (and_not o b == 0) (covers p other) h)
covers-byte (b ∷ p) (o ∷ other) (suc k) h =
    covers-byte p other k (and_true (and_not o b == 0) (covers p other) h).1

-- A byte with no digit is zero, so a string that only an empty one covers ends in a zero byte.
bare : (other : List ℕ) → AreBytes other → Within other [] → other ≢ [] → last? other ≡ some 0
bare [] bytes h ne = absurd (ne refl)
bare (o ∷ []) bytes h ne = ap some (blank o bytes.0 (h 0))
  where
    blank : (x : ℕ) → x < 256 → ((d : ℕ) → d < 8 → digit x d ≡ 1 → digit 0 d ≡ 1) → x ≡ 0
    blank x byte none = and_not_antisym x 0 (and_not_zero x 0 byte none) (zero-and_not x)
bare (o ∷ q ∷ other) bytes h ne = bare (q ∷ other) bytes.1 (λ k d. h (suc k) d) cc

covers_of_Within :
    (p other : List ℕ)
    → IsProven other
    → Within other p
    → (covers p other ≡ true) × (length other ≤ length p)
unfolding covers
covers_of_Within p [] v h = (refl, omega arith)
covers_of_Within [] (o ∷ other) v h = absurd (v.ending (bare (o ∷ other) v.bytes h cc))
covers_of_Within (b ∷ p) (o ∷ []) v h = ground (arith, and_not_zero o b v.bytes.0 (h 0))
covers_of_Within (b ∷ p) (o ∷ q ∷ other) v h =
    let rest =
      covers_of_Within p (q ∷ other) (record { bytes = v.bytes.1; ending = v.ending })
        (λ k d. h (suc k) d) in
    ground (arith, rest, and_not_zero o b v.bytes.0 (h 0))

abbrev Subset : Proven → Proven → Type 0
Subset other p = (index : ℕ) → has other index ≡ true → has p index ≡ true

Within-of_subset : (p other : Proven) → Subset other p → Within other p
Within-of_subset p other h k d small e =
    let place : (8 * k + d) / 8 ≡ k = omega arith in
    let rest : (8 * k + d) % 8 ≡ d = omega arith in
    let found = h (8 * k + d) (rw (has-bit, place, rest, e)) in
    (==_iff _ 1).0 (rw (has-bit, place, rest) at found)

pub includes-subset :
    (p other : Proven)
    → includes p other ≡ true
    → ((index : ℕ) → has other index ≡ true → has p index ≡ true)
unfolding includes
includes-subset p other h index e = rw (has-bit p index) (
    let on : digit (get_or other (index / 8) 0) (index % 8) ≡ 1 =
      (==_iff _ 1).0 (rw has-bit at e) in
    (==_iff _ 1).1
      (and_not-zero_digit _ _ (index % 8) (covers-byte p other (index / 8) (ground arith)) on))

-- A set includes a well-formed one exactly where it holds every index the other holds.
pub includes_iff :
    (p other : Proven)
    → IsProven other
    → (includes p other ≡ true) ↔ ((index : ℕ) → has other index ≡ true → has p index ≡ true)
unfolding includes
includes_iff p other v = (
  includes-subset p other,
  λ h. ground (arith, covers_of_Within p other v (Within-of_subset p other h)),
)

covers_antisym : (p q : List ℕ) → covers p q ≡ true → covers q p ≡ true → p ≡ q
unfolding covers
covers_antisym [] [] h k = refl
covers_antisym [] (b ∷ q) h k = cc
covers_antisym (a ∷ p) [] h k = cc
covers_antisym (a ∷ p) (b ∷ q) h k =
    let (first, rest) = and_true (and_not b a == 0) (covers p q) h in
    let (first', rest') = and_true (and_not a b == 0) (covers q p) k in
    ap₂ ◌∷◌ (and_not_antisym a b ((==_iff _ 0).0 first') ((==_iff _ 0).0 first))
      (covers_antisym p q rest rest')

-- Two well-formed sets that hold the same indices are the same string.
pub one_spelling :
    (p q : Proven) → IsProven p → IsProven q → ((index : ℕ) → has p index ≡ has q index) → p ≡ q
one_spelling p q v w h =
    covers_antisym p q (covers_of_Within p q w (Within-of_subset p q (λ i e. h i ∙ e))).0
      (covers_of_Within q p v (Within-of_subset q p (λ i e. sym (h i) ∙ e))).0

-- Each operation keeps the spelling.
pub trimmed-AreBytes : (bits : List ℕ) → AreBytes bits → AreBytes (trimmed bits)
unfolding trimmed
trimmed-AreBytes [] h = tt
trimmed-AreBytes (b ∷ bits) h = ground (arith, trimmed-AreBytes bits h.1)

trimmed-ending : (bits : List ℕ) → last? (trimmed bits) ≢ some 0
unfolding trimmed
trimmed-ending [] e = cc
trimmed-ending (b ∷ bits) e = ground (arith, trimmed-ending bits)

trimmed-IsProven : (bits : List ℕ) → AreBytes bits → IsProven (trimmed bits)
trimmed-IsProven bits h = record { bytes = trimmed-AreBytes bits h; ending = trimmed-ending bits }

both-AreBytes : (p other : List ℕ) → AreBytes other → AreBytes (both p other)
unfolding both
both-AreBytes [] other h = tt
both-AreBytes (b ∷ p) [] h = tt
both-AreBytes (b ∷ p) (o ∷ other) h = (omega (arith, bit_and-le b o), both-AreBytes p other h.1)

pub padded-AreBytes : (p : List ℕ) (k : ℕ) → AreBytes p → AreBytes (padded p k)
unfolding padded
padded-AreBytes [] zero h = (omega arith, tt)
padded-AreBytes [] (suc k) h = (omega arith, padded-AreBytes [] k tt)
padded-AreBytes (b ∷ p) zero h = h
padded-AreBytes (b ∷ p) (suc k) h = (h.0, padded-AreBytes p k h.1)

pub set-AreBytes : (p : List ℕ) (k v : ℕ) → AreBytes p → v < 256 → AreBytes (set p k v)
set-AreBytes [] k v h small = tt
set-AreBytes (b ∷ p) zero v h small = (small, h.1)
set-AreBytes (b ∷ p) (suc k) v h small = (h.0, set-AreBytes p k v h.1 small)

pub get_or-byte : (p : List ℕ) (k : ℕ) → AreBytes p → get_or p k 0 < 256
get_or-byte [] k h = omega arith
get_or-byte (b ∷ p) zero h = h.0
get_or-byte (b ∷ p) (suc k) h = get_or-byte p k h.1

set-padded-ending :
    (p : List ℕ) (k v : ℕ) → last? p ≢ some 0 → v ≢ 0 → last? (set (padded p k) k v) ≢ some 0
unfolding padded
set-padded-ending [] zero v h ne e = ne (cc)
set-padded-ending [] (suc zero) v h ne e = ne (cc)
set-padded-ending [] (suc (suc k)) v h ne e = set-padded-ending [] (suc k) v h ne e
set-padded-ending (b ∷ []) zero v h ne e = ne (cc)
set-padded-ending (b ∷ c ∷ p) zero v h ne e = h e
set-padded-ending (b ∷ []) (suc zero) v h ne e = ne (cc)
set-padded-ending (b ∷ []) (suc (suc k)) v h ne e = set-padded-ending [] (suc k) v (λ e. cc) ne e
set-padded-ending (b ∷ c ∷ p) (suc zero) v h ne e = set-padded-ending (c ∷ p) zero v h ne e
set-padded-ending (b ∷ c ∷ p) (suc (suc k)) v h ne e = set-padded-ending (c ∷ p) (suc k) v h ne e

-- `with` keeps a set well-formed.
pub with-IsProven : (p : Proven) (index : ℕ) → IsProven p → IsProven (with p index)
unfolding with
with-IsProven p index v =
    let k = index / 8 in
    let bits = padded p k in
    let bytes = padded-AreBytes p k v.bytes in
    record {
      bytes =
          set-AreBytes bits k _ bytes
            (bit_or-byte _ _ (get_or-byte bits k bytes) (pow-byte (index % 8) (omega arith)));
      ending = set-padded-ending p k _ v.ending (bit_or-pow_ne _ (index % 8));
    }

-- What a set has in common with a well-formed one is well-formed.
pub common-IsProven : (p other : Proven) → IsProven other → IsProven (common p other)
unfolding common
common-IsProven p other v = trimmed-IsProven (both p other) (both-AreBytes p other v.bytes)

-- `without` keeps a set well-formed.
pub without-IsProven : (p : Proven) (index : ℕ) → IsProven p → IsProven (without p index)
unfolding without
without-IsProven p index v = elim (Bool-cases (has p index)) [
  | inl held ↦ rw held (
      trimmed-IsProven _ (
        set-AreBytes p (index / 8) _ v.bytes
          (and_not-byte _ _ (get_or-byte p (index / 8) v.bytes))))
  | inr out ↦ rw out v
]
