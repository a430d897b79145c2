-- ===== src/Paircheck/Proven/Laws.antt =====
-- What the operations on `proven` (paircheck/success.go) do to membership.
use Prim.Native.Nat.{bit_and, bit_or}
use native.Mathlib.Nat.{one-le-pow}
use precept.Base.{
  ℕ, zero, suc, ◌*◌, ◌/◌, ◌%◌, ◌^◌, ◌<◌, ◌≤◌, true, false, ◌&&◌, List, [], ◌∷◌, ◌==◌, if◌then◌else◌,
  length, get_or, set, ◌≡◌, refl, ap, inl, inr, arith, Bool-cases, ==_iff,
}
use precept.Base.Bits.{
  digit, digit_lt, digit-zero, digit-pow, digit-bit_and, digit-bit_or, bit_and-pow, zero-bit_and,
  bit_and-zero, and_not, digit-and_not,
}
use precept.Paircheck.Proven.{Proven, has, padded, with, trimmed, both, common, without}

-- The bit of an index.
abbrev pub bit : Proven → ℕ → ℕ
bit p index = digit (get_or p (index / 8) 0) (index % 8)

get_or-beyond : (bytes : List ℕ) (k : ℕ) → length bytes ≤ k → get_or bytes k 0 ≡ 0
get_or-beyond [] k h = refl
get_or-beyond (b ∷ bytes) zero h = absurd (omega arith)
get_or-beyond (b ∷ bytes) (suc k) h = get_or-beyond bytes k (omega arith)

mask-zero : (d e : ℕ) → d < 2 → 0 < e → (d * e == 0) ≡ (d == 0)
mask-zero zero e p q = ground arith
mask-zero (suc zero) e p q = ground arith
mask-zero (suc (suc d)) e p q = absurd (omega arith)

pub has-bit : (p : Proven) (index : ℕ) → has p index ≡ (bit p index == 1)
unfolding has
has-bit p index =
    let d = get_or p (index / 8) 0 in
    ground (
      arith,
      bit_and-pow d (index % 8),
      mask-zero (digit d (index % 8)) (2 ^ (index % 8)),
      one-le-pow (index % 8) 2,
      digit_lt d (index % 8),
      get_or-beyond p (index / 8),
      digit-zero (index % 8),
    )

-- Reads of the string of bytes after each of the loops.
get_or-padded : (bytes : List ℕ) (last k : ℕ) → get_or (padded bytes last) k 0 ≡ get_or bytes k 0
unfolding padded
get_or-padded [] zero zero = refl
get_or-padded [] zero (suc k) = refl
get_or-padded [] (suc last) zero = refl
get_or-padded [] (suc last) (suc k) = get_or-padded [] last k
get_or-padded (b ∷ bytes) zero k = refl
get_or-padded (b ∷ bytes) (suc last) zero = refl
get_or-padded (b ∷ bytes) (suc last) (suc k) = get_or-padded bytes last k

length-padded : (bytes : List ℕ) (last : ℕ) → last < length (padded bytes last)
unfolding padded
length-padded [] zero = omega arith
length-padded [] (suc last) = omega (arith, length-padded [] last)
length-padded (b ∷ bytes) zero = omega arith
length-padded (b ∷ bytes) (suc last) = omega (arith, length-padded bytes last)

pub get_or-set :
    (bytes : List ℕ) (i k v : ℕ)
    → i < length bytes
    → get_or (set bytes i v) k 0 ≡ (if i == k then v else get_or bytes k 0)
get_or-set [] i k v h = absurd (omega arith)
get_or-set (b ∷ bytes) zero zero v h = refl
get_or-set (b ∷ bytes) zero (suc k) v h = ground arith
get_or-set (b ∷ bytes) (suc i) zero v h = ground arith
get_or-set (b ∷ bytes) (suc i) (suc k) v h = ground (arith, get_or-set bytes i k v)

pub get_or-trimmed : (bytes : List ℕ) (k : ℕ) → get_or (trimmed bytes) k 0 ≡ get_or bytes k 0
unfolding trimmed
get_or-trimmed [] k = refl
get_or-trimmed (b ∷ bytes) zero = ground arith
get_or-trimmed (b ∷ bytes) (suc k) = ground (arith, get_or-trimmed bytes k)

pub get_or-both :
    (p other : List ℕ) (k : ℕ)
    → get_or (both p other) k 0 ≡ bit_and (get_or p k 0) (get_or other k 0)
unfolding both
get_or-both [] other k = rw (zero-bit_and (get_or other k 0))
get_or-both (b ∷ p) [] k = rw (bit_and-zero (get_or {A = ℕ} (b ∷ p) k 0))
get_or-both (b ∷ p) (o ∷ other) zero = refl
get_or-both (b ∷ p) (o ∷ other) (suc k) = get_or-both p other k

same_place : (i j : ℕ) → (i / 8 == j / 8) ≡ true → (i % 8 == j % 8) ≡ (i == j)
same_place i j h = ground arith

other_place : (i j : ℕ) → (i / 8 == j / 8) ≡ false → (i == j) ≡ false
other_place i j h = ground arith

pub has-lt : (p : Proven) (i : ℕ) → has p i ≡ true → i / 8 < length p
unfolding has
has-lt p i h = ground arith

-- `with` makes the set hold the index, and changes no other.
pub has-with : (p : Proven) (i j : ℕ) → has (with p i) j ≡ (if i == j then true else has p j)
unfolding with
has-with p i j =
    let bits = padded p (i / 8) in
    rw (has-bit, has-bit)
      (ground (
        arith,
        get_or-set bits (i / 8) (j / 8) (bit_or (get_or bits (i / 8) 0) (2 ^ (i % 8))),
        length-padded p (i / 8),
        get_or-padded p (i / 8) (j / 8),
        get_or-padded p (i / 8) (i / 8),
        digit-bit_or (get_or bits (i / 8) 0) (2 ^ (i % 8)) (j % 8),
        digit-pow (i % 8) (j % 8),
        digit_lt (get_or p (j / 8) 0) (j % 8),
        same_place i j,
        other_place i j,
      ))

-- `without` makes the set not hold the index, and changes no other.
pub has-without : (p : Proven) (i j : ℕ) → has (without p i) j ≡ (if i == j then false else has p j)
unfolding without
has-without p i j = elim (Bool-cases (has p i)) [
  | inl in_p ↦ rw (has-bit p j) (
      let cleared = and_not (get_or p (i / 8) 0) (2 ^ (i % 8)) in
      ground (
        arith,
        has-bit (trimmed (set p (i / 8) cleared)) j,
        get_or-trimmed (set p (i / 8) cleared) (j / 8),
        get_or-set p (i / 8) (j / 8) cleared,
        has-lt p i,
        digit-and_not (get_or p (i / 8) 0) (2 ^ (i % 8)) (j % 8),
        digit-pow (i % 8) (j % 8),
        same_place i j,
        other_place i j,
      ))
  | inr out ↦ ground (arith, ==_iff i j, ap (has p) {x = i} {y = j})
]

-- What two sets have in common holds an index exactly where both hold it.
pub has-common : (p other : Proven) (i : ℕ) → has (common p other) i ≡ (has p i && has other i)
unfolding common
has-common p other i =
    rw (has-bit, has-bit, has-bit)
      (ground (
        arith,
        get_or-trimmed (both p other) (i / 8),
        get_or-both p other (i / 8),
        digit-bit_and (get_or p (i / 8) 0) (get_or other (i / 8) 0) (i % 8),
        digit_lt (get_or p (i / 8) 0) (i % 8),
        digit_lt (get_or other (i / 8) 0) (i % 8),
      ))
