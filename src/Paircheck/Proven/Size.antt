-- ===== src/Paircheck/Proven/Size.antt =====
-- How large a set of `proven` (paircheck/success.go) is: sets over a bounded number of indices have
-- bounded size, and what two sets have in common is smaller than one that is not included.
use Prim.Native.Nat.{bit_or}
use precept.Base.{
  ℕ, zero, suc, ◌+◌, ◌*◌, ◌/◌, ◌%◌, ◌^◌, ◌<◌, ◌≤◌, false, List, [], ◌∷◌, ◌==◌, length, get_or, set,
  ◌≡◌, refl, arith, inl, inr, Bool-cases, max,
}
use precept.Base.Bits.{
  bit_and-le, bit_and-le_left, bit_and-lt, bit_or-byte, pow-byte, and_not, and_not-byte,
}
use precept.Paircheck.Proven.{
  Proven, has, padded, with, covers, includes, trimmed, both, common, without,
}
use precept.Paircheck.Proven.Spelling.{
  AreBytes, padded-AreBytes, set-AreBytes, get_or-byte, trimmed-AreBytes,
}

-- At most n bytes.
pub record IsWithin (n : ℕ) (p : Proven) : Type 0 where
  pub bytes : AreBytes p
  pub short : length p ≤ n

abbrev pub weight : Proven → ℕ
weight [] = 0
weight (b ∷ p) = suc b + weight p

pub weight-le : (n : ℕ) (p : Proven) → AreBytes p → length p ≤ n → weight p ≤ 256 * n
weight-le n [] v h = omega arith
weight-le zero (b ∷ p) v h = absurd (omega arith)
weight-le (suc n) (b ∷ p) v h = omega (arith, weight-le n p v.1 (omega arith))

weight-trimmed : (p : List ℕ) → weight (trimmed p) ≤ weight p
unfolding trimmed
weight-trimmed [] = omega arith
weight-trimmed (b ∷ p) = ground (arith, weight-trimmed p)

weight-both : (p other : List ℕ) → weight (both p other) ≤ weight other
unfolding both
weight-both [] other = omega arith
weight-both (b ∷ p) [] = omega arith
weight-both (b ∷ p) (o ∷ other) = omega (arith, bit_and-le b o, weight-both p other)

weight-both_lt : (p other : List ℕ) → covers p other ≡ false → weight (both p other) < weight other
unfolding both covers
weight-both_lt p [] h = cc
weight-both_lt [] (o ∷ other) h = omega arith
weight-both_lt (b ∷ p) (o ∷ other) h = elim (Bool-cases (and_not o b == 0)) [
  | inl e ↦ ground (arith, bit_and-le b o, weight-both_lt p other)
  | inr e ↦ ground (arith, bit_and-lt o b, weight-both p other)
]

covers-short : (p other : List ℕ) → length p < length other → covers p other ≡ false
unfolding covers
covers-short p [] h = absurd (omega arith)
covers-short [] (o ∷ other) h = refl
covers-short (b ∷ p) (o ∷ other) h = ground (arith, covers-short p other)

-- Where a set is not included, what is in common is less than it.
pub weight-common :
    (p other : Proven) → includes p other ≡ false → weight (common p other) < weight other
unfolding common includes
weight-common p other h =
    ground (arith, weight-trimmed (both p other), weight-both_lt p other, covers-short p other)

length-trimmed : (p : List ℕ) → length (trimmed p) ≤ length p
unfolding trimmed
length-trimmed [] = omega arith
length-trimmed (b ∷ p) = ground (arith, length-trimmed p)

length-both : (p other : List ℕ) → length (both p other) ≤ length p
unfolding both
length-both [] other = omega arith
length-both (b ∷ p) [] = omega arith
length-both (b ∷ p) (o ∷ other) = omega (arith, length-both p other)

both-bytes : (p other : List ℕ) → AreBytes p → AreBytes (both p other)
unfolding both
both-bytes [] other h = tt
both-bytes (b ∷ p) [] h = tt
both-bytes (b ∷ p) (o ∷ other) h = (omega (arith, bit_and-le_left b o), both-bytes p other h.1)

length-padded : (p : List ℕ) (k : ℕ) → length (padded p k) ≡ max (length p) (suc k)
unfolding padded
length-padded [] zero = omega arith
length-padded [] (suc k) = omega (arith, length-padded [] k)
length-padded (b ∷ p) zero = omega arith
length-padded (b ∷ p) (suc k) = omega (arith, length-padded p k)

length-set : (p : List ℕ) (k v : ℕ) → length (set p k v) ≡ length p
length-set [] k v = refl
length-set (b ∷ p) zero v = refl
length-set (b ∷ p) (suc k) v = omega (arith, length-set p k v)

pub common-IsWithin : (n : ℕ) (p other : Proven) → IsWithin n p → IsWithin n (common p other)
unfolding common
common-IsWithin n p other v = record {
  bytes = trimmed-AreBytes (both p other) (both-bytes p other v.bytes);
  short = omega (arith, length-trimmed (both p other), length-both p other);
}

pub with-IsWithin : (n : ℕ) (p : Proven) (k : ℕ) → k / 8 < n → IsWithin n p → IsWithin n (with p k)
unfolding with
with-IsWithin n p k small v =
    let bits = padded p (k / 8) in
    let bytes = padded-AreBytes p (k / 8) v.bytes in
    record {
      bytes =
          set-AreBytes bits (k / 8) _ bytes
            (bit_or-byte _ _ (get_or-byte bits (k / 8) bytes) (pow-byte (k % 8) (omega arith)));
      short = omega (
        arith,
        length-set bits (k / 8) (bit_or (get_or bits (k / 8) 0) (2 ^ (k % 8))),
        length-padded p (k / 8),
      );
    }

pub without-IsWithin : (n : ℕ) (p : Proven) (k : ℕ) → IsWithin n p → IsWithin n (without p k)
unfolding without
without-IsWithin n p k v =
    let cleared = and_not (get_or p (k / 8) 0) (2 ^ (k % 8)) in
    elim (Bool-cases (has p k)) [
      | inl held ↦ rw held (record {
        bytes = trimmed-AreBytes _ (
            set-AreBytes p (k / 8) cleared v.bytes
              (and_not-byte _ _ (get_or-byte p (k / 8) v.bytes)));
        short = omega (arith, length-trimmed (set p (k / 8) cleared), length-set p (k / 8) cleared);
      })
      | inr out ↦ rw out v
    ]
