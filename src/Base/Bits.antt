-- ===== src/Base/Bits.antt =====
-- The binary digits of a number, and what the bitwise operations do to each of them.
use Prim.Native.Nat.{
  ℕ, zero, suc, ◌+◌, ◌*◌, ◌/◌, ◌%◌, ◌^◌, ◌≤◌, ◌<◌, min, max, digits, bit_and, bit_or, bit_xor,
  bit_and-bitwise, bit_or-bitwise, bit_xor-bitwise, differ,
}
use mathlib.Core.Path.{◌≡◌, refl, ap, subst, sym, ◌∙◌}
use mathlib.Core.Logic.{◌≢◌, ◌⊎◌, inl, inr}
use precept.Base.Tests.{◌==◌, if◌then◌else◌}
use native.Mathlib.Omega.{arith}
use native.Mathlib.Nat.{pow-suc}

-- The digit at a place, 0 or 1.
abbrev pub digit : ℕ → ℕ → ℕ
digit x zero = x % 2
digit x (suc k) = digit (x / 2) k

pub digit_lt : (x k : ℕ) → digit x k < 2
digit_lt x zero = omega arith
digit_lt x (suc k) = digit_lt (x / 2) k

pub digit-zero : (k : ℕ) → digit 0 k ≡ 0
digit-zero zero = refl
digit-zero (suc k) = digit-zero k

-- One more round of fuel changes nothing once there is one for each unit of the first number.
module _ (rest_of : ℕ → ℕ) (one_digit : ℕ → ℕ → ℕ) where
  digits-suc :
      (fuel x y : ℕ)
      → x ≤ fuel
      → digits rest_of one_digit (suc fuel) x y ≡ digits rest_of one_digit fuel x y
  digits-suc fuel zero y small = by_fuel fuel
    where
      by_fuel : (k : ℕ) → digits rest_of one_digit (suc k) 0 y ≡ digits rest_of one_digit k 0 y
      by_fuel zero = refl
      by_fuel (suc k) = refl
  digits-suc zero (suc x) y small = absurd (omega arith)
  digits-suc (suc fuel) (suc x) y small = rw (digits-suc fuel (suc x / 2) (y / 2) (omega arith))

  digits-enough :
      (fuel x y : ℕ) → x ≤ fuel → digits rest_of one_digit fuel x y ≡ digits rest_of one_digit x x y
  digits-enough zero x y small =
      let none_left : x ≡ 0 = omega arith in
      subst (λ (k : ℕ). digits rest_of one_digit 0 k y ≡ digits rest_of one_digit k k y)
        (sym none_left) refl
  digits-enough (suc fuel) x y small = elim (less_or_all x fuel small) [
    | inl all ↦
        subst (λ (k : ℕ). digits rest_of one_digit k x y ≡ digits rest_of one_digit x x y) all refl
    | inr less ↦ digits-suc fuel x y less ∙ digits-enough fuel x y less
  ]
    where
      less_or_all : (x k : ℕ) → x ≤ suc k → (x ≡ suc k) ⊎ (x ≤ k)
      less_or_all x k p = omega arith

bit_and_halves : (x y : ℕ) → bit_and x y ≡ min (x % 2) (y % 2) + bit_and (x / 2) (y / 2) * 2
bit_and_halves zero y = simp bit_and-bitwise (omega arith)
bit_and_halves (suc x) y =
    simp bit_and-bitwise
      (omega (arith, digits-enough (λ d. 0) min x (suc x / 2) (y / 2) (omega arith)))

bit_or_halves : (x y : ℕ) → bit_or x y ≡ max (x % 2) (y % 2) + bit_or (x / 2) (y / 2) * 2
bit_or_halves zero y = simp bit_or-bitwise (omega arith)
bit_or_halves (suc x) y =
    simp bit_or-bitwise
      (omega (arith, digits-enough (λ d. d) max x (suc x / 2) (y / 2) (omega arith)))

pub digit-bit_and : (x y k : ℕ) → digit (bit_and x y) k ≡ min (digit x k) (digit y k)
digit-bit_and x y zero = omega (arith, bit_and_halves x y)
digit-bit_and x y (suc k) =
    let half : bit_and x y / 2 ≡ bit_and (x / 2) (y / 2) = omega (arith, bit_and_halves x y) in
    rw half (digit-bit_and (x / 2) (y / 2) k)

pub digit-bit_or : (x y k : ℕ) → digit (bit_or x y) k ≡ max (digit x k) (digit y k)
digit-bit_or x y zero = omega (arith, bit_or_halves x y)
digit-bit_or x y (suc k) =
    let half : bit_or x y / 2 ≡ bit_or (x / 2) (y / 2) = omega (arith, bit_or_halves x y) in
    rw half (digit-bit_or (x / 2) (y / 2) k)

bit_xor_halves : (x y : ℕ) → bit_xor x y ≡ differ (x % 2) (y % 2) + bit_xor (x / 2) (y / 2) * 2
bit_xor_halves zero y = simp bit_xor-bitwise (omega arith)
bit_xor_halves (suc x) y =
    simp bit_xor-bitwise
      (omega (arith, digits-enough (λ d. d) differ x (suc x / 2) (y / 2) (omega arith)))

differ_lt : (a b : ℕ) → differ (a % 2) (b % 2) < 2
differ_lt a b = elim (two_cases a) [
  | inl e ↦ rw e (omega arith)
  | inr e ↦ elim (two_cases b) [ inl f ↦ rw (e, f) (omega arith) | inr f ↦ rw (e, f) (omega arith) ]
]
  where
    two_cases : (n : ℕ) → (n % 2 ≡ 0) ⊎ (n % 2 ≡ 1)
    two_cases n = omega arith

pub digit-bit_xor : (x y k : ℕ) → digit (bit_xor x y) k ≡ differ (digit x k) (digit y k)
digit-bit_xor x y zero = omega (arith, bit_xor_halves x y, differ_lt x y)
digit-bit_xor x y (suc k) =
    let half : bit_xor x y / 2 ≡ bit_xor (x / 2) (y / 2) =
      omega (arith, bit_xor_halves x y, differ_lt x y) in
    rw half (digit-bit_xor (x / 2) (y / 2) k)

-- Numbers with the same digits are equal.
digit_ext : (n x y : ℕ) → x ≤ n → y ≤ n → ((k : ℕ) → digit x k ≡ digit y k) → x ≡ y
digit_ext zero x y p q h = omega arith
digit_ext (suc n) x y p q h =
    omega (arith, h 0, digit_ext n (x / 2) (y / 2) (omega arith) (omega arith) (λ k. h (suc k)))

pub eq_of_digits : (x y : ℕ) → ((k : ℕ) → digit x k ≡ digit y k) → x ≡ y
eq_of_digits x y h = digit_ext (x + y) x y (omega arith) (omega arith) h

-- A power of two has one digit.
pub digit-pow : (k j : ℕ) → digit (2 ^ k) j ≡ (if k == j then 1 else 0)
digit-pow zero zero = refl
digit-pow zero (suc j) = ground (arith, digit-zero j)
digit-pow (suc k) zero = ground (arith, pow-suc 2 k)
digit-pow (suc k) (suc j) =
    let half : 2 ^ suc k / 2 ≡ 2 ^ k = omega (arith, pow-suc 2 k) in
    rw half (ground (arith, digit-pow k j))

pub zero-bit_and : (x : ℕ) → bit_and 0 x ≡ 0
zero-bit_and x =
    eq_of_digits (bit_and 0 x) 0 (λ k. omega (arith, digit-bit_and 0 x k, digit-zero k))

pub bit_and-zero : (x : ℕ) → bit_and x 0 ≡ 0
bit_and-zero x =
    eq_of_digits (bit_and x 0) 0 (λ k. omega (arith, digit-bit_and x 0 k, digit-zero k))

-- `x & (1 << k)` is that digit, at its place.
pub bit_and-pow : (x k : ℕ) → bit_and x (2 ^ k) ≡ digit x k * 2 ^ k
bit_and-pow x zero = omega (arith, bit_and_halves x 1, bit_and-zero (x / 2))
bit_and-pow x (suc k) =
    let half : 2 ^ suc k / 2 ≡ 2 ^ k = omega (arith, pow-suc 2 k) in
    let low : bit_and (x / 2) (2 ^ suc k / 2) ≡ digit (x / 2) k * 2 ^ k =
      rw half (bit_and-pow (x / 2) k) in
    omega (
      arith,
      bit_and_halves x (2 ^ suc k),
      low,
      pow-suc 2 k,
      ap (λ (t : ℕ). digit (x / 2) k * t) (pow-suc 2 k),
    )

-- The digits of `x &^ y`.
unfoldable pub and_not : ℕ → ℕ → ℕ
and_not x y = bit_xor x (bit_and x y)

pub digit-and_not : (x y k : ℕ) → digit (and_not x y) k ≡ (if digit y k == 0 then digit x k else 0)
unfolding and_not
digit-and_not x y k =
    rw (digit-bit_xor, digit-bit_and) (clear (digit x k) (digit y k) (digit_lt x k) (digit_lt y k))
  where
    clear : (a b : ℕ) → a < 2 → b < 2 → differ a (min a b) ≡ (if b == 0 then a else 0)
    clear zero zero p q = refl
    clear zero (suc zero) p q = refl
    clear (suc zero) zero p q = refl
    clear (suc zero) (suc zero) p q = refl
    clear (suc (suc a)) b p q = absurd (omega arith)
    clear zero (suc (suc b)) p q = absurd (omega arith)
    clear (suc zero) (suc (suc b)) p q = absurd (omega arith)

bit_and_le_fuel : (n x y : ℕ) → y ≤ n → bit_and x y ≤ y
bit_and_le_fuel n x zero h = omega (arith, bit_and-zero x)
bit_and_le_fuel zero x (suc y) h = absurd (omega arith)
bit_and_le_fuel (suc n) x (suc y) h =
    omega (arith, bit_and_halves x (suc y), bit_and_le_fuel n (x / 2) (suc y / 2) (omega arith))

pub bit_and-le : (x y : ℕ) → bit_and x y ≤ y
bit_and-le x y = bit_and_le_fuel y x y (omega arith)

-- Where `x &^ y` is 0, `x & y` is all of `x`; elsewhere it is less than `x`.
pub bit_and-lt : (x y : ℕ) → and_not x y ≢ 0 → bit_and y x < x
bit_and-lt x y h = elim (lt_or_eq (bit_and-le y x)) [
  | inl less ↦ less
  | inr same ↦
      absurd (h (eq_of_digits (and_not x y) 0 (λ k. covered k (ap (λ (t : ℕ). digit t k) same))))
]
  where
    lt_or_eq : {a b : ℕ} → a ≤ b → (a < b) ⊎ (a ≡ b)
    lt_or_eq h = omega arith

    covered : (k : ℕ) → digit (bit_and y x) k ≡ digit x k → digit (and_not x y) k ≡ digit 0 k
    covered k e =
        ground (arith, digit-and_not x y k, digit-zero k, digit-bit_and y x k, digit_lt x k)

-- Eight digits make a byte.
pub digit-byte : (x k : ℕ) → x < 256 → 8 ≤ k → digit x k ≡ 0
digit-byte x (suc (suc (suc (suc (suc (suc (suc (suc k)))))))) h p =
    let gone : x / 2 / 2 / 2 / 2 / 2 / 2 / 2 / 2 ≡ 0 = omega arith in rw gone (digit-zero k)
digit-byte x _ h p = absurd (omega arith)

pub byte_of_digits : (x : ℕ) → ((k : ℕ) → 8 ≤ k → digit x k ≡ 0) → x < 256
byte_of_digits x h =
    let none_left : x / 2 / 2 / 2 / 2 / 2 / 2 / 2 / 2 ≡ 0 =
      eq_of_digits (x / 2 / 2 / 2 / 2 / 2 / 2 / 2 / 2) 0 (λ k.
        h (suc (suc (suc (suc (suc (suc (suc (suc k)))))))) (omega arith) ∙ sym (digit-zero k)) in
    omega arith

pub bit_or-byte : (x y : ℕ) → x < 256 → y < 256 → bit_or x y < 256
bit_or-byte x y p q =
    byte_of_digits (bit_or x y)
      (λ k h. omega (arith, digit-bit_or x y k, digit-byte x k p h, digit-byte y k q h))

pub pow-byte : (k : ℕ) → k < 8 → 2 ^ k < 256
pow-byte zero h = omega arith
pow-byte (suc zero) h = omega arith
pow-byte (suc (suc zero)) h = omega arith
pow-byte (suc (suc (suc zero))) h = omega arith
pow-byte (suc (suc (suc (suc zero)))) h = omega arith
pow-byte (suc (suc (suc (suc (suc zero))))) h = omega arith
pow-byte (suc (suc (suc (suc (suc (suc zero)))))) h = omega arith
pow-byte (suc (suc (suc (suc (suc (suc (suc zero))))))) h = omega arith
pow-byte (suc (suc (suc (suc (suc (suc (suc (suc k)))))))) h = absurd (omega arith)

-- `x &^ y` is 0 exactly where each digit of `x` is one of `y`.
pub and_not-zero_digit : (x y k : ℕ) → and_not x y ≡ 0 → digit x k ≡ 1 → digit y k ≡ 1
and_not-zero_digit x y k h e =
    let at_zero : digit (and_not x y) k ≡ digit 0 k = ap (λ (t : ℕ). digit t k) h in
    ground (arith, at_zero, digit-and_not x y k, digit-zero k, digit_lt y k)

pub and_not_zero :
    (x y : ℕ) → x < 256 → ((k : ℕ) → k < 8 → digit x k ≡ 1 → digit y k ≡ 1) → and_not x y ≡ 0
and_not_zero x y byte h = eq_of_digits (and_not x y) 0 (λ k. at k (low_or_high k))
  where
    low_or_high : (k : ℕ) → (k < 8) ⊎ (8 ≤ k)
    low_or_high k = omega arith

    at : (k : ℕ) → (k < 8) ⊎ (8 ≤ k) → digit (and_not x y) k ≡ digit 0 k
    at k (inl low) = ground (arith, digit-and_not x y k, digit-zero k, h k low, digit_lt x k)
    at k (inr high) = ground (arith, digit-and_not x y k, digit-zero k, digit-byte x k byte high)

pub and_not_antisym : (x y : ℕ) → and_not x y ≡ 0 → and_not y x ≡ 0 → x ≡ y
and_not_antisym x y p q = eq_of_digits x y (λ k.
    ground
      (arith, and_not-zero_digit x y k p, and_not-zero_digit y x k q, digit_lt x k, digit_lt y k))

pub and_not-byte : (x y : ℕ) → x < 256 → and_not x y < 256
and_not-byte x y p =
    byte_of_digits (and_not x y) (λ k h. ground (arith, digit-and_not x y k, digit-byte x k p h))

pub bit_or-pow_ne : (x k : ℕ) → bit_or x (2 ^ k) ≢ 0
bit_or-pow_ne x k e =
    let at_zero : digit (bit_or x (2 ^ k)) k ≡ digit 0 k = ap (λ (t : ℕ). digit t k) e in
    ground (arith, at_zero, digit-bit_or x (2 ^ k) k, digit-pow k k, digit-zero k, digit_lt x k)

pub bit_and-le_left : (x y : ℕ) → bit_and x y ≤ x
bit_and-le_left x y =
    let swapped : bit_and x y ≡ bit_and y x =
      eq_of_digits (bit_and x y) (bit_and y x)
        (λ k. omega (arith, digit-bit_and x y k, digit-bit_and y x k)) in
    omega (arith, bit_and-le y x)
