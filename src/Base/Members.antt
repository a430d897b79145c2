-- ===== src/Base/Members.antt =====
-- Membership in the lists that the program's loops build.
use Prim.Native.Nat.{ℕ, zero, suc}
use native.Mathlib.Omega.{arith}
use mathlib.Core.Option.{some}
use mathlib.Core.Path.{◌≡◌, refl, subst, sym}
use mathlib.Core.Logic.{inl, inr}
use mathlib.Core.List.{List, [], ◌∷◌, ◌++◌, reverse, reverse-cons, Memᴰ}
use mathlib.Core.List.Memᴰ
use precept.Base.Lists.{All, keep, get_elem?, length, length-append}
use precept.Base.Tests.{some_inj, Bool-cases}
use mathlib.Core.Bool.{Bool, true, false}

module _ {ℓ} {A : Type ℓ} where
  pub mem-reverse : {a : A} (xs : List A) → Memᴰ a xs → Memᴰ a (reverse xs)
  mem-reverse [] m = m
  mem-reverse {a} (x ∷ xs) (Memᴰ.head e) =
      subst (Memᴰ a) (sym (reverse-cons x xs)) (Memᴰ.append_right (reverse xs) (Memᴰ.head e))
  mem-reverse {a} (x ∷ xs) (Memᴰ.tail m) =
      subst (Memᴰ a) (sym (reverse-cons x xs)) (Memᴰ.append_left (x ∷ []) (mem-reverse xs m))

  pub mem-of_reverse : {a : A} (xs : List A) → Memᴰ a (reverse xs) → Memᴰ a xs
  mem-of_reverse [] m = m
  mem-of_reverse {a} (x ∷ xs) m =
      elim (Memᴰ.append_cases (reverse xs) (subst (Memᴰ a) (reverse-cons x xs) m)) [
        | inl early ↦ Memᴰ.tail (mem-of_reverse xs early)
        | inr last ↦ Memᴰ.head (Memᴰ.eq_of_singleton last)
      ]

  pub length-reverse : (xs : List A) → length (reverse xs) ≡ length xs
  length-reverse [] = refl
  length-reverse (x ∷ xs) =
      rw (reverse-cons x xs) (omega (arith, length-append (reverse xs) (x ∷ []), length-reverse xs))

module _ {ℓ κ} {A : Type ℓ} (P : A → Type κ) where
  pub All-append : (xs ys : List A) → All P xs → All P ys → All P (xs ++ ys)
  All-append [] ys h k = k
  All-append (x ∷ xs) ys h k = (h.0, All-append xs ys h.1 k)

  pub All-mem : (xs : List A) {a : A} → All P xs → Memᴰ a xs → P a
  All-mem [] h m = absurd (Memᴰ.not-nil m)
  All-mem (x ∷ xs) h (Memᴰ.head e) = subst P (sym e) h.0
  All-mem (x ∷ xs) h (Memᴰ.tail m) = All-mem xs h.1 m

  pub All-of_mem : (xs : List A) → ((a : A) → Memᴰ a xs → P a) → All P xs
  All-of_mem [] h = tt
  All-of_mem (x ∷ xs) h = (h x (Memᴰ.head refl), All-of_mem xs (λ a m. h a (Memᴰ.tail m)))

  pub All-get_elem? : (xs : List A) (i : ℕ) → All P xs → (a : A) → get_elem? xs i ≡ some a → P a
  All-get_elem? [] i h a e = cc
  All-get_elem? (x ∷ xs) zero h a e = subst P (some_inj e) h.0
  All-get_elem? (x ∷ xs) (suc i) h a e = All-get_elem? xs i h.1 a e

pub All-map {ℓ κ μ} :
    {A : Type ℓ} (P : A → Type κ) (Q : A → Type μ) (xs : List A)
    → ((a : A) → P a → Q a)
    → All P xs
    → All Q xs
All-map P Q [] f h = tt
All-map P Q (x ∷ xs) f h = (f x h.0, All-map P Q xs f h.1)

module _ {ℓ} {A : Type ℓ} (p : A → Bool) where
  pub keep-true : (y : A) (xs : List A) → p y ≡ true → keep p (y ∷ xs) ≡ y ∷ keep p xs
  keep-true y xs e = rw (e, keep) refl

  pub keep-false : (y : A) (xs : List A) → p y ≡ false → keep p (y ∷ xs) ≡ keep p xs
  keep-false y xs e = rw (e, keep) refl

  pub mem-of_keep : (xs : List A) {x : A} → Memᴰ x (keep p xs) → Memᴰ x xs × (p x ≡ true)
  mem-of_keep [] m = absurd (Memᴰ.not-nil m)
  mem-of_keep (y ∷ xs) {x} m = elim (Bool-cases (p y)) [
    | inl on ↦ elim (Memᴰ.cases_cons (subst (Memᴰ x) (keep-true y xs on) m)) [
      | inl same ↦ (Memᴰ.head same, subst (λ (z : A). p z ≡ true) (sym same) on)
      | inr later ↦ let (m', e) = mem-of_keep xs later in (Memᴰ.tail m', e)
    ]
    | inr off ↦
        let (m', e) = mem-of_keep xs (subst (Memᴰ x) (keep-false y xs off) m) in (Memᴰ.tail m', e)
  ]

  pub mem-keep : (xs : List A) {x : A} → Memᴰ x xs → p x ≡ true → Memᴰ x (keep p xs)
  mem-keep [] m e = absurd (Memᴰ.not-nil m)
  mem-keep (y ∷ xs) {x} (Memᴰ.head same) e =
      subst (Memᴰ x) (sym (keep-true y xs (subst (λ (z : A). p z ≡ true) same e))) (Memᴰ.head same)
  mem-keep (y ∷ xs) {x} (Memᴰ.tail m) e = elim (Bool-cases (p y)) [
    | inl on ↦ subst (Memᴰ x) (sym (keep-true y xs on)) (Memᴰ.tail (mem-keep xs m e))
    | inr off ↦ subst (Memᴰ x) (sym (keep-false y xs off)) (mem-keep xs m e)
  ]
