-- ===== src/Base/Finite.antt =====
-- Finite collections as lists: ranges, products, sums over them, and the greatest of a list.
use Prim.Native.Nat.{ℕ, zero, suc, ◌+◌, ◌*◌, ◌≤◌, ◌<◌, max}
use mathlib.Core.Path.{◌≡◌, refl, subst}
use mathlib.Core.Logic.{◌⊎◌, inl, inr}
use mathlib.Core.Bool.{Bool, true, false}
use mathlib.Core.List.{List, [], ◌∷◌, ◌++◌, map, Memᴰ}
use mathlib.Core.List.Memᴰ
use native.Mathlib.Omega.{arith}

-- 0 to n, and the two truth values.
abbrev pub upto : ℕ → List ℕ
upto zero = 0 ∷ []
upto (suc n) = suc n ∷ upto n

pub mem-upto : (n x : ℕ) → x ≤ n → Memᴰ x (upto n)
mem-upto zero x h = Memᴰ.head (omega arith)
mem-upto (suc n) x h = elim (last x h) [
  | inl e ↦ Memᴰ.head e
  | inr small ↦ Memᴰ.tail (mem-upto n x small)
]
  where
    last : (y : ℕ) → y ≤ suc n → (y ≡ suc n) ⊎ (y ≤ n)
    last y p = omega arith

abbrev pub booleans : List Bool
booleans = true ∷ false ∷ []

pub mem-booleans : (b : Bool) → Memᴰ b booleans
mem-booleans true = Memᴰ.head refl
mem-booleans false = Memᴰ.tail (Memᴰ.head refl)

module _ {ℓ κ μ} {A : Type ℓ} {B : Type κ} {C : Type μ} (f : A → B → C) where
  -- Every value of a function on two lists.
  abbrev pub cross : List A → List B → List C
  cross [] ys = []
  cross (x ∷ xs) ys = map (f x) ys ++ cross xs ys

  pub mem-cross :
      (xs : List A) (ys : List B) {a : A} {b : B}
      → Memᴰ a xs
      → Memᴰ b ys
      → Memᴰ (f a b) (cross xs ys)
  mem-cross [] ys m k = absurd (Memᴰ.not-nil m)
  mem-cross (x ∷ xs) ys {a} {b} (Memᴰ.head e) k =
      Memᴰ.append_left (cross xs ys)
        (subst (λ (y : A). Memᴰ (f a b) (map (f y) ys)) e (Memᴰ.map (f a) k))
  mem-cross (x ∷ xs) ys (Memᴰ.tail m) k = Memᴰ.append_right (map (f x) ys) (mem-cross xs ys m k)

module _ {ℓ} {A : Type ℓ} where
  abbrev pub sum_by : (A → ℕ) → List A → ℕ
  sum_by f [] = 0
  sum_by f (x ∷ xs) = f x + sum_by f xs

  pub sum_by-le : (f g : A → ℕ) (xs : List A) → ((x : A) → f x ≤ g x) → sum_by f xs ≤ sum_by g xs
  sum_by-le f g [] h = omega arith
  sum_by-le f g (x ∷ xs) h = omega (arith, h x, sum_by-le f g xs h)

  pub sum_by-lt :
      (f g : A → ℕ) (xs : List A) {a : A}
      → ((x : A) → f x ≤ g x)
      → Memᴰ a xs
      → f a < g a
      → sum_by f xs < sum_by g xs
  sum_by-lt f g [] h m less = absurd (Memᴰ.not-nil m)
  sum_by-lt f g (x ∷ xs) h (Memᴰ.head e) less =
      omega (arith, subst (λ (y : A). f y < g y) e less, sum_by-le f g xs h)
  sum_by-lt f g (x ∷ xs) h (Memᴰ.tail m) less = omega (arith, h x, sum_by-lt f g xs h m less)

abbrev pub max_of : List ℕ → ℕ
max_of [] = 0
max_of (x ∷ xs) = max x (max_of xs)

pub le-max_of : (xs : List ℕ) {x : ℕ} → Memᴰ x xs → x ≤ max_of xs
le-max_of [] m = absurd (Memᴰ.not-nil m)
le-max_of (y ∷ xs) (Memᴰ.head e) = omega arith
le-max_of (y ∷ xs) (Memᴰ.tail m) = omega (arith, le-max_of xs m)

pub mul-le : (a b k : ℕ) → a ≤ b → a * k ≤ b * k
mul-le a b zero h = omega arith
mul-le a b (suc k) h = omega (arith, mul-le a b k h)
