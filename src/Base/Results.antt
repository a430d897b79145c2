-- ===== src/Base/Results.antt =====
-- Errors as values: the sequence of steps that may fail, and what is known where it does not.
use Prim.Native.Nat.{ℕ, suc}
use mathlib.Core.Path.{◌≡◌, refl, ap, ◌∙◌, subst}
use mathlib.Core.Logic.{◌⊎◌, inl, inr}
use mathlib.Core.List.{List, [], ◌∷◌}
use mathlib.Core.Bool.{Bool, true, false, ◌||◌}
use precept.Base.Lists.{All, contains_func}
use precept.Base.Tests.{inr_inj, if◌then◌else◌}

or_false : (b : Bool) → (b || false) ≡ b
or_false true = refl
or_false false = refl

infixl 5 ◌>>=◌
abbrev pub ◌>>=◌ {ℓ κ μ} : {E : Type ℓ} {A : Type κ} {B : Type μ} → E ⊎ A → (A → E ⊎ B) → E ⊎ B
inl wrong >>= f = inl wrong
inr a >>= f = f a

-- `fmt.Errorf` around an error
abbrev pub wrapped {ℓ κ μ} : {E : Type ℓ} {F : Type κ} {A : Type μ} → (E → F) → E ⊎ A → F ⊎ A
wrapped f (inl wrong) = inl (f wrong)
wrapped f (inr a) = inr a

pub >>=-eq_inr {ℓ κ μ} :
    {E : Type ℓ} {A : Type κ} {B : Type μ} (m : E ⊎ A) (f : A → E ⊎ B) {b : B}
    → (m >>= f) ≡ inr b
    → (a : A) × (m ≡ inr a) × (f a ≡ inr b)
>>=-eq_inr (inl wrong) f h = cc
>>=-eq_inr (inr a) f h = (a, refl, h)

pub wrapped-eq_inr {ℓ κ μ} :
    {E : Type ℓ} {F : Type κ} {A : Type μ} (f : E → F) (m : E ⊎ A) {a : A}
    → wrapped f m ≡ inr a
    → m ≡ inr a
wrapped-eq_inr f (inl wrong) h = cc
wrapped-eq_inr f (inr a) h = cc

-- To split on a result and keep the equation.
pub result_cases {ℓ κ} :
    {E : Type ℓ} {A : Type κ} (m : E ⊎ A) → ((e : E) × (m ≡ inl e)) ⊎ ((a : A) × (m ≡ inr a))
result_cases (inl e) = inl (e, refl)
result_cases (inr a) = inr (a, refl)

-- A step on each value of a list, with its index, in order and up to the first error.
unfoldable pub each_from {ℓ κ μ} :
    {E : Type ℓ} {A : Type κ} {B : Type μ} → (ℕ → A → E ⊎ B) → ℕ → List A → E ⊎ List B
each_from f index [] = inr []
each_from f index (a ∷ as') = do b ← f index a; bs ← each_from f (suc index) as'; inr (b ∷ bs)

abbrev pub is_error {ℓ κ} : {E : Type ℓ} {A : Type κ} → E ⊎ A → Bool
is_error (inl wrong) = true
is_error (inr a) = false

pub is_error-wrapped {ℓ κ μ} :
    {E : Type ℓ} {F : Type κ} {A : Type μ} (f : E → F) (m : E ⊎ A)
    → is_error (wrapped f m) ≡ is_error m
is_error-wrapped f (inl wrong) = refl
is_error-wrapped f (inr a) = refl

-- Where a step's failure does not depend on the value before it.
pub is_error->>= {ℓ κ μ} :
    {E : Type ℓ} {A : Type κ} {B : Type μ} (m : E ⊎ A) (f : A → E ⊎ B) (e : Bool)
    → ((a : A) → is_error (f a) ≡ e)
    → is_error (m >>= f) ≡ (is_error m || e)
is_error->>= (inl wrong) f e h = refl
is_error->>= (inr a) f e h = h a

module _ {ℓ κ μ} {E : Type ℓ} {A : Type κ} {B : Type μ} (f : ℕ → A → E ⊎ B) where
  -- The loop fails exactly where one of its steps does.
  pub is_error-each_from :
      (bad : A → Bool)
      → ((i : ℕ) (a : A) → is_error (f i a) ≡ bad a)
      → (index : ℕ) (as' : List A) → is_error (each_from f index as') ≡ contains_func as' bad
  unfolding each_from
  is_error-each_from bad h index [] = refl
  is_error-each_from bad h index (a ∷ as') =
      is_error->>= (f index a) (λ b. each_from f (suc index) as' >>= λ bs. inr (b ∷ bs))
        (contains_func as' bad)
        (λ b.
          is_error->>= (each_from f (suc index) as') (λ bs. inr (b ∷ bs)) false (λ bs. refl)
          ∙ or_false _
          ∙ is_error-each_from bad h (suc index) as')
      ∙ ap (λ e. e || contains_func as' bad) (h index a)

-- What a result has, where it is no error.
abbrev pub Ensures {ℓ κ ν} : {E : Type ℓ} {A : Type κ} → (A → Type ν) → E ⊎ A → Type ν
Ensures P (inl wrong) = Unit
Ensures P (inr a) = P a

pub Ensures-inr {ℓ κ ν} :
    {E : Type ℓ} {A : Type κ} (P : A → Type ν) (m : E ⊎ A) {a : A} → Ensures P m → m ≡ inr a → P a
Ensures-inr P (inl wrong) h e = cc
Ensures-inr P (inr a) h e = subst P (inr_inj e) h

pub Ensures-wrapped {ℓ κ μ ν} :
    {E : Type ℓ} {F : Type κ} {A : Type μ} (P : A → Type ν) (f : E → F) (m : E ⊎ A)
    → Ensures P m
    → Ensures P (wrapped f m)
Ensures-wrapped P f (inl wrong) h = tt
Ensures-wrapped P f (inr a) h = h

pub Ensures->>= {ℓ κ μ ν ξ} :
    {E : Type ℓ} {A : Type κ} {B : Type μ} (Q : A → Type ν) (P : B → Type ξ) (m : E ⊎ A)
    (f : A → E ⊎ B)
    → Ensures Q m
    → ((a : A) → Q a → Ensures P (f a))
    → Ensures P (m >>= f)
Ensures->>= Q P (inl wrong) f h k = tt
Ensures->>= Q P (inr a) f h k = k a h

pub Ensures-each_from {ℓ κ μ ν} :
    {E : Type ℓ} {A : Type κ} {B : Type μ} (P : B → Type ν) (f : ℕ → A → E ⊎ B)
    → ((i : ℕ) (a : A) → Ensures P (f i a))
    → (index : ℕ) (as' : List A) → Ensures (All P) (each_from f index as')
unfolding each_from
Ensures-each_from P f h index [] = tt
Ensures-each_from P f h index (a ∷ as') = Ensures->>= P (All P) (f index a) _ (h index a) (λ b now.
    Ensures->>= (All P) (All P) (each_from f (suc index) as') _
      (Ensures-each_from P f h (suc index) as') (λ bs later. (now, later)))

pub contains_func-All {ℓ} :
    {A : Type ℓ} (p : A → Bool) (xs : List A)
    → All (λ x. p x ≡ false) xs
    → contains_func xs p ≡ false
contains_func-All p [] h = refl
contains_func-All p (x ∷ xs) (now, h) = rw (now, contains_func-All p xs h) refl

pub Ensures-after {ℓ κ μ ν} :
    {E : Type ℓ} {A : Type κ} {B : Type μ} (P : B → Type ν) (m : E ⊎ A) (f : A → E ⊎ B)
    → ((a : A) → Ensures P (f a))
    → Ensures P (m >>= f)
Ensures-after P (inl wrong) f h = tt
Ensures-after P (inr a) f h = h a

pub Ensures-if {ℓ κ ν} :
    {E : Type ℓ} {A : Type κ} (P : A → Type ν) (b : Bool) (m n : E ⊎ A)
    → (b ≡ true → Ensures P m)
    → (b ≡ false → Ensures P n)
    → Ensures P (if b then m else n)
Ensures-if P true m n h k = h refl
Ensures-if P false m n h k = k refl
