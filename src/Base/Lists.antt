-- ===== src/Base/Lists.antt =====
-- Lists measured by native numbers, under the library's names, and predicates over their items.
use Prim.Native.Nat.{ℕ, zero, suc, ◌+◌}
use mathlib.Core.Path.{◌≡◌, refl}
use mathlib.Core.Bool.{Bool, true, not}
use mathlib.Core.List.{List, [], ◌∷◌, ◌++◌}
use native.Mathlib.Omega.{arith}
use lb_note.Base.Tests.{if◌then◌else◌, Bool-cases}
use mathlib.Core.Logic.{inl, inr}

module _ {ℓ} {A : Type ℓ} where
  abbrev pub length : List A → ℕ
  length [] = 0
  length (x ∷ xs) = suc (length xs)

  abbrev pub take : ℕ → List A → List A
  take zero xs = []
  take (suc n) [] = []
  take (suc n) (x ∷ xs) = x ∷ take n xs

  abbrev pub drop : ℕ → List A → List A
  drop zero xs = xs
  drop (suc n) [] = []
  drop (suc n) (x ∷ xs) = drop n xs

  pub length-append : (xs ys : List A) → length (xs ++ ys) ≡ length xs + length ys
  length-append [] ys = omega arith
  length-append (x ∷ xs) ys = omega (arith, length-append xs ys)

-- The items that pass a Boolean test, in order: a list comprehension, or a WHERE clause.
abbrev pub select {ℓ} : {A : Type ℓ} → (A → Bool) → List A → List A
select p [] = []
select p (x ∷ xs) = if p x then x ∷ select p xs else select p xs

-- Every item has the property.
abbrev pub All {ℓ κ} : {T : Type ℓ} → (T → Type κ) → List T → Type κ
All Holds [] = Unit
All Holds (first ∷ rest) = Holds first × All Holds rest

pub All-append {ℓ κ} :
    {T : Type ℓ} (Holds : T → Type κ) (some_items more : List T)
    → All Holds some_items
    → All Holds more
    → All Holds (some_items ++ more)
All-append Holds [] more h k = k
All-append Holds (first ∷ rest) more h k = (h.0, All-append Holds rest more h.1 k)

pub All-map {ℓ κ μ} :
    {A : Type ℓ} (P : A → Type κ) (Q : A → Type μ) (xs : List A)
    → ((a : A) → P a → Q a)
    → All P xs
    → All Q xs
All-map P Q [] f h = tt
All-map P Q (x ∷ xs) f h = (f x h.0, All-map P Q xs f h.1)

pub All-of {ℓ κ} : {A : Type ℓ} (P : A → Type κ) (xs : List A) → ((a : A) → P a) → All P xs
All-of P [] f = tt
All-of P (x ∷ xs) f = (f x, All-of P xs f)

pub All-select {ℓ κ} :
    {A : Type ℓ} (P : A → Type κ) (p : A → Bool) (xs : List A) → All P xs → All P (select p xs)
All-select P p [] h = tt
All-select P p (x ∷ xs) h = elim (Bool-cases (p x)) [
  | inl y ↦ rw y (h.0, All-select P p xs h.1)
  | inr n ↦ rw n (All-select P p xs h.1)
]

-- What a filter keeps passes its test.
pub All-select_test {ℓ} :
    {A : Type ℓ} (q : A → Bool) (xs : List A) → All (λ b. q b ≡ true) (select q xs)
All-select_test q [] = tt
All-select_test q (x ∷ xs) = elim (Bool-cases (q x)) [
  | inl y ↦ rw y (y, All-select_test q xs)
  | inr n ↦ rw n (All-select_test q xs)
]

pub select-append {ℓ} :
    {A : Type ℓ} (p : A → Bool) (xs ys : List A) → select p (xs ++ ys) ≡ select p xs ++ select p ys
select-append p [] ys = refl
select-append p (x ∷ xs) ys = ground (arith, select-append p xs ys)

-- A filter that keeps what a query asks for does not change its answer.
pub select-select {ℓ} :
    {A : Type ℓ} (p q : A → Bool) (xs : List A)
    → All (λ c. p c ≡ true → q c ≡ true) xs
    → select p (select q xs) ≡ select p xs
select-select p q [] h = refl
select-select p q (x ∷ xs) h = ground (arith, h.0, select-select p q xs h.1)

pub select-All {ℓ} :
    {A : Type ℓ} (q : A → Bool) (xs : List A) → All (λ c. q c ≡ true) xs → select q xs ≡ xs
select-All q [] h = refl
select-All q (x ∷ xs) h = rw (h.0, select-All q xs h.1)

-- The two halves of a split by a test have the length of the whole.
pub length-select {ℓ} :
    {A : Type ℓ} (q : A → Bool) (xs : List A)
    → length (select q xs) + length (select (λ b. not (q b)) xs) ≡ length xs
length-select q [] = refl
length-select q (x ∷ xs) = elim (Bool-cases (q x)) [
  | inl y ↦ rw y (omega (arith, length-select q xs))
  | inr n ↦ rw n (omega (arith, length-select q xs))
]
