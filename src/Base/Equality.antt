-- ===== src/Base/Equality.antt =====
-- Python's `==` on the types that the program compares.
use Prim.Native.Nat.{ℕ}
use Prim.Native.String.{String}
use mathlib.Core.Path.{◌≡◌, refl, sym}
use mathlib.Core.Logic.{◌↔◌, ◌≢◌, inl, inr}
use mathlib.Core.Bool.{Bool, true, false, ◌&&◌}
use mathlib.Core.List.{List, [], ◌∷◌}
use text.Mathlib.Text.{◌==◌ as str_eq}
use text.Mathlib.TextEquality.{eq_iff}
use native.Mathlib.Omega.{arith}
use lb_note.Base.Tests.{nat_eq, nat_eq_iff, Bool-cases}

-- A type with a Boolean test that decides its paths.
pub record Eq {ℓ} (T : Type ℓ) : Type ℓ where
  pub same : T → T → Bool
  pub same_iff : (x y : T) → (same x y ≡ true) ↔ (x ≡ y)

module _ {ℓ κ} {T : Type ℓ} {U : Type κ} ⦃e : Eq T⦄ ⦃f : Eq U⦄ where
  abbrev pub pair_eq : T × U → T × U → Bool
  pair_eq (a, b) (c, d) = e.same a c && f.same b d

  pub pair_eq_iff : (p q : T × U) → (pair_eq p q ≡ true) ↔ (p ≡ q)
  pair_eq_iff (a, b) (c, d) = ground (arith, e.same_iff a c, f.same_iff b d)

  instance abbrev pub pair_Eq : Eq (T × U)
  pair_Eq = record { same = pair_eq; same_iff = pair_eq_iff }

module _ {ℓ} {T : Type ℓ} ⦃e : Eq T⦄ where
  abbrev pub list_eq : List T → List T → Bool
  list_eq [] [] = true
  list_eq [] (y ∷ ys) = false
  list_eq (x ∷ xs) [] = false
  list_eq (x ∷ xs) (y ∷ ys) = e.same x y && list_eq xs ys

  pub list_eq_iff : (xs ys : List T) → (list_eq xs ys ≡ true) ↔ (xs ≡ ys)
  list_eq_iff [] [] = (λ h. refl, λ h. refl)
  list_eq_iff [] (y ∷ ys) = (λ h. cc h, λ h. cc h)
  list_eq_iff (x ∷ xs) [] = (λ h. cc h, λ h. cc h)
  list_eq_iff (x ∷ xs) (y ∷ ys) = ground (arith, e.same_iff x y, list_eq_iff xs ys)

  instance abbrev pub list_Eq : Eq (List T)
  list_Eq = record { same = list_eq; same_iff = list_eq_iff }

instance abbrev pub string_Eq : Eq String
string_Eq = record { same = str_eq; same_iff = eq_iff }

instance abbrev pub nat_Eq : Eq ℕ
nat_Eq = record { same = nat_eq; same_iff = nat_eq_iff }

module _ {ℓ} {T : Type ℓ} ⦃i : Eq T⦄ where
  infix 50 ◌==◌
  abbrev pub ◌==◌ : T → T → Bool
  x == y = i.same x y

  pub ==_iff : (x y : T) → ((x == y) ≡ true) ↔ (x ≡ y)
  ==_iff x y = i.same_iff x y

  pub ==_refl : (x : T) → (x == x) ≡ true
  ==_refl x = (i.same_iff x x).1 refl

  -- Different values test as different, in the order that a dict compares them.
  pub ne→beq : (x y : T) → x ≢ y → (y == x) ≡ false
  ne→beq x y ne = elim (Bool-cases (i.same y x)) [
    | inl s ↦ absurd (ne (sym ((i.same_iff y x).0 s)))
    | inr n ↦ n
  ]
