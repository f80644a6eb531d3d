-- ===== src/Base/Sets.antt =====
-- Lists as sets: membership by the test of equality.
use mathlib.Core.Path.{◌≡◌, refl, sym, ◌∙◌}
use mathlib.Core.Logic.{inl, inr}
use mathlib.Core.Bool.{Bool, true, false, ◌||◌}
use mathlib.Core.List.{List, [], ◌∷◌}
use native.Mathlib.Omega.{arith}
use lb_note.Base.Tests.{if◌then◌else◌, Bool-cases, true≢false}
use lb_note.Base.Equality.{Eq, ==_refl, ◌==◌}
use lb_note.Base.Lists.{All, All-map, select}

module _ {ℓ} {T : Type ℓ} ⦃e : Eq T⦄ where
  -- `x in xs`.
  abbrev pub is_in : T → List T → Bool
  is_in x [] = false
  is_in x (y ∷ ys) = (x == y) || is_in x ys

  -- The elements of a set, each once.
  abbrev pub distinct : List T → List T
  distinct [] = []
  distinct (x ∷ xs) = let rest = distinct xs in if is_in x xs then rest else x ∷ rest

  pub All-distinct {κ} : (P : T → Type κ) (xs : List T) → All P xs → All P (distinct xs)
  All-distinct P [] h = tt
  All-distinct P (x ∷ xs) h = elim (Bool-cases (is_in x xs)) [
    | inl y ↦ rw y (All-distinct P xs h.1)
    | inr n ↦ rw n (h.0, All-distinct P xs h.1)
  ]

  pub is_in-cons : (x y : T) (ys : List T) → is_in x ys ≡ true → is_in x (y ∷ ys) ≡ true
  is_in-cons x y ys h = ground arith

  pub is_in_first : (x : T) (ys : List T) → is_in x (x ∷ ys) ≡ true
  is_in_first x ys = rw (==_refl x) refl

  -- What passes the stronger filter is among what passes the weaker one.
  pub select-select_in :
      (p q : T → Bool) (xs : List T)
      → ((x : T) → p x ≡ true → q x ≡ true)
      → All (λ x. is_in x (select q xs) ≡ true) (select p xs)
  select-select_in p q [] imp = tt
  select-select_in p q (x ∷ xs) imp = elim (Bool-cases (q x)) [
    | inl y ↦ elim (Bool-cases (p x)) [
      | inl py ↦
          rw (y, py)
            (is_in_first x (select q xs), weaker (select p xs) (select-select_in p q xs imp))
      | inr pn ↦ rw (y, pn) (weaker (select p xs) (select-select_in p q xs imp))
    ]
    | inr n ↦ elim (Bool-cases (p x)) [
      | inl py ↦ absurd (true≢false (sym (imp x py) ∙ n))
      | inr pn ↦ rw (n, pn) (select-select_in p q xs imp)
    ]
  ]
    where
      weaker :
          (zs : List T)
          → All (λ z. is_in z (select q xs) ≡ true) zs
          → All (λ z. is_in z (x ∷ select q xs) ≡ true) zs
      weaker zs =
          All-map (λ z. is_in z (select q xs) ≡ true) _ zs (λ z h. is_in-cons z x (select q xs) h)
