-- ===== src/Stt/Scoring/Scripts.antt =====
-- What `levenshtein` (src/scoring.py) measures: the cheapest script of edits.
use lb_note.Base.{
  ℕ, ◌+◌, ◌≡◌, ◌≤◌, refl, some, List, [], ◌∷◌, ◌++◌, arith, Eq, ◌∙◌, subst, sym, min, ◌⊎◌, inl, inr,
}
use lb_note.Stt.Scoring.Rows.{cost, levenshtein, lev, onto, levenshtein-lev, lev_nil}
use mathlib.Core.List.{append-nil}

min_cases : (a b c : ℕ) → (min (min a b) c ≡ a) ⊎ ((min (min a b) c ≡ b) ⊎ (min (min a b) c ≡ c))
min_cases a b c = ground arith

module _ {ℓ} {A : Type ℓ} ⦃e : Eq A⦄ where
  -- The edits that turn the first list into the second, with what they cost.
  pub data Script : List A → List A → ℕ → Type ℓ where
    done : Script [] [] 0
    replace :
        (x y : A) {xs ys : List A} {n : ℕ}
        → Script xs ys n
        → Script (x ∷ xs) (y ∷ ys) (n + cost x y)
    insert : (y : A) {xs ys : List A} {n : ℕ} → Script xs ys n → Script xs (y ∷ ys) (n + 1)
    remove : (x : A) {xs ys : List A} {n : ℕ} → Script xs ys n → Script (x ∷ xs) ys (n + 1)

  lev_cons : (xs ys : List A) (y : A) → lev xs (y ∷ ys) ≤ lev xs ys + 1
  lev_cons [] ys y = omega arith
  lev_cons (x ∷ xs) ys y = omega arith

  lev_cons_left : (x : A) (xs ys : List A) → lev (x ∷ xs) ys ≤ lev xs ys + 1
  lev_cons_left x [] [] = omega arith
  lev_cons_left x (z ∷ xs) [] = omega arith
  lev_cons_left x xs (y ∷ ys) = omega arith

  lev-least : {xs ys : List A} {n : ℕ} → Script xs ys n → lev xs ys ≤ n
  lev-least done = omega arith
  lev-least (replace x y s) = omega (arith, lev-least s)
  lev-least (insert y {xs = xs} {ys = ys} s) = omega (arith, lev-least s, lev_cons xs ys y)
  lev-least (remove x {xs = xs} {ys = ys} s) = omega (arith, lev-least s, lev_cons_left x xs ys)

  lev-Script : (xs ys : List A) → Script xs ys (lev xs ys)
  lev-Script [] [] = done
  lev-Script [] (y ∷ ys) =
      subst (λ k. Script [] (y ∷ ys) k) (omega arith) (insert y (lev-Script [] ys))
  lev-Script (x ∷ xs) [] =
      subst (λ k. Script (x ∷ xs) [] k) (omega (arith, lev_nil xs)) (remove x (lev-Script xs []))
  lev-Script (x ∷ xs) (y ∷ ys) =
      let script = λ (k : ℕ). Script (x ∷ xs) (y ∷ ys) k in
      elim (min_cases (lev (x ∷ xs) ys + 1) (lev xs (y ∷ ys) + 1) (lev xs ys + cost x y)) [
        | inl p ↦ subst script (sym p) (insert y (lev-Script (x ∷ xs) ys))
        | inr (inl p) ↦ subst script (sym p) (remove x (lev-Script xs (y ∷ ys)))
        | inr (inr p) ↦ subst script (sym p) (replace x y (lev-Script xs ys))
      ]

  -- A script read from the end is a script of the lists read from the end.
  Script-onto :
      {xs ys us vs : List A} {m n k : ℕ}
      → Script xs ys m
      → Script us vs n
      → k ≡ m + n
      → Script (onto xs us) (onto ys vs) k
  Script-onto {us = us} {vs = vs} done t e = subst (λ k. Script us vs k) (omega arith) t
  Script-onto (replace x y s) t e = Script-onto s (replace x y t) (omega arith)
  Script-onto (insert y s) t e = Script-onto s (insert y t) (omega arith)
  Script-onto (remove x s) t e = Script-onto s (remove x t) (omega arith)

  onto-onto : (xs ys zs : List A) → onto (onto xs ys) zs ≡ onto ys (xs ++ zs)
  onto-onto [] ys zs = refl
  onto-onto (x ∷ xs) ys zs = onto-onto xs (x ∷ ys) zs

  onto_twice : (xs : List A) → onto (onto xs []) [] ≡ xs
  onto_twice xs = onto-onto xs [] [] ∙ append-nil xs

  -- `levenshtein` returns the cost of a script of edits that turns the reference into the hypothesis,
  -- and no script costs less.
  pub levenshtein_cheapest :
      (ref hyp : List A)
      → (d : ℕ) × (levenshtein ref hyp ≡ some d)
        × Script ref hyp d
        × ((n : ℕ) → Script ref hyp n → d ≤ n)
  levenshtein_cheapest ref hyp = (
    lev (onto ref []) (onto hyp []),
    levenshtein-lev ref hyp,
    subst (λ xs. Script xs hyp (lev (onto ref []) (onto hyp []))) (onto_twice ref)
        (subst (λ ys. Script (onto (onto ref []) []) ys (lev (onto ref []) (onto hyp [])))
          (onto_twice hyp)
          (Script-onto (lev-Script (onto ref []) (onto hyp [])) done (omega arith))),
    λ n s. lev-least (Script-onto s done (omega arith)),
  )
