-- ===== src/Stt/Scoring/Rows.antt =====
-- `levenshtein` (src/scoring.py) by rows, and the recursion that its table holds.
use lb_note.Base.{
  ℕ, zero, suc, ◌+◌, ◌≡◌, refl, Option, none, some, List, [], ◌∷◌, arith, ◌==◌, Eq, if◌then◌else◌,
  length, min, ap, ◌∙◌,
}

-- `prev[j]`; `none` is an `IndexError`.
abbrev pub at {ℓ} : {A : Type ℓ} → ℕ → List A → Option A
at j [] = none
at zero (x ∷ xs) = some x
at (suc j) (x ∷ xs) = at j xs

-- `range(a, a + n)`.
abbrev pub range : ℕ → ℕ → List ℕ
range a zero = []
range a (suc n) = a ∷ range (suc a) n

module _ {ℓ} {A : Type ℓ} ⦃e : Eq A⦄ where
  abbrev pub cost : A → A → ℕ
  cost a b = if a == b then 0 else 1

  -- The inner loop: `cur[j-1]`, then the row above from `prev[j-1]` on.
  abbrev pub fill : A → ℕ → List ℕ → List A → List ℕ
  fill a left (diag ∷ up ∷ prev) (h ∷ hs) =
      let x = min (min (left + 1) (up + 1)) (diag + cost a h) in x ∷ fill a x (up ∷ prev) hs
  fill a left (diag ∷ up ∷ prev) [] = []
  fill a left (diag ∷ []) hs = []
  fill a left [] hs = []

  -- The outer loop.
  abbrev pub rows : ℕ → List A → List A → List ℕ → List ℕ
  rows i [] hyp prev = prev
  rows i (a ∷ ref) hyp prev = rows (suc i) ref hyp (i ∷ fill a i prev hyp)

  unfoldable pub levenshtein : List A → List A → Option ℕ
  levenshtein [] hyp = some (length hyp)
  levenshtein (a ∷ ref) [] = some (length (a ∷ ref))
  levenshtein (a ∷ ref) (h ∷ hyp) =
      at (length (h ∷ hyp)) (rows 1 (a ∷ ref) (h ∷ hyp) (range 0 (suc (length (h ∷ hyp)))))

  abbrev pub lev : List A → List A → ℕ
  lev [] ys = length ys
  lev (x ∷ xs) [] = length (x ∷ xs)
  lev (x ∷ xs) (y ∷ ys) =
      min (min (lev (x ∷ xs) ys + 1) (lev xs (y ∷ ys) + 1)) (lev xs ys + cost x y)

  abbrev pub onto : List A → List A → List A
  onto [] acc = acc
  onto (x ∷ xs) acc = onto xs (x ∷ acc)

  -- The row of the table below the prefix `P` (read backwards), from the column `Q` on.
  abbrev pub row : List A → List A → List A → List ℕ
  row P Q [] = lev P Q ∷ []
  row P Q (h ∷ hs) = lev P Q ∷ row P (h ∷ Q) hs

  fill-row :
      (a : A) (P Q hs : List A)
      → lev (a ∷ P) Q ∷ fill a (lev (a ∷ P) Q) (row P Q hs) hs ≡ row (a ∷ P) Q hs
  fill-row a P Q [] = refl
  fill-row a P Q (h ∷ []) = refl
  fill-row a P Q (h ∷ k ∷ hs) = ap (λ r. lev (a ∷ P) Q ∷ r) (fill-row a P (h ∷ Q) (k ∷ hs))

  first_row : (Q hs : List A) → range (length Q) (suc (length hs)) ≡ row [] Q hs
  first_row Q [] = refl
  first_row Q (h ∷ hs) = ap (λ r. length Q ∷ r) (first_row (h ∷ Q) hs)

  rows-row :
      (P ref hyp : List A) → rows (suc (length P)) ref hyp (row P [] hyp) ≡ row (onto ref P) [] hyp
  rows-row P [] hyp = refl
  rows-row P (a ∷ ref) hyp = rw (fill-row a P [] hyp) (rows-row (a ∷ P) ref hyp)

  at-row : (P Q hs : List A) → at (length hs) (row P Q hs) ≡ some (lev P (onto hs Q))
  at-row P Q [] = refl
  at-row P Q (h ∷ hs) = at-row P (h ∷ Q) hs

  pub lev_nil : (P : List A) → lev P [] ≡ length P
  lev_nil [] = refl
  lev_nil (x ∷ P) = refl

  length-onto : (xs ys : List A) → length (onto xs ys) ≡ length xs + length ys
  length-onto [] ys = omega arith
  length-onto (x ∷ xs) ys = omega (arith, length-onto xs (x ∷ ys))

  -- The rows hold the recursion on the prefixes, read backwards.
  pub levenshtein-lev :
      (ref hyp : List A) → levenshtein ref hyp ≡ some (lev (onto ref []) (onto hyp []))
  unfolding levenshtein
  levenshtein-lev [] hyp = ap some (omega (arith, length-onto hyp []))
  levenshtein-lev (a ∷ ref) [] =
      ap some (rw (lev_nil (onto (a ∷ ref) [])) (omega (arith, length-onto (a ∷ ref) [])))
  levenshtein-lev (a ∷ ref) (h ∷ hyp) =
      ap (λ r. at (length (h ∷ hyp)) (rows 1 (a ∷ ref) (h ∷ hyp) r)) (first_row [] (h ∷ hyp))
      ∙ ap (at (length (h ∷ hyp))) (rows-row [] (a ∷ ref) (h ∷ hyp))
      ∙ at-row (onto (a ∷ ref) []) [] (h ∷ hyp)
