-- ===== src/Stt/Scoring/Rates.antt =====
-- `wer` and `cer` of src/scoring.py, on the tokens and the characters of the texts. A quotient is kept
-- as its numerator and its denominator.
use lb_note.Base.{
  ℕ, ◌≡◌, ◌≢◌, max, ◌≤◌, ◌↔◌, refl, Option, none, some, List, [], ◌∷◌, arith, ◌==◌, ==_iff, ==_refl,
  Eq, nat_Eq, length, ap₂, subst, select, not, Bool-cases, inl, inr,
}
use lb_note.Stt.Scoring.Rows.{levenshtein}
use lb_note.Stt.Scoring.Scripts.{
  Script, Script.done, Script.replace, Script.insert, Script.remove, levenshtein_cheapest,
}

abbrev pub over : ℕ → Option ℕ → Option (ℕ × ℕ)
over n none = none
over n (some d) = some (d, n)

zero_of : (d : ℕ) → d ≤ 0 → d ≡ 0
zero_of d h = omega arith

module _ {ℓ} {A : Type ℓ} ⦃e : Eq A⦄ where
  -- An empty reference counts as all right or all wrong.
  abbrev pub rate : List A → List A → Option (ℕ × ℕ)
  rate [] [] = some (0, 1)
  rate [] (h ∷ hyp) = some (1, 1)
  rate (a ∷ ref) hyp = over (length (a ∷ ref)) (levenshtein (a ∷ ref) hyp)

  unfoldable pub wer : List A → List A → Option (ℕ × ℕ)
  wer ref hyp = rate ref hyp

  free-same : {xs ys : List A} {n : ℕ} → Script xs ys n → n ≡ 0 → xs ≡ ys
  free-same done z = refl
  free-same (replace x y s) z = elim (Bool-cases (x == y)) [
    | inl same ↦ ap₂ (λ a l. a ∷ l) ((==_iff x y).0 same) (free-same s (omega arith))
    | inr differ ↦ absurd (omega (arith, rw differ at z))
  ]
  free-same (insert y s) z = absurd (omega arith)
  free-same (remove x s) z = absurd (omega arith)

  free : (xs : List A) → Script xs xs 0
  free [] = done
  free (x ∷ xs) =
      subst (λ k. Script (x ∷ xs) (x ∷ xs) k) (rw (==_refl x) (omega arith)) (replace x x (free xs))

  -- The word error rate is always a quotient whose denominator is the number of words of the reference,
  -- or 1 where it has none, so that it is never zero; its numerator is zero exactly when the two texts
  -- have the same words in the same order, and is their distance when the reference has words.
  pub wer_zero :
      (ref hyp : List A)
      → (d n : ℕ) × (wer ref hyp ≡ some (d, n))
        × (n ≡ max 1 (length ref))
        × ((d ≡ 0) ↔ (ref ≡ hyp))
        × (ref ≢ [] → levenshtein ref hyp ≡ some d)
  unfolding wer
  wer_zero [] [] = (0, 1, refl, refl, (λ z. refl, λ q. refl), λ q. absurd (q refl))
  wer_zero [] (h ∷ hyp) =
      (1, 1, refl, refl, (λ z. absurd (omega (arith, z)), λ q. cc q), λ q. absurd (q refl))
  wer_zero (a ∷ ref) hyp =
      let (d, p, script, least) = levenshtein_cheapest (a ∷ ref) hyp in
      (
        d,
        length (a ∷ ref),
        rw p refl,
        ground arith,
        (
          λ z. free-same script z,
          λ q. zero_of d (least 0 (subst (λ y. Script (a ∷ ref) y 0) q (free (a ∷ ref)))),
        ),
        λ q. p,
      )

-- `cer`: the characters without the spaces.
unfoldable pub cer : List ℕ → List ℕ → Option (ℕ × ℕ)
cer ref hyp = rate (select (λ c. not (c == 32)) ref) (select (λ c. not (c == 32)) hyp)
