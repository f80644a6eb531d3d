-- ===== src/Postprocess/Content.antt =====
-- What `content_preserved` of src/postprocess/validate.py lets through, word by word.
use lb_note.Base.{
  is_in, is_in_first, distinct, ◌≡◌, ◌≤◌, refl, sym, ap, subst, ◌∙◌, Bool, true, false, not, ◌&&◌,
  List, [], ◌∷◌, arith, if◌then◌else◌, select, length, length-select, ==_iff, ◌==◌, Bool-cases, inl,
  inr, nat_Eq, list_Eq, true≢false, Eq,
}
use lb_note.Base.Chars.{Chars, is_empty}
use lb_note.Postprocess.Tokens.{tokens, is_number, occurs}
use lb_note.Postprocess.Validate.{
  less, share, present_terms, original_numbers, excused_digits, glossary_terms_preserved,
  number_tokens_preserved, content_preserved,
}

-- Every term of the glossary that stands in the original stands in the cleaned text.
abbrev pub KeepsTerms : List Chars → Chars → Chars → Type 0
KeepsTerms terms original cleaned =
    (t : Chars)
    → is_in t terms ≡ true
    → is_empty t ≡ false
    → occurs t original ≡ true
    → occurs t cleaned ≡ true

-- Every number of the original, but for the digits that a known mishearing explains, is a number of the
-- cleaned text.
abbrev pub KeepsNumbers : Chars → Chars → Type 0
KeepsNumbers original cleaned =
    (t : Chars)
    → is_in t (tokens original) ≡ true
    → is_number t ≡ true
    → is_in t (excused_digits original cleaned) ≡ false
    → is_in t (tokens cleaned) ≡ true

module _ {ℓ} {A : Type ℓ} ⦃e : Eq A⦄ where
  select_fewer : (p : A → Bool) (xs : List A) → length (select p xs) ≤ length xs
  select_fewer p xs = omega (arith, length-select p xs)

  -- A filter that drops nothing lets every item through.
  select_full :
      (p : A → Bool) (xs : List A)
      → length xs ≤ length (select p xs)
      → (t : A) → is_in t xs ≡ true
      → p t ≡ true
  select_full p [] h t i = absurd (true≢false (sym i))
  select_full p (x ∷ xs) h t i = elim (Bool-cases (p x)) [
    | inl y ↦ elim (Bool-cases (t == x)) [
      | inl s ↦ ap p ((==_iff t x).0 s) ∙ y
      | inr n ↦ select_full p xs (let h' = rw y at h in omega arith) t (rw n at i)
    ]
    | inr n ↦ let h' = rw n at h in absurd (omega (arith, select_fewer p xs, h'))
  ]

  is_in-select :
      (p : A → Bool) (t : A) (xs : List A)
      → is_in t xs ≡ true
      → p t ≡ true
      → is_in t (select p xs) ≡ true
  is_in-select p t [] i h = i
  is_in-select p t (x ∷ xs) i h = elim (Bool-cases (t == x)) [
    | inl s ↦ rw (sym (ap p ((==_iff t x).0 s)) ∙ h) (
        subst (λ y. is_in t (y ∷ select p xs) ≡ true) ((==_iff t x).0 s)
          (is_in_first t (select p xs)))
    | inr n ↦ elim (Bool-cases (p x)) [
      | inl y ↦ rw (y, n) (is_in-select p t xs (rw n at i) h)
      | inr m ↦ rw m (is_in-select p t xs (rw n at i) h)
    ]
  ]

  is_in_selected :
      (p : A → Bool) (t : A) (xs : List A) → is_in t (select p xs) ≡ true → is_in t xs ≡ true
  is_in_selected p t [] i = i
  is_in_selected p t (x ∷ xs) i = elim (Bool-cases (t == x)) [
    | inl s ↦ rw s refl
    | inr n ↦ elim (Bool-cases (p x)) [
      | inl y ↦ rw n (is_in_selected p t xs (rw (y, n) at i))
      | inr m ↦ rw n (is_in_selected p t xs (rw m at i))
    ]
  ]

  is_in-distinct : (t : A) (xs : List A) → is_in t xs ≡ true → is_in t (distinct xs) ≡ true
  is_in-distinct t [] i = i
  is_in-distinct t (x ∷ xs) i = elim (Bool-cases (t == x)) [
    | inl s ↦ elim (Bool-cases (is_in x xs)) [
      | inl y ↦ rw y (is_in-distinct t xs (ap (λ y. is_in y xs) ((==_iff t x).0 s) ∙ y))
      | inr n ↦ rw (n, s) refl
    ]
    | inr d ↦ elim (Bool-cases (is_in x xs)) [
      | inl y ↦ rw y (is_in-distinct t xs (rw d at i))
      | inr n ↦ rw (n, d) (is_in-distinct t xs (rw d at i))
    ]
  ]

full :
    (p : Chars → Bool) (xs : List Chars)
    → less (share (select p xs) xs) (1, 1) ≡ false
    → length xs ≤ length (select p xs)
full p [] h = omega arith
full p (x ∷ xs) h = ground arith

parts :
    (b c : Bool)
    → (if b then false else (if c then false else true)) ≡ true
    → (b ≡ false) × (c ≡ false)
parts b c h = (ground arith, ground arith)

-- The check passes only a text that keeps the terms and the numbers.
pub content_preserved-Keeps :
    (original cleaned : Chars) (terms : List Chars)
    → content_preserved original cleaned terms ≡ true
    → KeepsTerms terms original cleaned × KeepsNumbers original cleaned
unfolding content_preserved glossary_terms_preserved number_tokens_preserved
content_preserved-Keeps original cleaned terms h =
    let (g, n) = parts _ _ h in
    let present = present_terms original terms in
    let numbers = original_numbers original cleaned in
    (
      λ t i e o.
          select_full (λ u. occurs u cleaned) present (full (λ u. occurs u cleaned) present g) t
            (is_in-select (λ u. not (is_empty u) && occurs u original) t terms i (rw (e, o) refl)),
      λ t i d x. is_in_selected is_number t (tokens cleaned) (
          select_full (λ u. is_in u (select is_number (tokens cleaned))) numbers
            (full (λ u. is_in u (select is_number (tokens cleaned))) numbers n) t
            (is_in-distinct t _ (
              is_in-select (λ u. is_number u && not (is_in u (excused_digits original cleaned))) t
                (tokens original) i (rw (d, x) refl)))),
    )
