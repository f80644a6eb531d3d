-- ===== src/Web/Auth/Limits.antt =====
-- The glossary stays within its bounds (src/web/auth.py).
use lb_note.Base.{
  ℕ, suc, ◌≤◌, ◌≡◌, refl, sym, ap, subst, leb→lt, ◌∙◌, Option, none, some, Bool, true, false, not,
  ◌||◌, ◌&&◌, List, [], ◌∷◌, arith, if◌then◌else◌, leb, ◌==◌, ==_iff, ==_refl, nat_Eq, list_Eq,
  pair_Eq, length, map, is_in, All, Bool-cases, inl, inr,
}
use lb_note.Base.Dict.{get?, put, remove, contains}
use lb_note.Base.Chars.{Chars, strip, is_empty}
use lb_note.Web.Auth.Secrets.{Outcome, returns, raises, and_then}
use lb_note.Web.Auth.Glossary.{
  Slot, Owner, Term, Terms, max_terms, norm_scope, rows, source_of, sources, written, too_long,
  upsert_under, upsert_glossary_term, delete_glossary_term, Edit, upserts, deletes, after,
  after_delete, edited,
}

-- A row's texts are neither empty nor too long.
abbrev pub fits : Slot × Term → Bool
fits ((who, source), t) =
    not (is_empty source)
    && not (too_long source)
    && not (is_empty t.target)
    && not (too_long t.target)

abbrev pub Within : Terms → Type 0
Within d = ((who : Owner) → length (rows who d) ≤ max_terms) × All (λ row. fits row ≡ true) d

length-map {ℓ κ} :
    {A : Type ℓ} {B : Type κ} (f : A → B) (xs : List A) → length (map f xs) ≡ length xs
length-map f [] = refl
length-map f (x ∷ xs) = ap suc (length-map f xs)

-- A row that is written over changes the count of no scope and owner, a new one that of its own only.
rows-put :
    (w who : Owner) (source : Chars) (t : Term) (d : Terms)
    → length (rows w (put (who, source) t d)) ≡ (
        if contains (who, source) d
        then length (rows w d)
        else (if who == w then suc (length (rows w d)) else length (rows w d)))
unfolding put get?
rows-put w who source t [] = ground arith
rows-put w who source t ((k, u) ∷ d) =
    ground (arith, rows-put w who source t d, ==_iff k (who, source))

contains-sources :
    (who : Owner) (source : Chars) (d : Terms)
    → contains (who, source) d ≡ is_in source (sources who d)
unfolding get?
contains-sources who source [] = refl
contains-sources who source (((w, s), u) ∷ d) =
    ground (arith, contains-sources who source d, ==_iff w who, ==_iff s source, ==_iff source s)

rows-remove : (w : Owner) (k : Slot) (d : Terms) → length (rows w (remove k d)) ≤ length (rows w d)
unfolding remove
rows-remove w k [] = omega arith
rows-remove w k ((j, u) ∷ d) = ground (arith, rows-remove w k d)

All-put :
    (k : Slot) (t : Term) (d : Terms)
    → ((j : Slot) → (j == k) ≡ true → fits (j, t) ≡ true)
    → All (λ row. fits row ≡ true) d
    → All (λ row. fits row ≡ true) (put k t d)
unfolding put
All-put k t [] f h = (f k (==_refl k), tt)
All-put k t ((j, u) ∷ d) f h = elim (Bool-cases (j == k)) [
  | inl y ↦ rw y (f j y, h.1)
  | inr n ↦ rw n (h.0, All-put k t d f h.1)
]

All-remove :
    (k : Slot) (d : Terms)
    → All (λ row. fits row ≡ true) d
    → All (λ row. fits row ≡ true) (remove k d)
unfolding remove
All-remove k [] h = tt
All-remove k ((j, u) ∷ d) h = elim (Bool-cases (j == k)) [
  | inl y ↦ rw y (All-remove k d h.1)
  | inr n ↦ rw n (h.0, All-remove k d h.1)
]

not_full : (b c : Bool) → (not b && c) ≡ false → b ≡ false → c ≡ false
not_full b c h k = ground arith

put_room :
    (w who : Owner) (source : Chars) (t : Term) (d : Terms)
    → ((v : Owner) → length (rows v d) ≤ max_terms)
    → (not (is_in source (sources who d)) && leb max_terms (length (sources who d))) ≡ false
    → length (rows w (put (who, source) t d)) ≤ max_terms
put_room w who source t d few q = elim (Bool-cases (contains (who, source) d)) [
  | inl y ↦ rw (rows-put w who source t d, y) (few w)
  | inr n ↦ elim (Bool-cases (who == w)) [
    | inl same ↦
        rw (rows-put w who source t d, n, same, sym ((==_iff who w).0 same))
          (leb→lt max_terms (length (rows who d)) (
            rw (sym (length-map source_of (rows who d)))
              (not_full _ _ q (sym (contains-sources who source d) ∙ n))))
    | inr other ↦ rw (rows-put w who source t d, n, other) (few w)
  ]
]

written_fits :
    (now : ℕ) (who : Owner) (source target : Chars) (by : Option Chars) (o : Option Term)
    → (is_empty source || is_empty target) ≡ false
    → (too_long source || too_long target) ≡ false
    → fits ((who, source), written now target by o) ≡ true
written_fits now who source target by none n m = ground arith
written_fits now who source target by (some t) n m = ground arith

upsert_under-Within :
    (now : ℕ) (source target : Chars) (by : Option Chars) (d : Terms) (who : Owner)
    → Within d
    → Within (after (upsert_under now source target by d d who) d)
upsert_under-Within now source target by d who (few, fit) =
    elim (Bool-cases (is_empty source || is_empty target)) [
      | inl y ↦ rw y (few, fit)
      | inr n ↦ elim (Bool-cases (too_long source || too_long target)) [
        | inl y ↦ rw (n, y) (few, fit)
        | inr m ↦
            elim (Bool-cases
              (not (is_in source (sources who d)) && leb max_terms (length (sources who d)))) [
                | inl y ↦ rw (n, m, y) (few, fit)
                | inr q ↦
                    rw (n, m, q)
                      (
                        λ w. put_room w who source _ d few q,
                        All-put (who, source) _ d
                            (λ j e.
                              subst
                                (λ k. fits (k, written now target by (get? (who, source) d)) ≡ true)
                                (sym ((==_iff j (who, source)).0 e))
                                (written_fits now who source target by (get? (who, source) d) n m))
                            fit,
                      )
              ]
      ]
    ]

after-Within :
    (m : Outcome Owner) (f : Owner → Outcome Terms) (d : Terms)
    → Within d
    → ((who : Owner) → Within (after (f who) d))
    → Within (after (and_then m f) d)
after-Within (returns who) f d h g = g who
after-Within (raises e) f d h g = h

after_delete-Within :
    (m : Outcome Owner) (source : Chars) (d : Terms)
    → Within d
    → Within (
        after_delete
          (and_then m (λ who. returns (contains (who, source) d, remove (who, source) d)))
          d)
after_delete-Within (returns who) source d (few, fit) =
    (λ w. omega (arith, rows-remove w (who, source) d, few w), All-remove (who, source) d fit)
after_delete-Within (raises e) source d h = h

edited-Within : (es : List Edit) (d : Terms) → Within d → Within (edited es d)
unfolding edited upsert_glossary_term delete_glossary_term
edited-Within [] d h = h
edited-Within (upserts now scope owner source target by ∷ es) d h = edited-Within es _ (
    after-Within (norm_scope scope owner) _ d h
      (λ who. upsert_under-Within now (strip source) (strip target) by d who h))
edited-Within (deletes scope owner source ∷ es) d h =
    edited-Within es _ (after_delete-Within (norm_scope scope owner) (strip source) d h)

-- Whatever is added, changed and deleted, one change after another, each scope and owner has at most 200 terms, and no text in the
-- glossary is empty or longer than 40 characters.
pub glossary_bounds : (es : List Edit) → Within (edited es [])
glossary_bounds es = edited-Within es [] (λ who. omega arith, tt)
