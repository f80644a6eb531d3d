-- ===== src/Web/Store/Rows.antt =====
-- Which rows the queries on `meeting_backup` (src/web/store.py) find after a row is added or
-- rows are deleted.
use lb_note.Base.{
  ℕ, ◌<◌, ◌≡◌, refl, ap, subst, ◌∙◌, ◌⊎◌, inl, inr, some, Bool, true, false, not, List, [], ◌∷◌,
  ◌++◌, String, arith, ◌==◌, nat_Eq, string_Eq, ==_iff, All, All-map, select, Bool-cases, &&_right,
  ltb, Option-cases,
}
use lb_note.Web.Store.Tables.{is_original, Backup, of_meeting, undoable, original_of, newer, latest}
use lb_note.Web.Store.Valid.{IsOrdered}

-- A row with the greatest id is the one that `ORDER BY id DESC LIMIT 1` returns.
pub latest-snoc :
    (xs : List Backup) (b : Backup)
    → All (λ (c : Backup). c.id < b.id) xs
    → latest (xs ++ b ∷ []) ≡ some b
unfolding latest
latest-snoc [] b h = refl
latest-snoc (x ∷ xs) b h = rw (latest-snoc xs b h.1) (newer_lt x b h.0)
  where
    newer_lt : (a c : Backup) → a.id < c.id → newer a (some c) ≡ some c
    newer_lt a c l = ground arith

-- The rows of a list, one by one.
abbrev pub In : Backup → List Backup → Type 0
In b [] = ⊥
In b (x ∷ xs) = (x ≡ b) ⊎ In b xs

latest-In : (xs : List Backup) (b : Backup) → latest xs ≡ some b → In b xs
unfolding latest
latest-In [] b h = cc
latest-In (x ∷ xs) b h = elim (Option-cases (latest xs)) [
  | inl e ↦ inl (some_injective (rw e at h))
  | inr (c, e) ↦ elim (Bool-cases (ltb c.id x.id)) [
    | inl y ↦ inl (some_injective (rw (e, y) at h))
    | inr n ↦ inr (latest-In xs b (e ∙ rw (e, n) at h))
  ]
]
  where
    some_injective : {y z : Backup} → some y ≡ some z → y ≡ z
    some_injective i = cc i

In-select :
    (p : Backup → Bool) (b : Backup) (xs : List Backup)
    → In b (select p xs)
    → In b xs × (p b ≡ true)
In-select p b [] h = absurd h
In-select p b (x ∷ xs) h = elim (Bool-cases (p x)) [
  | inl y ↦ hit (rw y at h) y (In-select p b xs)
  | inr n ↦ (inr (In-select p b xs (rw n at h)).0, (In-select p b xs (rw n at h)).1)
]
  where
    hit :
        In b (x ∷ select p xs)
        → p x ≡ true
        → (In b (select p xs) → In b xs × (p b ≡ true))
        → In b (x ∷ xs) × (p b ≡ true)
    hit (inl e) y f = (inl e, subst (λ z. p z ≡ true) e y)
    hit (inr i) y f = (inr (f i).0, (f i).1)

lt_of_In :
    (n : ℕ) (b : Backup) (xs : List Backup) → In b xs → All (λ (c : Backup). n < c.id) xs → n < b.id
lt_of_In n b [] i h = absurd i
lt_of_In n b (x ∷ xs) (inl e) h = subst (λ (z : Backup). n < z.id) e h.0
lt_of_In n b (x ∷ xs) (inr i) h = lt_of_In n b xs i h.1

-- Rising ids name one row each.
same_row :
    (b : Backup) (xs : List Backup)
    → IsOrdered xs
    → In b xs
    → All (λ (c : Backup). c.id ≡ b.id → c ≡ b) xs
same_row b [] o i = tt
same_row b (x ∷ xs) o (inl e) = (
  λ _. e,
  All-map (λ (c : Backup). x.id < c.id) (λ (c : Backup). c.id ≡ b.id → c ≡ b) xs
      (λ c l same. let e' = ap (λ (z : Backup). z.id) e in absurd (omega arith)) o.0,
)
same_row b (x ∷ xs) o (inr i) =
    (λ same. let l = lt_of_In x.id b xs i o.0 in absurd (omega arith), same_row b xs o.1 i)

-- The row that an undo consumes is no original.
pub undo_spares :
    (id mid : String) (b : Backup) (xs : List Backup)
    → IsOrdered xs
    → latest (select (undoable id) xs) ≡ some b
    → All (λ (c : Backup). original_of mid c ≡ true → not (c.id == b.id) ≡ true) xs
undo_spares id mid b xs o h =
    let (i, u) = In-select (undoable id) b xs (latest-In (select (undoable id) xs) b h) in
    All-map (λ (c : Backup). c.id ≡ b.id → c ≡ b) _ xs
      (λ c same q.
        differs c (&&_right (of_meeting id b) (not (is_original b.reason)) u) same
          (&&_right (of_meeting mid c) (is_original c.reason) q))
      (same_row b xs o i)
  where
    differs :
        (c : Backup)
        → not (is_original b.reason) ≡ true
        → (c.id ≡ b.id → c ≡ b)
        → is_original c.reason ≡ true
        → not (c.id == b.id) ≡ true
    differs c n same y = elim (Bool-cases (c.id == b.id)) [
      | inl e ↦ absurd (
          clash
            (subst (λ (z : Backup). is_original z.reason ≡ true) (same ((==_iff c.id b.id).0 e)) y)
            n)
      | inr e ↦ rw e
    ]
      where
        clash : {v : Bool} → v ≡ true → not v ≡ true → ⊥
        clash p q = ground arith

-- A new row that the query does not ask for does not change its answer.
pub select-snoc_false :
    (p : Backup → Bool) (xs : List Backup) (b : Backup)
    → p b ≡ false
    → select p (xs ++ b ∷ []) ≡ select p xs
select-snoc_false p [] b h = rw h
select-snoc_false p (x ∷ xs) b h = ground (arith, select-snoc_false p xs b h)
