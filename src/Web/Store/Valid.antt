-- ===== src/Web/Store/Valid.antt =====
-- The invariant of the tables of src/web/store.py, and that each statement keeps it.
use lb_note.Base.{
  ℕ, ◌+◌, ◌<◌, ◌≡◌, refl, sym, ◌∙◌, subst, Option, none, some, Bool, true, false, List, [], ◌∷◌,
  ◌++◌, String, arith, ◌==◌, nat_Eq, string_Eq, ==_iff, All, All-append, All-select, select,
  &&_left, &&_right, true≢false, Bool-cases, inl, inr, if◌then◌else◌,
}
use lb_note.Base.Dict.{Dict, get?, put, remove}
use lb_note.Web.Store.Json.{Text, text_Eq, Meeting}
use lb_note.Web.Store.Etag.{Result, ok, err}
use lb_note.Web.Store.Tables.{
  Row, Reason, Backup, Tables, row_of, key_of, insert_row, put_row, persist, continue,
  insert_backup, is_original, is_null, row_bindable, earliest, older, original_of,
}

-- Each backup has a smaller id than those after it.
abbrev pub IsOrdered : List Backup → Type 0
IsOrdered [] = Unit
IsOrdered (b ∷ bs) = All (λ (c : Backup). b.id < c.id) bs × IsOrdered bs

-- At most one of the backups passes the test.
abbrev pub AtMostOne : (Backup → Bool) → List Backup → Type 0
AtMostOne p [] = Unit
AtMostOne p (b ∷ bs) = (p b ≡ true → All (λ c. p c ≡ false) bs) × AtMostOne p bs

-- A row stands under the key of its own meeting's id, and its columns are that meeting's fields.
abbrev pub IsSynced : Text × Row → Type 0
IsSynced (k, r) = (key_of (get? "id" r.body) ≡ ok (some k)) × (r ≡ row_of r.body)

-- A row without a key has a meeting whose id is None.
abbrev pub IsLoose : Row → Type 0
IsLoose r = (key_of (get? "id" r.body) ≡ ok none) × (r ≡ row_of r.body)

pub record IsValid (t : Tables) : Type 0 where
  pub ordered : IsOrdered t.backups
  pub below : All (λ (b : Backup). b.id < t.next_id) t.backups
  pub one_original : (mid : String) → AtMostOne (original_of mid) t.backups
  pub synced : All IsSynced t.meetings
  pub loose : All IsLoose t.keyless

pub IsOrdered-select :
    (p : Backup → Bool) (xs : List Backup) → IsOrdered xs → IsOrdered (select p xs)
IsOrdered-select p [] h = tt
IsOrdered-select p (x ∷ xs) h = elim (Bool-cases (p x)) [
  | inl y ↦ rw y (All-select (λ (c : Backup). x.id < c.id) p xs h.0, IsOrdered-select p xs h.1)
  | inr n ↦ rw n (IsOrdered-select p xs h.1)
]

AtMostOne-select :
    (q p : Backup → Bool) (xs : List Backup) → AtMostOne q xs → AtMostOne q (select p xs)
AtMostOne-select q p [] h = tt
AtMostOne-select q p (x ∷ xs) h = elim (Bool-cases (p x)) [
  | inl y ↦ rw y (λ e. All-select (λ c. q c ≡ false) p xs (h.0 e), AtMostOne-select q p xs h.1)
  | inr n ↦ rw n (AtMostOne-select q p xs h.1)
]

-- Fewer backups: DELETE with any condition keeps the invariant.
pub select_backups-IsValid :
    (p : Backup → Bool) (t : Tables)
    → IsValid t
    → IsValid (record t { backups = select p t.backups })
select_backups-IsValid p t v = record {
  ordered = IsOrdered-select p t.backups v.ordered;
  below = All-select (λ (b : Backup). b.id < t.next_id) p t.backups v.below;
  one_original = λ mid. AtMostOne-select (original_of mid) p t.backups (v.one_original mid);
  synced = v.synced;
  loose = v.loose;
}

IsOrdered-snoc :
    (xs : List Backup) (b : Backup)
    → IsOrdered xs
    → All (λ (c : Backup). c.id < b.id) xs
    → IsOrdered (xs ++ b ∷ [])
IsOrdered-snoc [] b h l = (tt, tt)
IsOrdered-snoc (x ∷ xs) b h l = (All-snoc xs h.0 l.0, IsOrdered-snoc xs b h.1 l.1)
  where
    All-snoc :
        (ys : List Backup)
        → All (λ (c : Backup). x.id < c.id) ys
        → x.id < b.id
        → All (λ (c : Backup). x.id < c.id) (ys ++ b ∷ [])
    All-snoc [] a e = (e, tt)
    All-snoc (y ∷ ys) a e = (a.0, All-snoc ys a.1 e)

below-snoc :
    (n : ℕ) (xs : List Backup) (b : Backup)
    → All (λ (c : Backup). c.id < n) xs
    → b.id ≡ n
    → All (λ (c : Backup). c.id < n + 1) (xs ++ b ∷ [])
below-snoc n [] b h e = (omega arith, tt)
below-snoc n (x ∷ xs) b h e = (omega arith, below-snoc n xs b h.1 e)

AtMostOne-snoc :
    (q : Backup → Bool) (xs : List Backup) (b : Backup)
    → AtMostOne q xs
    → (q b ≡ true → All (λ c. q c ≡ false) xs)
    → AtMostOne q (xs ++ b ∷ [])
AtMostOne-snoc q [] b h e = (λ _. tt, tt)
AtMostOne-snoc q (x ∷ xs) b h e = (
  λ y.
      All-append (λ c. q c ≡ false) xs (b ∷ []) (h.0 y)
        (elim (Bool-cases (q b)) [
          | inl z ↦ absurd (true≢false (sym y ∙ (e z).0))
          | inr n ↦ (n, tt)
        ]),
  AtMostOne-snoc q xs b h.1 (λ z. (e z).1),
)

-- A new backup keeps the invariant, unless it is a second original of its meeting.
pub insert_backup-IsValid :
    (id : String) (at : ℕ) (why : Reason) (snap : Meeting) (t : Tables)
    → IsValid t
    → (is_original why ≡ true → All (λ c. original_of id c ≡ false) t.backups)
    → IsValid (insert_backup id at why snap t).1
unfolding insert_backup
insert_backup-IsValid id at why snap t v first =
    let b : Backup = record {
      id = t.next_id;
      meeting_id = id;
      created_at = at;
      reason = why;
      body = snap;
    } in
    record {
      ordered = IsOrdered-snoc t.backups b v.ordered v.below;
      below = below-snoc t.next_id t.backups b v.below refl;
      one_original = λ mid. AtMostOne-snoc (original_of mid) t.backups b (v.one_original mid) (λ e.
          subst (λ x. All (λ c. original_of x c ≡ false) t.backups)
            ((==_iff id mid).0 (&&_left (id == mid) (is_original why) e))
            (first (&&_right (id == mid) (is_original why) e)));
      synced = v.synced;
      loose = v.loose;
    }

All-put :
    (k : Text) (r : Row) (d : Dict Text Row)
    → All IsSynced d
    → IsSynced (k, r)
    → All IsSynced (put k r d)
unfolding put
All-put k r [] h s = (s, tt)
All-put k r ((j, w) ∷ d) h s = elim (Bool-cases (j == k)) [
  | inl y ↦ rw y (subst (λ x. IsSynced (x, r)) (sym ((==_iff j k).0 y)) s, h.1)
  | inr n ↦ rw n (h.0, All-put k r d h.1 s)
]

pub All-remove : (k : Text) (d : Dict Text Row) → All IsSynced d → All IsSynced (remove k d)
unfolding remove
All-remove k [] h = tt
All-remove k ((j, w) ∷ d) h = elim (Bool-cases (j == k)) [
  | inl y ↦ rw y (All-remove k d h.1)
  | inr n ↦ rw n (h.0, All-remove k d h.1)
]

pub if-IsValid :
    {A : Type 0} (b : Bool) (x y : A × Tables)
    → IsValid x.1
    → IsValid y.1
    → IsValid (if b then x else y).1
if-IsValid true x y h k = h
if-IsValid false x y h k = k

All-snoc_row : (P : Row → Type 0) (xs : List Row) (r : Row) → All P xs → P r → All P (xs ++ r ∷ [])
All-snoc_row P [] r h p = (p, tt)
All-snoc_row P (x ∷ xs) r h p = (h.0, All-snoc_row P xs r h.1 p)

put_row-IsValid :
    (k : Option Text) (m : Meeting) (t : Tables)
    → IsValid t
    → key_of (get? "id" m) ≡ ok k
    → IsValid (put_row k (row_of m) t)
put_row-IsValid (some k) m t v e = record {
  ordered = v.ordered;
  below = v.below;
  one_original = v.one_original;
  synced = All-put k (row_of m) t.meetings v.synced (e, refl);
  loose = v.loose;
}
put_row-IsValid none m t v e = record {
  ordered = v.ordered;
  below = v.below;
  one_original = v.one_original;
  synced = v.synced;
  loose = All-snoc_row IsLoose t.keyless (row_of m) v.loose (e, refl);
}

insert_row-IsValid :
    (k : Option Text) (m : Meeting) (t : Tables)
    → IsValid t
    → key_of (get? "id" m) ≡ ok k
    → IsValid (insert_row k (row_of m) t).1
unfolding insert_row
insert_row-IsValid k m t v e =
    if-IsValid (row_bindable (row_of m)) _ _
      (if-IsValid (is_null (row_of m).owner_id) _ _ v (put_row-IsValid k m t v e)) v

-- A write of a meeting keeps the invariant, whether or not it goes through.
pub persist-IsValid : (m : Meeting) (t : Tables) → IsValid t → IsValid (persist m t).1
unfolding persist
persist-IsValid m t v = go (key_of (get? "id" m)) refl
  where
    go :
        (k : Result (Option Text))
        → key_of (get? "id" m) ≡ k
        → IsValid (continue k t (λ id. insert_row id (row_of m))).1
    go (ok id) e = insert_row-IsValid id m t v e
    go (err x) e = v

pub earliest-none : (xs : List Backup) → earliest xs ≡ none → xs ≡ []
unfolding earliest
earliest-none [] h = refl
earliest-none (x ∷ xs) h = absurd (older-some x (earliest xs) h)
  where
    older-some : (b : Backup) (o : Option Backup) → older b o ≡ none → ⊥
    older-some b none e = cc
    older-some b (some c) e = ground arith

pub select-nil :
    (q : Backup → Bool) (xs : List Backup) → select q xs ≡ [] → All (λ c. q c ≡ false) xs
select-nil q [] h = tt
select-nil q (x ∷ xs) h = elim (Bool-cases (q x)) [
  | inl y ↦ absurd (cons≢nil (rw y at h))
  | inr n ↦ (n, select-nil q xs (rw n at h))
]
  where
    cons≢nil : {y : Backup} {ys : List Backup} → y ∷ ys ≡ [] → ⊥
    cons≢nil e = cc e
