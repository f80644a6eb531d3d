-- ===== src/Web/Meetings/Others.antt =====
-- A write of the store under one id leaves the other meetings (src/web/store.py).
use lb_note.Base.{
  ℕ, ◌≡◌, ◌≢◌, refl, sym, ap, subst, ◌∙◌, Option, none, some, false, List, [], ◌∷◌, String, ◌==◌,
  ==_iff, ne→beq, nat_Eq, string_Eq, All, is_in, Bool-cases, Option-cases, inl, inr, some_injective,
  true≢false, ||_left, ||_right,
}
use lb_note.Base.Dict.{get?, put, get?-put, contains}
use lb_note.Web.Store.Json.{Json, str, Text, text_Eq, raw, Meeting, get}
use lb_note.Web.Store.Etag.{Result, ok, err, IsoText, next_etag}
use lb_note.Web.Store.Tables.{
  Row, Backup, Tables, Action, pure, lift, ◌>>=◌, ◌>>◌, continue, with_meeting, body_of, key_of,
  row_of, row_bindable, is_null, select_meeting, persist, insert_row, insert_backup, find_undo,
  find_original,
}
use lb_note.Web.Store.Meetings.{
  Validator, check_match, merged, update_found, update_if_match, regenerate_found, apply_regenerate,
  regenerated, undone, restore_found, restore_latest_backup, put_some, copy_fields, original_fields,
  original_found, restore_original,
}
use lb_note.Web.Store.Valid.{IsValid, IsSynced}
use lb_note.Web.Store.Writes.{get?-merged_id, raw_injective}
use lb_note.Web.Store.Regenerate.{regenerated_id}

-- A meeting whose id is stored as a text.
abbrev Named : String → Meeting → Type 0
Named id m = key_of (get? "id" m) ≡ ok (some (raw id))

-- A stored meeting carries the id of its row.
in_sync :
    (rows : List (Text × Row)) (id : String) {cur : Meeting}
    → All IsSynced rows
    → body_of (get? (raw id) rows) ≡ some cur
    → Named id cur
unfolding get?
in_sync [] id h e = cc e
in_sync ((k, r) ∷ rows) id h e = elim (Bool-cases (k == raw id)) [
  | inl y ↦
      subst (Named id) (some_injective (rw y at e))
        (h.0.0 ∙ ap (λ i. ok (some i)) ((==_iff k (raw id)).0 y))
  | inr n ↦ in_sync rows id h.1 (rw n at e)
]

stored_id :
    (t : Tables) (id : String) {cur : Meeting}
    → IsValid t
    → select_meeting id t ≡ some cur
    → Named id cur
stored_id t id v e = in_sync t.meetings id v.synced e

inserted_other :
    (w : Meeting) (id other : String) (t : Tables)
    → other ≢ id
    → select_meeting other (insert_row (some (raw id)) (row_of w) t).1 ≡ select_meeting other t
unfolding insert_row
inserted_other w id other t ne = elim (Bool-cases (row_bindable (row_of w))) [
  | inr n ↦ rw n refl
  | inl y ↦ elim (Bool-cases (is_null (row_of w).owner_id)) [
    | inl z ↦ rw (y, z) refl
    | inr z ↦ rw (y, z) (simp (get?-put, ne→beq (raw other) (raw id) (λ e. ne (raw_injective e))))
  ]
]

persist_other :
    (w : Meeting) (id other : String) (t : Tables)
    → Named id w
    → other ≢ id
    → select_meeting other (persist w t).1 ≡ select_meeting other t
unfolding persist
persist_other w id other t k ne = rw k (inserted_other w id other t ne)

module _ (P : Tables → Type 0) where
  -- A chain goes on only with what the step before it returned.
  continue_kept :
      {A B : Type 0} (r : Result A) (t : Tables) (f : A → Action B)
      → P t
      → ((a : A) → r ≡ ok a → P (f a t).1)
      → P (continue r t f).1
  continue_kept (ok a) t f h k = k a refl
  continue_kept (err e) t f h k = h

abbrev Sees : String → Option Meeting → Tables → Type 0
Sees other o t = select_meeting other t ≡ o

stamped_other :
    {A : Type 0} (other id : String) (o : Option Meeting) (r : Result Text) (w : Text → Meeting)
    (b : Text → A) (t : Tables)
    → ((tag : Text) → Named id (w tag))
    → other ≢ id
    → Sees other o t
    → Sees other o ((lift r >>= λ tag. persist (w tag) >> pure (b tag)) t).1
stamped_other other id o r w b t k ne h = continue_kept (Sees other o) r t _ h (λ tag e.
    let p = persist_other (w tag) id other t (k tag) ne ∙ h in
    continue_kept (Sees other o) (persist (w tag) t).0 (persist (w tag) t).1 _ p (λ x e'. p))

update_found_other :
    (iso : IsoText) (now : ℕ) (patch : Meeting) (expected : Option Text) (v : Validator)
    (cur : Meeting) (id other : String) (o : Option Meeting) (t : Tables)
    → Named id cur
    → ((p : Meeting) → v cur patch ≡ ok p → get? "id" p ≡ none)
    → other ≢ id
    → Sees other o t
    → Sees other o (update_found iso now patch expected (some v) cur t).1
update_found_other iso now patch expected v cur id other o t key fixed ne h =
    continue_kept (Sees other o) (check_match expected cur) t _ h (λ x e.
      continue_kept (Sees other o) (v cur patch) t _ h (λ p e'.
        stamped_other other id o (next_etag iso now (get "updatedAt" cur)) (λ tag. merged cur p tag)
          _ t (λ tag. ap key_of (get?-merged_id cur p tag (fixed p e')) ∙ key) ne h))

regenerate_found_other :
    (iso : IsoText) (at now : ℕ) (summary items : Json) (expected : Option Text)
    (gate : Option Json) (cur : Meeting) (id other : String) (o : Option Meeting) (t : Tables)
    → Named id cur
    → other ≢ id
    → Sees other o t
    → Sees other o (regenerate_found iso at now id summary items expected gate cur t).1
unfolding insert_backup
regenerate_found_other iso at now summary items expected gate cur id other o t key ne h =
    continue_kept (Sees other o) (check_match expected cur) t _ h (λ x e.
      stamped_other other id o _ (λ tag. regenerated summary items gate tag cur) _ _
        (λ tag. ap key_of (regenerated_id summary items gate tag cur) ∙ key) ne h)

undone_id :
    (snap cur : Meeting) (tag : Text)
    → get? "id" (put "updatedAt" (str tag) (undone snap cur)) ≡ get? "id" cur
undone_id snap cur tag = elim (Bool-cases (contains "gateSummary" snap)) [
  | inl y ↦ rw y (simp get?-put)
  | inr n ↦ rw n (simp get?-put)
]

restore_found_other :
    (iso : IsoText) (now : ℕ) (cur : Meeting) (expected : Option Text) (b : Option Backup)
    (id other : String) (o : Option Meeting) (t : Tables)
    → Named id cur
    → other ≢ id
    → Sees other o t
    → Sees other o (restore_found iso now cur expected b t).1
restore_found_other iso now cur expected none id other o t key ne h =
    continue_kept (Sees other o) (check_match expected cur) t _ h (λ x e. h)
restore_found_other iso now cur expected (some b) id other o t key ne h =
    continue_kept (Sees other o) (check_match expected cur) t _ h (λ x e.
      continue_kept (Sees other o) (next_etag iso now (get "updatedAt" (undone b.body cur))) t _ h
        (λ tag e'.
          let w = put "updatedAt" (str tag) (undone b.body cur) in
          let p = persist_other w id other t (ap key_of (undone_id b.body cur tag) ∙ key) ne ∙ h in
          continue_kept (Sees other o) (persist w t).0 (persist w t).1 _ p (λ y e''. p)))

put_some_id :
    (k : String) (o : Option Json) (m : Meeting)
    → ("id" == k) ≡ false
    → get? "id" (put_some k o m) ≡ get? "id" m
put_some_id k none m d = refl
put_some_id k (some v) m d =
    rw (get?-put "id" k v m, ne→beq "id" k (λ e. true≢false (sym ((==_iff "id" k).1 e) ∙ d))) refl

copy_fields_id :
    (ks : List String) (snap cur : Meeting)
    → is_in "id" ks ≡ false
    → get? "id" (copy_fields ks snap cur) ≡ get? "id" cur
copy_fields_id [] snap cur d = refl
copy_fields_id (k ∷ ks) snap cur d =
    copy_fields_id ks snap (put_some k (get? k snap) cur) (||_right _ _ d)
    ∙ put_some_id k (get? k snap) cur (||_left _ _ d)

reverted_id :
    (snap cur : Meeting) (tag : Text)
    → get? "id" (put "updatedAt" (str tag) (copy_fields original_fields snap cur)) ≡ get? "id" cur
reverted_id snap cur tag =
    get?-put "id" "updatedAt" (str tag) (copy_fields original_fields snap cur)
    ∙ copy_fields_id original_fields snap cur refl

original_found_other :
    (iso : IsoText) (now : ℕ) (cur : Meeting) (expected : Option Text) (b : Option Backup)
    (id other : String) (o : Option Meeting) (t : Tables)
    → Named id cur
    → other ≢ id
    → Sees other o t
    → Sees other o (original_found iso now cur expected b t).1
original_found_other iso now cur expected none id other o t key ne h =
    continue_kept (Sees other o) (check_match expected cur) t _ h (λ x e. h)
original_found_other iso now cur expected (some b) id other o t key ne h =
    continue_kept (Sees other o) (check_match expected cur) t _ h (λ x e.
      stamped_other other id o _
        (λ tag. put "updatedAt" (str tag) (copy_fields original_fields b.body cur)) _ t
        (λ tag. ap key_of (reverted_id b.body cur tag) ∙ key) ne h)

-- The methods, on tables that satisfy the invariant.
with_stored :
    {A : Type 0} (a : A) (f : Meeting → Action A) (id other : String) (t : Tables)
    → IsValid t
    → ((cur : Meeting) → Named id cur → select_meeting other (f cur t).1 ≡ select_meeting other t)
    → select_meeting other (with_meeting a f (select_meeting id t) t).1 ≡ select_meeting other t
with_stored a f id other t v k = elim (Option-cases (select_meeting id t)) [
  | inl n ↦ rw n refl
  | inr (cur, e) ↦ rw e (k cur (stored_id t id v e))
]

pub update_if_match_other :
    (iso : IsoText) (now : ℕ) (id : String) (patch : Meeting) (expected : Option Text)
    (v : Validator) (other : String) (t : Tables)
    → IsValid t
    → ((cur p : Meeting) → v cur patch ≡ ok p → get? "id" p ≡ none)
    → other ≢ id
    → select_meeting other (update_if_match iso now id patch expected (some v) t).1
      ≡ select_meeting other t
unfolding update_if_match
update_if_match_other iso now id patch expected v other t valid fixed ne =
    with_stored none _ id other t valid (λ cur key.
      update_found_other iso now patch expected v cur id other (select_meeting other t) t key
        (fixed cur) ne refl)

pub apply_regenerate_other :
    (iso : IsoText) (at now : ℕ) (id : String) (summary items : Json) (expected : Option Text)
    (gate : Option Json) (other : String) (t : Tables)
    → IsValid t
    → other ≢ id
    → select_meeting other (apply_regenerate iso at now id summary items expected gate t).1
      ≡ select_meeting other t
unfolding apply_regenerate
apply_regenerate_other iso at now id summary items expected gate other t valid ne =
    with_stored none _ id other t valid (λ cur key.
      regenerate_found_other iso at now summary items expected gate cur id other
        (select_meeting other t) t key ne refl)

pub restore_latest_backup_other :
    (iso : IsoText) (now : ℕ) (id : String) (expected : Option Text) (other : String) (t : Tables)
    → IsValid t
    → other ≢ id
    → select_meeting other (restore_latest_backup iso now id expected t).1 ≡ select_meeting other t
unfolding restore_latest_backup
restore_latest_backup_other iso now id expected other t valid ne =
    with_stored (none, false) _ id other t valid
      (λ cur key.
        restore_found_other iso now cur expected (find_undo id t) id other (select_meeting other t)
          t key ne refl)

pub restore_original_other :
    (iso : IsoText) (now : ℕ) (id : String) (expected : Option Text) (other : String) (t : Tables)
    → IsValid t
    → other ≢ id
    → select_meeting other (restore_original iso now id expected t).1 ≡ select_meeting other t
unfolding restore_original
restore_original_other iso now id expected other t valid ne =
    with_stored (none, false) _ id other t valid
      (λ cur key.
        original_found_other iso now cur expected (find_original id t) id other
          (select_meeting other t) t key ne refl)
