-- ===== src/Web/Store/Keeps.antt =====
-- What every method of src/web/store.py keeps, if the statements that it runs keep it.
use lb_note.Base.{ℕ, ◌≡◌, refl, Option, none, some, Bool, true, false, String, string_Eq}
use lb_note.Base.Dict.{put, update}
use lb_note.Web.Store.Json.{Json, str, Text, Meeting, get}
use lb_note.Web.Store.Etag.{Result, ok, err, IsoText, next_etag}
use lb_note.Web.Store.Tables.{
  Backup, regenerate, Tables, Action, pure, lift, ◌>>=◌, ◌>>◌, continue, with_meeting,
  select_meeting, persist, insert_backup, find_undo, find_original, delete_backup,
}
use lb_note.Web.Store.Meetings.{
  Validator, create, merge, update_if_match, apply_regenerate, restore_latest_backup,
  restore_original, check_match, validate, merged, undo_snapshot, original_found, copy_fields,
  original_fields, put_gate, regenerated, undone, undo_found, restore_found,
}

module _ (P : Tables → Type 0) where
  -- A method leaves tables with the property if it finds such tables.
  abbrev pub Keeps : {A : Type 0} → Action A → Type 0
  Keeps m = (t : Tables) → P t → P (m t).1

  continue-keeps :
      {A B : Type 0} (r : Result A) (t : Tables) (f : A → Action B)
      → P t
      → ((a : A) → Keeps (f a))
      → P (continue r t f).1
  continue-keeps (ok a) t f h k = k a t h
  continue-keeps (err e) t f h k = h

  with_meeting-keeps :
      {A : Type 0} (a : A) (f : Meeting → Action A) (o : Option Meeting) (t : Tables)
      → P t
      → ((cur : Meeting) → P (f cur t).1)
      → P (with_meeting a f o t).1
  with_meeting-keeps a f none t h k = h
  with_meeting-keeps a f (some cur) t h k = k cur

module _ (P : Tables → Type 0) (persist-keeps : (m : Meeting) → Keeps P (persist m)) where
  pub create-Keeps : (m : Meeting) → Keeps P (create m)
  unfolding create
  create-Keeps m t h =
      continue-keeps P (persist m t).0 (persist m t).1 _ (persist-keeps m t h) (λ _ u k. k)

  pub merge-Keeps : (id : String) (patch : Meeting) → Keeps P (merge id patch)
  unfolding merge
  merge-Keeps id patch t h = with_meeting-keeps P none _ (select_meeting id t) t h λ cur.
      continue-keeps P (create (update cur patch) t).0 (create (update cur patch) t).1 _
        (create-Keeps (update cur patch) t h) (λ _ u k. k)

  -- The end of every conditional write: a new tag, the write, and a return.
  stamped-Keeps :
      {A : Type 0} (r : Result Text) (w : Text → Meeting) (b : Text → A)
      → Keeps P (lift r >>= λ tag. persist (w tag) >> pure (b tag))
  stamped-Keeps r w b t h = continue-keeps P r t _ h λ tag u k.
      continue-keeps P (persist (w tag) u).0 _ _ (persist-keeps (w tag) u k) (λ _ u' k'. k')

  pub update_if_match-Keeps :
      (iso : IsoText) (now : ℕ) (id : String) (patch : Meeting) (expected : Option Text)
      (v : Option Validator)
      → Keeps P (update_if_match iso now id patch expected v)
  unfolding update_if_match
  update_if_match-Keeps iso now id patch expected v t h =
      with_meeting-keeps P none _ (select_meeting id t) t h λ cur.
        continue-keeps P (check_match expected cur) t _ h λ _ t₁ h₁.
          continue-keeps P (validate v cur patch) t₁ _ h₁ λ p.
            stamped-Keeps (next_etag iso now (get "updatedAt" cur)) (merged cur p)
              (λ tag. some (merged cur p tag))

  revert_found-Keeps :
      (iso : IsoText) (now : ℕ) (cur : Meeting) (expected : Option Text) (o : Option Backup)
      → Keeps P (original_found iso now cur expected o)
  revert_found-Keeps iso now cur expected none t h =
      continue-keeps P (check_match expected cur) t _ h (λ _ u k. k)
  revert_found-Keeps iso now cur expected (some b) t h =
      let back = copy_fields original_fields b.body cur in
      continue-keeps P (check_match expected cur) t _ h λ _.
        stamped-Keeps (next_etag iso now (get "updatedAt" back))
          (λ tag. put "updatedAt" (str tag) back)
          (λ tag. (some (put "updatedAt" (str tag) back), true))

  pub restore_original-Keeps :
      (iso : IsoText) (now : ℕ) (id : String) (expected : Option Text)
      → Keeps P (restore_original iso now id expected)
  unfolding restore_original
  restore_original-Keeps iso now id expected t h =
      with_meeting-keeps P (none, false) _ (select_meeting id t) t h
        λ cur. revert_found-Keeps iso now cur expected (find_original id t) t h

  pub apply_regenerate-Keeps :
      (iso : IsoText) (at now : ℕ) (id : String) (summary items : Json) (expected : Option Text)
      (gate : Option Json)
      → ((snap : Meeting) → Keeps P (insert_backup id at regenerate snap))
      → Keeps P (apply_regenerate iso at now id summary items expected gate)
  unfolding apply_regenerate
  apply_regenerate-Keeps iso at now id summary items expected gate backup t h =
      with_meeting-keeps P none _ (select_meeting id t) t h λ cur.
        let new = put_gate gate (put "actionItems" items (put "summary" summary cur)) in
        continue-keeps P (check_match expected cur) t _ h λ _ t₁ h₁.
          continue-keeps P (insert_backup id at regenerate (undo_snapshot cur) t₁).0 _ _
            (backup (undo_snapshot cur) t₁ h₁)
            λ _.
              stamped-Keeps (next_etag iso now (get "updatedAt" new))
                (λ tag. regenerated summary items gate tag cur)
                (λ tag. some (regenerated summary items gate tag cur))

  undo_found-keeps :
      (iso : IsoText) (now : ℕ) (cur : Meeting) (b : Backup) (t : Tables)
      → P t
      → ((w : Meeting) → P (delete_backup b.id (persist w t).1))
      → P (undo_found iso now cur b t).1
  undo_found-keeps iso now cur b t h consume =
      let back = undone b.body cur in stamped_then (next_etag iso now (get "updatedAt" back))
    where
      stamped_then :
          (r : Result Text)
          → P
              (continue {B = Option Meeting × Bool} r t (λ tag.
                persist (put "updatedAt" (str tag) (undone b.body cur)) >> λ u. (
                  ok (some (put "updatedAt" (str tag) (undone b.body cur)), true),
                  delete_backup b.id u,
                ))).1
      stamped_then (err e) = h
      stamped_then (ok tag) = saved (persist w t).0 refl
        where
          w : Meeting
          w = put "updatedAt" (str tag) (undone b.body cur)

          saved :
              (r : Result (Unit {0}))
              → (persist w t).0 ≡ r
              → P
                  (continue {B = Option Meeting × Bool} r
                    (persist w t).1
                    (λ _ u. (ok (some w, true), delete_backup b.id u))).1
          saved (ok x) e = consume w
          saved (err x) e = persist-keeps w t h

  restore_found-keeps :
      (iso : IsoText) (now : ℕ) (cur : Meeting) (expected : Option Text) (t : Tables)
      (o : Option Backup)
      → P t
      → ((b : Backup) (w : Meeting) → o ≡ some b → P (delete_backup b.id (persist w t).1))
      → P (restore_found iso now cur expected o t).1
  restore_found-keeps iso now cur expected t none h consume =
      continue-keeps P (check_match expected cur) t _ h (λ _ u k. k)
  restore_found-keeps iso now cur expected t (some b) h consume =
      matched-keeps (check_match expected cur)
    where
      matched-keeps : (r : Result (Unit {0})) → P (continue r t (λ _. undo_found iso now cur b)).1
      matched-keeps (ok x) = undo_found-keeps iso now cur b t h (λ w. consume b w refl)
      matched-keeps (err e) = h

  pub restore_latest_backup-keeps :
      (iso : IsoText) (now : ℕ) (id : String) (expected : Option Text) (t : Tables)
      → P t
      → ((b : Backup) (w : Meeting)
          → find_undo id t ≡ some b
          → P (delete_backup b.id (persist w t).1))
      → P (restore_latest_backup iso now id expected t).1
  unfolding restore_latest_backup
  restore_latest_backup-keeps iso now id expected t h consume =
      with_meeting-keeps P (none, false) _ (select_meeting id t) t h
        λ cur. restore_found-keeps iso now cur expected t (find_undo id t) h consume
