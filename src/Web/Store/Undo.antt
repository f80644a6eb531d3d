-- ===== src/Web/Store/Undo.antt =====
-- `restore_latest_backup` undoes `apply_regenerate` (src/web/store.py).
use lb_note.Base.{
  All-map, select-append, select-All, All-select, ℕ, ◌<◌, ◌≡◌, ◌≢◌, refl, sym, ap, subst, ◌∙◌,
  Option, none, some, Bool, true, not, ◌&&◌, [], ◌∷◌, ◌++◌, String, arith, ◌==◌, nat_Eq, string_Eq,
  ==_refl, ==_iff, ne→beq, select, Bool-cases, inl, inr,
}
use lb_note.Base.Dict.{get?, get_or, put, get?-put}
use lb_note.Web.Store.Json.{Json, str, arr, nil, Text, time, raw, truthy, Meeting, get}
use lb_note.Web.Store.Etag.{ok, IsoText, next_etag, next_after}
use lb_note.Web.Store.Tables.{
  Backup, Tables, bindable, find_undo, undoable, select_meeting, delete_backup,
}
use lb_note.Web.Store.Meetings.{
  restore_found, undo_snapshot, regenerated, undone, apply_regenerate, restore_latest_backup,
}
use lb_note.Web.Store.Valid.{IsValid}
use lb_note.Web.Store.Writes.{written, select-written}
use lb_note.Web.Store.Rows.{select-snoc_false, latest-snoc}
use lb_note.Web.Store.Regenerate.{
  Fits, persist_fits, undo_row, backed, Regenerated, get?-regenerated, regenerated_id,
  apply_regenerate-Regenerated,
}

-- The meeting that the undo writes.
abbrev pub restored : Meeting → Text → Meeting → Meeting
restored cur tag m = put "updatedAt" (str tag) (undone (undo_snapshot cur) m)

undone_lem :
    (cur m : Meeting)
    → undone (undo_snapshot cur) m
      ≡ put "gateSummary" (get "gateSummary" cur) (
          put "actionItems"
            (get_or "actionItems" (arr nil) cur)
            (put "summary" (get "summary" cur) m))
unfolding get?
undone_lem cur m = refl

bindable_last :
    (a b c d e : Bool)
    → (a && (b && (c && (d && e)))) ≡ true
    → (a && (b && (c && (d && true)))) ≡ true
bindable_last a b c d e h = ground arith

restored-Fits : (cur m : Meeting) (tag : Text) → Fits m → Fits (restored cur tag m)
restored-Fits cur m tag f = rw (undone_lem cur m) (
  simp get?-put (
      bindable_last (bindable (get_or "ownerId" (str (raw "local")) m)) (bindable (get "status" m))
        (bindable (get "title" m)) (bindable (get "createdAt" m)) (bindable (get "updatedAt" m))
        f.0),
  simp get?-put f.1,
)

get?-restored :
    (k : String) (cur m : Meeting) (tag : Text)
    → k ≢ "summary"
    → k ≢ "actionItems"
    → k ≢ "gateSummary"
    → k ≢ "updatedAt"
    → get? k (restored cur tag m) ≡ get? k m
get?-restored k cur m tag a b c d = rw (undone_lem cur m) (
    simp (
      get?-put,
      ne→beq k "summary" a,
      ne→beq k "actionItems" b,
      ne→beq k "gateSummary" c,
      ne→beq k "updatedAt" d,
    ))

restored_id : (cur m : Meeting) (tag : Text) → get? "id" (restored cur tag m) ≡ get? "id" m
restored_id cur m tag = rw (undone_lem cur m) (simp get?-put)

next_etag_str :
    (iso : IsoText) (now : ℕ) (v : Json) {x : Text}
    → v ≡ str x
    → (tag : Text) × (next_etag iso now v ≡ ok tag)
unfolding next_etag
next_etag_str iso now v {x = x} e = elim (Bool-cases (truthy (str x))) [
  | inl y ↦ (next_after iso now x, rw (e, y))
  | inr n ↦ (time now, rw (e, n))
]

undo_step :
    (iso : IsoText) (now : ℕ) (id : String) (cur m : Meeting) (b : Backup) (u : Tables) (tag : Text)
    → b.body ≡ undo_snapshot cur
    → get? "id" m ≡ some (str (raw id))
    → Fits m
    → next_etag iso now (get "updatedAt" (undone (undo_snapshot cur) m)) ≡ ok tag
    → restore_found iso now m none (some b) u ≡ (
      ok (some (restored cur tag m), true),
      delete_backup b.id (written id (restored cur tag m) u),
    )
undo_step iso now id cur m b u tag same key fits n =
    rw (same, n)
      (rw (
        persist_fits (restored cur tag m) id u (restored_id cur m tag ∙ key)
          (restored-Fits cur m tag fits)))

-- The row of the regeneration is the one that the undo finds.
find_undo-regenerated :
    (id : String) (at : ℕ) (cur : Meeting) (t u : Tables)
    → IsValid t
    → u.backups ≡ t.backups ++ undo_row id at cur t ∷ []
    → find_undo id u ≡ some (undo_row id at cur t)
find_undo-regenerated id at cur t u v e =
    rw (e, select-append (undoable id) t.backups (undo_row id at cur t ∷ []), ==_refl id)
      (latest-snoc (select (undoable id) t.backups) (undo_row id at cur t)
        (All-select (λ (b : Backup). b.id < t.next_id) (undoable id) t.backups v.below))

-- Consuming that row leaves the backups that were there before.
delete-regenerated :
    (id : String) (at : ℕ) (cur : Meeting) (t u : Tables)
    → IsValid t
    → u.backups ≡ t.backups ++ undo_row id at cur t ∷ []
    → (delete_backup t.next_id u).backups ≡ t.backups
delete-regenerated id at cur t u v e = rw e (
    select-snoc_false (λ b. not (b.id == t.next_id)) t.backups (undo_row id at cur t)
      (rw (==_refl t.next_id))
    ∙ select-All (λ b. not (b.id == t.next_id)) t.backups
        (All-map (λ (b : Backup). b.id < t.next_id) _ t.backups
          (λ b l. ground (arith, ==_iff b.id t.next_id)) v.below))

-- What an undo gives back of the meeting as it was.
abbrev pub IsUndone : Meeting → Meeting → Type 0
IsUndone cur r =
    (get "summary" r ≡ get "summary" cur)
    × (get "actionItems" r ≡ get_or "actionItems" (arr nil) cur)
    × (get "gateSummary" r ≡ get "gateSummary" cur)
    × ((k : String)
        → k ≢ "summary"
        → k ≢ "actionItems"
        → k ≢ "gateSummary"
        → k ≢ "updatedAt"
        → get? k r ≡ get? k cur)

restored-IsUndone :
    (s i : Json) (g : Option Json) (cur : Meeting) (tag tag' : Text)
    → IsUndone cur (restored cur tag' (regenerated s i g tag cur))
restored-IsUndone s i g cur tag tag' = (
  rw (undone_lem cur (regenerated s i g tag cur)) (simp get?-put),
  rw (undone_lem cur (regenerated s i g tag cur)) (simp get?-put),
  rw (undone_lem cur (regenerated s i g tag cur)) (simp get?-put),
  λ k a b c d.
      get?-restored k cur (regenerated s i g tag cur) tag' a b c d
      ∙ get?-regenerated k s i g tag cur a b c d,
)

regenerated_tag :
    (s i : Json) (g : Option Json) (tag : Text) (cur : Meeting)
    → get "updatedAt" (regenerated s i g tag cur) ≡ str tag
regenerated_tag s i g tag cur = simp get?-put

undone_tag :
    (cur : Meeting) (s i : Json) (g : Option Json) (tag : Text) (m : Meeting)
    → m ≡ regenerated s i g tag cur
    → get "updatedAt" (undone (undo_snapshot cur) m) ≡ str tag
undone_tag cur s i g tag m e =
    rw (undone_lem cur m) (simp get?-put (rw e (regenerated_tag s i g tag cur)))

undo_of_Regenerated :
    (iso : IsoText) (now at : ℕ) (id : String) (s i : Json) (g : Option Json) (cur : Meeting)
    (t u : Tables) {m : Meeting}
    → IsValid t
    → get? "id" cur ≡ some (str (raw id))
    → Regenerated s i g id at cur t m u
    → (r : Meeting) × (w : Tables) × (restore_latest_backup iso now id none u
        ≡ (ok (some r, true), w))
      × (select_meeting id w ≡ some r)
      × (w.backups ≡ t.backups)
      × IsUndone cur r
unfolding restore_latest_backup
undo_of_Regenerated iso now at id s i g cur t u {m = m} v key w =
    let backups : u.backups ≡ t.backups ++ undo_row id at cur t ∷ [] =
      ap (λ (x : Tables). x.backups) w.tables in
    let found : select_meeting id u ≡ some m =
      rw w.tables (select-written id m (backed id at cur t)) in
    let tagged = undone_tag cur s i g w.tag m w.content in
    let (tag, n) = next_etag_str iso now (get "updatedAt" (undone (undo_snapshot cur) m)) tagged in
    (
      restored cur tag m,
      delete_backup t.next_id (written id (restored cur tag m) u),
      rw (found, find_undo-regenerated id at cur t u v backups)
          (undo_step iso now id cur m (undo_row id at cur t) u tag refl
            (ap (get? "id") w.content ∙ regenerated_id s i g w.tag cur ∙ key) w.fits n),
      select-written id (restored cur tag m) u,
      delete-regenerated id at cur t u v backups,
      subst (λ x. IsUndone cur (restored cur tag x)) (sym w.content)
          (restored-IsUndone s i g cur w.tag tag),
    )

-- A regeneration of a meeting that returns can be undone: the undo that follows, with no If-Match,
-- always succeeds. It brings back the summary, the action items (an empty list if there were none)
-- and the gate summary, every other field but the ETag is as before the regeneration, and the backup
-- table is again what it was.
pub undo_after_regenerate :
    (iso : IsoText) (at now later : ℕ) (id : String) (s i : Json) (e : Option Text)
    (g : Option Json) (t u : Tables) {cur m : Meeting}
    → IsValid t
    → select_meeting id t ≡ some cur
    → get? "id" cur ≡ some (str (raw id))
    → apply_regenerate iso at now id s i e g t ≡ (ok (some m), u)
    → (r : Meeting) × (w : Tables) × (restore_latest_backup iso later id none u
        ≡ (ok (some r, true), w))
      × (select_meeting id w ≡ some r)
      × (w.backups ≡ t.backups)
      × IsUndone cur r
undo_after_regenerate iso at now later id s i e g t u {cur = cur} v found key h =
    undo_of_Regenerated iso later at id s i g cur t u v key
      (apply_regenerate-Regenerated iso at now id s i e g t u found key h)
