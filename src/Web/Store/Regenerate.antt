-- ===== src/Web/Store/Regenerate.antt =====
-- What `apply_regenerate` writes (src/web/store.py).
use lb_note.Base.{
  ℕ, ◌+◌, ◌≡◌, ◌≢◌, refl, sym, ap₂, subst, ◌∙◌, some_injective, Option, none, some, Bool, true,
  false, [], ◌∷◌, ◌++◌, String, arith, nat_Eq, string_Eq, ne→beq, if◌then◌else◌,
}
use lb_note.Base.Dict.{get?, put, get?-put}
use lb_note.Web.Store.Json.{Json, str, Text, raw, Meeting, get}
use lb_note.Web.Store.Etag.{Error, not_null, not_bindable, Result, ok, err, IsoText, next_etag}
use lb_note.Web.Store.Tables.{
  Backup, regenerate, Tables, persist, insert_backup, insert_row, row_of, row_bindable, is_null,
  select_meeting, pure, ◌>>◌,
}
use lb_note.Web.Store.Meetings.{check_match, undo_snapshot, put_gate, regenerated, apply_regenerate}
use lb_note.Web.Store.Writes.{written, continue-eq-ok, persist-pure_ok}

-- What SQLite asks of a row before it writes it.
abbrev pub Fits : Meeting → Type 0
Fits m = (row_bindable (row_of m) ≡ true) × (is_null (row_of m).owner_id ≡ false)

-- A meeting that fits is written under its id.
pub persist_fits :
    (m : Meeting) (id : String) (t : Tables)
    → get? "id" m ≡ some (str (raw id))
    → Fits m
    → persist m t ≡ (ok tt, written id m t)
unfolding persist insert_row
persist_fits m id t k (b, n) = rw k (rw b (rw n))

guards_passed :
    (a b : Bool) (e f : Error) (t u : Tables) {x : Unit {0}}
    → (if◌then◌else◌ {A = Result (Unit {0}) × Tables} a
        (if b then (err e, t) else (ok tt, u))
        (err f, t)).0
      ≡ ok x
    → (a ≡ true) × (b ≡ false)
guards_passed a b e f t u h = ground arith

-- A meeting that was written fits.
pub persist_ok-Fits :
    (m : Meeting) (id : String) (t : Tables) {x : Unit {0}}
    → get? "id" m ≡ some (str (raw id))
    → (persist m t).0 ≡ ok x
    → Fits m
unfolding persist insert_row
persist_ok-Fits m id t k h =
    guards_passed (row_bindable (row_of m)) (is_null (row_of m).owner_id) not_null not_bindable t
      (written id m t) (rw k at h)

-- The backup that a regeneration makes of a meeting.
abbrev pub undo_row : String → ℕ → Meeting → Tables → Backup
undo_row id at cur t = record {
  id = t.next_id;
  meeting_id = id;
  created_at = at;
  reason = regenerate;
  body = undo_snapshot cur;
}

pub get?-regenerated :
    (k : String) (s i : Json) (g : Option Json) (tag : Text) (cur : Meeting)
    → k ≢ "summary"
    → k ≢ "actionItems"
    → k ≢ "gateSummary"
    → k ≢ "updatedAt"
    → get? k (regenerated s i g tag cur) ≡ get? k cur
get?-regenerated k s i none tag cur a b c d =
    simp (get?-put, ne→beq k "summary" a, ne→beq k "actionItems" b, ne→beq k "updatedAt" d)
get?-regenerated k s i (some x) tag cur a b c d = simp (
  get?-put,
  ne→beq k "summary" a,
  ne→beq k "actionItems" b,
  ne→beq k "gateSummary" c,
  ne→beq k "updatedAt" d,
)

pub regenerated_id :
    (s i : Json) (g : Option Json) (tag : Text) (cur : Meeting)
    → get? "id" (regenerated s i g tag cur) ≡ get? "id" cur
regenerated_id s i none tag cur = simp get?-put
regenerated_id s i (some x) tag cur = simp get?-put

-- The tables with that backup.
abbrev pub backed : String → ℕ → Meeting → Tables → Tables
backed id at cur t = record t {
  backups = t.backups ++ undo_row id at cur t ∷ [];
  next_id = t.next_id + 1;
}

-- What a regeneration that returns a meeting has written.
pub record Regenerated (s i : Json) (g : Option Json) (id : String) (at : ℕ) (cur : Meeting)
    (t : Tables) (m : Meeting) (u : Tables) : Type 0 where
  pub tag : Text
  pub content : m ≡ regenerated s i g tag cur
  pub fits : Fits m
  pub tables : u ≡ written id m (backed id at cur t)

Regenerated-of :
    (s i : Json) (g : Option Json) (id : String) (at : ℕ) (cur : Meeting) (t t₁ u : Tables)
    {m : Meeting} (tag : Text)
    → get? "id" cur ≡ some (str (raw id))
    → t₁ ≡ backed id at cur t
    → (persist (regenerated s i g tag cur) >> pure (some (regenerated s i g tag cur))) t₁
      ≡ (ok (some m), u)
    → Regenerated s i g id at cur t m u
Regenerated-of s i g id at cur t t₁ u {m = m} tag key same h =
    let w = regenerated s i g tag cur in
    let kept : get? "id" w ≡ some (str (raw id)) = regenerated_id s i g tag cur ∙ key in
    let (content, tables) = persist-pure_ok w (some w) (some m) id t₁ u kept h in
    let (x, p, _) = continue-eq-ok (persist w t₁).0 (persist w t₁).1 _ h in
    record {
      tag = tag;
      content = some_injective content;
      fits = subst Fits (sym (some_injective content)) (persist_ok-Fits w id t₁ kept p);
      tables = tables ∙ ap₂ (λ x y. written id x y) (sym (some_injective content)) same;
    }

pub apply_regenerate-Regenerated :
    (iso : IsoText) (at now : ℕ) (id : String) (s i : Json) (e : Option Text) (g : Option Json)
    (t u : Tables) {cur m : Meeting}
    → select_meeting id t ≡ some cur
    → get? "id" cur ≡ some (str (raw id))
    → apply_regenerate iso at now id s i e g t ≡ (ok (some m), u)
    → Regenerated s i g id at cur t m u
unfolding apply_regenerate insert_backup
apply_regenerate-Regenerated iso at now id s i e g t u {cur = cur} found key h =
    let new = put_gate g (put "actionItems" i (put "summary" s cur)) in
    let (_, _, h₁) = continue-eq-ok (check_match e cur) t _ (rw found at h) in
    let (tag, _, h₂) = continue-eq-ok (next_etag iso now (get "updatedAt" new)) _ _ h₁ in
    Regenerated-of s i g id at cur t _ u tag key refl h₂
