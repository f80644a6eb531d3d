-- ===== src/Web/Store/Meetings.antt =====
-- The methods of `MeetingStore` (src/web/store.py). The clock and the text format are arguments.
use lb_note.Base.{
  ℕ, ◌+◌, ◌-◌, Option, none, some, Bool, true, false, not, ◌&&◌, List, [], ◌∷◌, String,
  if◌then◌else◌, ltb, ◌==◌, nat_Eq, string_Eq, select, length,
}
use lb_note.Base.Dict.{get?, get_or, put, remove, update, contains, is_some}
use lb_note.Web.Store.Json.{
  Json, null, bool, num, str, arr, obj, nil, Text, time, raw, text_Eq, truthy, Meeting, get,
}
use lb_note.Web.Store.Etag.{
  bad_key, not_bindable, precondition, Result, ok, err, IsoText, next_etag,
}
use lb_note.Web.Store.Tables.{
  Backup, original, regenerate, is_original, Tables, Action, pure, lift, ◌>>=◌, ◌>>◌,
  select_meeting, with_meeting, persist, insert_backup, of_meeting, find_undo, find_original,
  delete_backup,
}

-- `create`.
unfoldable pub create : Meeting → Action Meeting
create m = persist m >> pure m

-- `get`.
unfoldable pub fetch : String → Action (Option Meeting)
fetch id t = (ok (select_meeting id t), t)

-- `update`: a read, then a write of the merged dict.
unfoldable pub merge : String → Meeting → Action (Option Meeting)
unfolding create fetch
merge id patch t =
    with_meeting none (λ cur. create (update cur patch) >>= λ m. pure (some m))
      (select_meeting id t) t

-- `cur.get("updatedAt") != expected`.
abbrev pub is_text : Json → Text → Bool
is_text (str s) t = s == t
is_text null t = false
is_text (bool b) t = false
is_text (num n) t = false
is_text (arr xs) t = false
is_text (obj fs) t = false

-- The If-Match test of every conditional write.
abbrev pub check_match : Option Text → Meeting → Result (Unit {0})
check_match none cur = ok tt
check_match (some e) cur =
    if is_text (get "updatedAt" cur) e then ok tt else err (precondition (get "updatedAt" cur))

abbrev pub Validator : Type 0
Validator = Meeting → Meeting → Result Meeting

abbrev pub validate : Option Validator → Meeting → Meeting → Result Meeting
validate none cur patch = ok patch
validate (some v) cur patch = v cur patch

-- The merged meeting: the owner stays, and the ETag is new.
abbrev pub merged : Meeting → Meeting → Text → Meeting
merged cur patch tag =
    put "updatedAt" (str tag)
      (put "ownerId" (get_or "ownerId" (str (raw "local")) cur) (update cur patch))

abbrev pub update_found :
    IsoText → ℕ → Meeting → Option Text → Option Validator → Meeting → Action (Option Meeting)
update_found iso now patch expected validator cur = do
  lift (check_match expected cur)
  patch' ← lift (validate validator cur patch)
  tag ← lift (next_etag iso now (get "updatedAt" cur))
  persist (merged cur patch' tag)
  pure (some (merged cur patch' tag))

-- `update_if_match`.
unfoldable pub update_if_match :
    IsoText → ℕ → String → Meeting → Option Text → Option Validator → Action (Option Meeting)
update_if_match iso now id patch expected validator t =
    with_meeting none (λ cur. update_found iso now patch expected validator cur)
      (select_meeting id t) t

-- What `apply_regenerate` keeps for the undo.
abbrev pub undo_snapshot : Meeting → Meeting
undo_snapshot cur =
    ("summary", get "summary" cur)
    ∷ ("actionItems", get_or "actionItems" (arr nil) cur)
    ∷ ("gateSummary", get "gateSummary" cur)
    ∷ []

abbrev pub put_gate : Option Json → Meeting → Meeting
put_gate none m = m
put_gate (some g) m = put "gateSummary" g m

abbrev pub regenerated : Json → Json → Option Json → Text → Meeting → Meeting
regenerated summary items gate tag cur =
    put "updatedAt" (str tag) (put_gate gate (put "actionItems" items (put "summary" summary cur)))

-- `cur.get("updatedAt")` is read after the three writes, which leave that key alone.
abbrev pub regenerate_found :
    IsoText
    → ℕ
    → ℕ
    → String
    → Json
    → Json
    → Option Text
    → Option Json
    → Meeting
    → Action (Option Meeting)
regenerate_found iso at now id summary items expected gate cur = do
  lift (check_match expected cur)
  insert_backup id at regenerate (undo_snapshot cur)
  tag ← lift (
      next_etag iso now
        (get "updatedAt" (put_gate gate (put "actionItems" items (put "summary" summary cur)))))
  persist (regenerated summary items gate tag cur)
  pure (some (regenerated summary items gate tag cur))

-- `apply_regenerate`; it reads the clock for the backup and for the ETag.
unfoldable pub apply_regenerate :
    IsoText → ℕ → ℕ → String → Json → Json → Option Text → Option Json → Action (Option Meeting)
apply_regenerate iso at now id summary items expected gate t =
    with_meeting none (λ cur. regenerate_found iso at now id summary items expected gate cur)
      (select_meeting id t) t

-- A write of a value that may be missing.
abbrev pub put_some : String → Option Json → Meeting → Meeting
put_some k none m = m
put_some k (some v) m = put k v m

-- A backup from before the gate summary was kept leaves the current one.
abbrev pub put_snap_gate : Meeting → Meeting → Meeting
put_snap_gate snap m =
    if contains "gateSummary" snap then put "gateSummary" (get "gateSummary" snap) m else m

abbrev pub undone : Meeting → Meeting → Meeting
undone snap cur = put_snap_gate snap (
    put "actionItems" (get_or "actionItems" (arr nil) snap)
      (put "summary" (get "summary" snap) cur))

abbrev pub undo_found : IsoText → ℕ → Meeting → Backup → Action (Option Meeting × Bool)
undo_found iso now cur b = do
  tag ← lift (next_etag iso now (get "updatedAt" (undone b.body cur)))
  persist (put "updatedAt" (str tag) (undone b.body cur))
  λ t. (ok (some (put "updatedAt" (str tag) (undone b.body cur)), true), delete_backup b.id t)

abbrev pub restore_found :
    IsoText → ℕ → Meeting → Option Text → Option Backup → Action (Option Meeting × Bool)
restore_found iso now cur expected none = lift (check_match expected cur) >> pure (some cur, false)
restore_found iso now cur expected (some b) =
    lift (check_match expected cur) >> undo_found iso now cur b

-- `restore_latest_backup`.
unfoldable pub restore_latest_backup :
    IsoText → ℕ → String → Option Text → Action (Option Meeting × Bool)
restore_latest_backup iso now id expected t =
    with_meeting (none, false) (λ cur. restore_found iso now cur expected (find_undo id t))
      (select_meeting id t) t

-- `_ORIGINAL_FIELDS`.
abbrev pub original_fields : List String
original_fields = "title" ∷ "participants" ∷ "summary" ∷ "actionItems" ∷ "transcript" ∷ []

-- `{k: meeting.get(k) for k in _ORIGINAL_FIELDS}`.
abbrev pub pick : List String → Meeting → Meeting
pick [] m = []
pick (k ∷ ks) m = (k, get k m) ∷ pick ks m

-- `has_original`.
unfoldable pub has_original : String → Tables → Bool
has_original id t = is_some (find_original id t)

abbrev pub save_original : String → ℕ → Meeting → Action (Unit {0})
save_original id at m t =
    if has_original id t
    then (ok tt, t)
    else insert_backup id at original (pick original_fields m) t

-- A key that is no text is stored as the text that SQLite makes of it. A time that the store wrote is no id
-- of a meeting.
abbrev pub save_original_key : Json → ℕ → Meeting → Action (Unit {0})
save_original_key (str (raw id)) at m t =
    if truthy (str (raw id)) then save_original id at m t else (ok tt, t)
save_original_key (str (time n)) at m t = (err bad_key, t)
save_original_key null at m t = (ok tt, t)
save_original_key (bool b) at m t = if b then save_original "1" at m t else (ok tt, t)
save_original_key (num n) at m t = if truthy (num n) then save_original n at m t else (ok tt, t)
save_original_key (arr xs) at m t = if truthy (arr xs) then (err not_bindable, t) else (ok tt, t)
save_original_key (obj fs) at m t = if truthy (obj fs) then (err not_bindable, t) else (ok tt, t)

-- `save_original_snapshot`.
unfoldable pub save_original_snapshot : ℕ → Meeting → Action (Unit {0})
unfolding has_original
save_original_snapshot at m = save_original_key (get "id" m) at m

-- The loop of `restore_original` over its fields.
abbrev pub copy_fields : List String → Meeting → Meeting → Meeting
copy_fields [] snap cur = cur
copy_fields (k ∷ ks) snap cur = copy_fields ks snap (put_some k (get? k snap) cur)

abbrev pub revert_found : IsoText → ℕ → Meeting → Meeting → Action (Option Meeting × Bool)
revert_found iso now cur snap = do
  tag ← lift (next_etag iso now (get "updatedAt" (copy_fields original_fields snap cur)))
  persist (put "updatedAt" (str tag) (copy_fields original_fields snap cur))
  pure (some (put "updatedAt" (str tag) (copy_fields original_fields snap cur)), true)

abbrev pub original_found :
    IsoText → ℕ → Meeting → Option Text → Option Backup → Action (Option Meeting × Bool)
original_found iso now cur expected none = lift (check_match expected cur) >> pure (some cur, false)
original_found iso now cur expected (some b) =
    lift (check_match expected cur) >> revert_found iso now cur b.body

-- `restore_original`.
unfoldable pub restore_original :
    IsoText → ℕ → String → Option Text → Action (Option Meeting × Bool)
restore_original iso now id expected t =
    with_meeting (none, false) (λ cur. original_found iso now cur expected (find_original id t))
      (select_meeting id t) t

-- `delete`: the meeting and its backups.
unfoldable pub delete : String → Tables → Bool × Tables
delete id t = (
  contains (raw id) t.meetings,
  record t {
    meetings = remove (raw id) t.meetings;
    backups = select (λ b. not (of_meeting id b)) t.backups;
  },
)

-- The WHERE clause of `prune_expired_backups`.
abbrev pub expired : ℕ → Backup → Bool
expired cutoff b = ltb b.created_at cutoff && not (is_original b.reason)

-- `prune_expired_backups`; `rowcount` is the number of rows that the clause selects.
unfoldable pub prune_expired_backups : ℕ → ℕ → Tables → ℕ × Tables
prune_expired_backups now max_age t = (
  length (select (expired (now - max_age)) t.backups),
  record t { backups = select (λ b. not (expired (now - max_age) b)) t.backups },
)

-- `count_backups` and `count_meetings`.
unfoldable pub count_backups : Tables → ℕ
count_backups t = length t.backups

unfoldable pub count_meetings : Tables → ℕ
count_meetings t = length t.meetings + length t.keyless
