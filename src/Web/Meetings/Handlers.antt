-- ===== src/Web/Meetings/Handlers.antt =====
-- The handlers of meetings (src/web/app.py): the test of the owner, the call of the store and the status
-- of what it raises. The functions of src/postprocess/web_contract.py that they call are arguments, and
-- so is the parsed If-Match header. Audit lines, and the files and Google documents of a meeting that is
-- deleted, are not modelled.
use lb_note.Base.{
  ℕ, Option, none, some, Bool, true, false, not, ◌&&◌, String, if◌then◌else◌, string_Eq,
}
use lb_note.Base.Dict.{put, remove}
use lb_note.Web.App.Reply.{Reply, reply, fails}
use lb_note.Web.Store.Json.{Json, null, bool, num, str, arr, obj, Text, truthy, Meeting, get}
use lb_note.Web.Store.Etag.{
  Error, key_error, bad_key, not_bindable, not_null, type_error, precondition, rejected, Result, ok,
  err, IsoText,
}
use lb_note.Web.Store.Tables.{Tables, select_meeting}
use lb_note.Web.Store.Meetings.{
  Validator, is_text, update_if_match, apply_regenerate, restore_latest_backup, restore_original,
}
use lb_note.Web.Store.Meetings

-- `_fill_display_date`.
abbrev pub fill_display_date : Meeting → Meeting
fill_display_date m =
    if not (truthy (get "date" m)) && truthy (get "createdAt" m)
    then put "date" (get "createdAt" m) m
    else m

abbrev pub owned_by : Text → Option Meeting → Reply Meeting
owned_by user none = fails 404
owned_by user (some m) = if is_text (get "ownerId" m) user then reply m else fails 404

-- `_owned_or_404`.
unfoldable pub owned_or_404 : Text → String → Tables → Reply Meeting
owned_or_404 user id t = owned_by user (select_meeting id t)

-- `_owned_or_admin_404`.
unfoldable pub owned_or_admin_404 : Text → Bool → String → Tables → Reply Meeting
owned_or_admin_404 user is_admin id t = elim (select_meeting id t) [
  | none ↦ fails 404
  | some m ↦ if not (is_text (get "ownerId" m) user) && not is_admin then fails 404 else reply m
]

-- The status of an exception of the store.
abbrev pub status_of_error : Error → ℕ
status_of_error (precondition current) = 412
status_of_error (rejected why) = 422
status_of_error key_error = 500
status_of_error bad_key = 500
status_of_error not_bindable = 500
status_of_error not_null = 500
status_of_error type_error = 500

-- A handler answers and leaves tables.
abbrev pub Handler : Type 0
Handler = Tables → Reply Meeting × Tables

abbrev pub updated_reply : Result (Option Meeting) → Reply Meeting
updated_reply (ok none) = fails 404
updated_reply (ok (some m)) = reply m
updated_reply (err e) = fails (status_of_error e)

abbrev pub restored_reply : Result (Option Meeting × Bool) → Reply Meeting
restored_reply (ok (none, b)) = fails 404
restored_reply (ok (some m, false)) = fails 409
restored_reply (ok (some m, true)) = reply m
restored_reply (err e) = fails (status_of_error e)

-- A handler of the owner, on the header: 400 where it cannot be parsed.
abbrev pub if_owned : Reply Meeting → (Meeting → Handler) → Handler
if_owned (reply m) f t = f m t
if_owned (fails n) f t = (fails n, t)

abbrev pub if_parsed : Reply (Option Text) → (Option Text → Handler) → Handler
if_parsed (reply e) f t = f e t
if_parsed (fails n) f t = (fails n, t)

abbrev pub shown : Reply Meeting → Reply Meeting
shown (reply m) = reply (fill_display_date m)
shown (fails n) = fails n

-- `get_meeting`.
unfoldable pub get_meeting : Text → String → Handler
unfolding owned_or_404
get_meeting user id t = (shown (owned_or_404 user id t), t)

-- `patch_meeting`: the owner and the ETag of the patch are dropped.
unfoldable pub patch_meeting :
    IsoText → ℕ → Validator → Reply (Option Text) → Text → String → Meeting → Handler
patch_meeting iso now v header user id patch t =
    if_owned (owned_or_404 user id t)
      (λ cur. if_parsed header (λ expected u.
        let r =
          update_if_match iso now id (remove "updatedAt" (remove "ownerId" patch)) expected (some v)
            u in
        (shown (updated_reply r.0), r.1)))
      t

abbrev pub is_object : Json → Bool
is_object (obj fs) = true
is_object null = false
is_object (bool b) = false
is_object (num n) = false
is_object (str s) = false
is_object (arr xs) = false

-- `mode`, of which `none` is a text that is no mode.
pub data Mode : Type 0 where
  prompt preserve_edited overwrite : Mode

-- `ensure_action_item_ids` and `merge_preserve_edited`.
pub record Contract : Type 0 where
  pub ensure_ids : Json → Json
  pub merge_edited : Meeting → Json → Json → Json × Json

abbrev pub applied : Contract → Option Mode → Meeting → Json → Json → Json × Json
applied c (some preserve_edited) m summary items =
    let (s, i) = c.merge_edited m summary items in (s, c.ensure_ids i)
applied c (some prompt) m summary items = (summary, items)
applied c (some overwrite) m summary items = (summary, items)
applied c none m summary items = (summary, items)

abbrev pub bad_mode : Option Mode → Bool
bad_mode none = true
bad_mode (some m) = false

-- `regenerate_apply`.
unfoldable pub regenerate_apply :
    IsoText
    → ℕ
    → ℕ
    → Contract
    → Reply (Option Text)
    → Text
    → String
    → Option Mode
    → Json
    → Json
    → Json
    → Handler
regenerate_apply iso at now c header user id mode summary items gate t =
    if_owned (owned_or_404 user id t)
      (λ m u.
        if not (is_object summary)
        then (fails 400, u)
        else (if bad_mode mode
            then (fails 400, u)
            else if_parsed header
                (λ expected u'.
                  let r =
                    apply_regenerate iso at now id (applied c mode m summary (c.ensure_ids items)).0
                      (applied c mode m summary (c.ensure_ids items)).1 expected
                      (if is_object gate then some gate else none) u' in
                  (updated_reply r.0, r.1))
                u))
      t

-- `regenerate_undo`.
unfoldable pub regenerate_undo : IsoText → ℕ → Reply (Option Text) → Text → String → Handler
regenerate_undo iso now header user id t =
    if_owned (owned_or_404 user id t)
      (λ m. if_parsed header (λ expected u.
        let r = restore_latest_backup iso now id expected u in (restored_reply r.0, r.1)))
      t

-- `revert_meeting`.
unfoldable pub revert_meeting : IsoText → ℕ → Reply (Option Text) → Text → String → Handler
revert_meeting iso now header user id t =
    if_owned (owned_or_404 user id t)
      (λ m. if_parsed header (λ expected u.
        let r = restore_original iso now id expected u in (shown (restored_reply r.0), r.1)))
      t

-- `delete_meeting`, which answers the meeting that it deleted here.
unfoldable pub delete_meeting : Text → String → Handler
delete_meeting user id t =
    if_owned (owned_or_404 user id t) (λ m u. (reply m, (Meetings.delete id u).1)) t
