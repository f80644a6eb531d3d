-- ===== src/Web/Store/Tests.antt =====
-- Runs of the store (src/web/store.py) on one meeting, and its theorems at concrete inputs.
use lb_note.Base.{
  ℕ, ◌<◌, ◌≤◌, ◌≡◌, ◌≢◌, refl, Option, none, some, Bool, true, false, true≢false, sym, ap, ◌==◌,
  List, [], ◌∷◌, String, string_Eq, All, ◌⊎◌, ◌+◌, select, length, leb,
}
use lb_note.Base.Dict.{is_some, get?, put, update}
use lb_note.Web.Store.Json.{str, arr, nil, time, raw, Meeting, get}
use lb_note.Web.Store.Etag.{precondition, Result, ok, err, IsoText, next_etag, next_after}
use lb_note.Web.Store.Tables.{
  Tables, Backup, is_original, of_meeting, row_of, persist, insert_row, insert_backup,
  select_meeting, find_original, earliest, latest,
}
use lb_note.Web.Store.Meetings
use lb_note.Web.Store.Meetings.{
  original_fields, update_if_match, restore_latest_backup, restore_original,
}
use lb_note.Web.Store.Locking.{update_if_match_stale}
use lb_note.Web.Store.Valid.{IsValid}
use lb_note.Web.Store.Trace.{Call, run_all, run_all-IsValid}
use lb_note.Web.Store.Original.{original_kept}
use lb_note.Web.Store.Revert.{original_row, restore_original_round_trip}
use lb_note.Web.Store.Undo.{IsUndone, undo_after_regenerate}
use lb_note.Web.Store.Removal.{delete_removes, prune_expired_backups_exact}

abbrev iso : IsoText
iso = record { after = λ n s. true; bump = λ s. none }

abbrev minutes : Meeting
minutes =
    ("id", str (raw "m1"))
    ∷ ("ownerId", str (raw "kim"))
    ∷ ("title", str (raw "weekly"))
    ∷ ("summary", str (raw "first"))
    ∷ ("updatedAt", str (time 10))
    ∷ []

abbrev one : Tables
one = record { meetings = (raw "m1", row_of minutes) ∷ []; keyless = []; backups = []; next_id = 1 }

one-IsValid : IsValid one
unfolding get?
one-IsValid = record {
  ordered = tt;
  below = tt;
  one_original = λ mid. tt;
  synced = ((refl, refl), tt);
  loose = tt;
}

abbrev rename : Meeting
rename = ("title", str (raw "retro")) ∷ ("ownerId", str (raw "lee")) ∷ []

abbrev renamed : Tables
renamed = (update_if_match iso 20 "m1" rename (some (time 10)) none one).1

abbrev renamed_meeting : Meeting
renamed_meeting =
    ("id", str (raw "m1"))
    ∷ ("ownerId", str (raw "kim"))
    ∷ ("title", str (raw "retro"))
    ∷ ("summary", str (raw "first"))
    ∷ ("updatedAt", str (time 20))
    ∷ []

rename_runs :
    update_if_match iso 20 "m1" rename (some (time 10)) none one
    ≡ (ok (some renamed_meeting), renamed)
unfolding update_if_match next_etag next_after persist insert_row get? put update
rename_runs = refl

update_if_match_stale_example :
    (q : ℕ) × (10 < q)
    × (20 ≤ q)
    × (update_if_match iso 30 "m1" rename (some (time 10)) none renamed
        ≡ (err (precondition (str (time q))), renamed))
unfolding get?
update_if_match_stale_example =
    update_if_match_stale iso 20 30 10 "m1" rename rename none none one renamed {cur = minutes} refl
      refl refl (λ q e. unfold get? in rw (← cc_ok e) refl) rename_runs
  where
    cc_ok : {q : Meeting} → ok rename ≡ ok q → rename ≡ q
    cc_ok e = cc e

abbrev calls : List Call
calls =
    Call.apply_regenerate 21 22 "m1" (str (raw "second")) (arr nil) none none
    ∷ Call.restore_latest_backup 23 "m1" none
    ∷ Call.prune_expired_backups 1000 1
    ∷ Call.save_original_snapshot 24 minutes
    ∷ []

abbrev kept : Tables
kept = (Meetings.save_original_snapshot 11 minutes one).1

kept-found : find_original "m1" kept ≡ some (original_row "m1" 11 minutes one)
unfolding Meetings.save_original_snapshot insert_backup earliest get?
kept-found = refl

kept-IsValid : IsValid kept
unfolding Meetings.save_original_snapshot run_all
kept-IsValid = run_all-IsValid iso (Call.save_original_snapshot 11 minutes ∷ []) one one-IsValid

original_kept_example :
    find_original "m1" (run_all iso calls kept) ≡ some (original_row "m1" 11 minutes one)
original_kept_example =
    original_kept iso calls "m1" kept kept-IsValid kept-found (tt, (tt, (tt, (tt, tt))))

abbrev meeting_of : Result (Option Meeting × Bool) → Meeting
meeting_of (ok (some m, b)) = m
meeting_of (ok (none, b)) = []
meeting_of (err e) = []

abbrev after_calls : Tables
after_calls = run_all iso calls kept

abbrev reverted : Meeting
reverted = meeting_of (restore_original iso 40 "m1" none after_calls).0

revert_runs :
    restore_original iso 40 "m1" none after_calls
    ≡ (ok (some reverted, true), (restore_original iso 40 "m1" none after_calls).1)
unfolding restore_original run_all next_etag next_after persist insert_row insert_backup get? put
    update latest earliest Meetings.save_original_snapshot Meetings.apply_regenerate
    Meetings.restore_latest_backup Meetings.prune_expired_backups
revert_runs = refl

restore_original_round_trip_example :
    All (λ k. get? k reverted ≡ some (get k minutes)) original_fields
unfolding get? earliest
restore_original_round_trip_example =
    restore_original_round_trip iso 11 40 "m1" minutes calls one
      (restore_original iso 40 "m1" none after_calls).1 one-IsValid refl
      (λ e. absurd (true≢false (sym (ap is_m1 e)))) refl (tt, (tt, (tt, (tt, tt)))) revert_runs
  where
    is_m1 : String → Bool
    is_m1 s = s == ""

abbrev regenerated_run : Result (Option Meeting) × Tables
regenerated_run =
    Meetings.apply_regenerate iso 21 22 "m1" (str (raw "second")) (arr nil) none none one

abbrev returned : Result (Option Meeting) → Meeting
returned (ok (some m)) = m
returned (ok none) = []
returned (err e) = []

regenerate_runs : regenerated_run ≡ (ok (some (returned regenerated_run.0)), regenerated_run.1)
unfolding Meetings.apply_regenerate next_etag next_after persist insert_row insert_backup get? put
regenerate_runs = refl

undo_after_regenerate_example :
    (r : Meeting) × (w : Tables) × (restore_latest_backup iso 30 "m1" none regenerated_run.1
      ≡ (ok (some r, true), w))
    × (select_meeting "m1" w ≡ some r)
    × (w.backups ≡ one.backups)
    × IsUndone minutes r
unfolding get?
undo_after_regenerate_example =
    undo_after_regenerate iso 21 22 30 "m1" (str (raw "second")) (arr nil) none none one
      regenerated_run.1 {cur = minutes} one-IsValid refl refl regenerate_runs

delete_removes_example :
    ((Meetings.delete "m1" kept).0 ≡ is_some (select_meeting "m1" kept))
    × (select_meeting "m1" (Meetings.delete "m1" kept).1 ≡ none)
    × All (λ b. of_meeting "m1" b ≡ false) (Meetings.delete "m1" kept).1.backups
    × ((other : String)
        → other ≢ "m1"
        → (select_meeting other (Meetings.delete "m1" kept).1 ≡ select_meeting other kept)
          × (select (of_meeting other) (Meetings.delete "m1" kept).1.backups
              ≡ select (of_meeting other) kept.backups))
delete_removes_example = delete_removes "m1" kept

prune_expired_backups_exact_example :
    ((Meetings.prune_expired_backups 900 10 after_calls).0
        + length (Meetings.prune_expired_backups 900 10 after_calls).1.backups
      ≡ length after_calls.backups)
    × All
        (λ (b : Backup). (is_original b.reason ≡ true) ⊎ (890 ≤ b.created_at))
        (Meetings.prune_expired_backups 900 10 after_calls).1.backups
    × ((mid : String)
        → find_original mid (Meetings.prune_expired_backups 900 10 after_calls).1
          ≡ find_original mid after_calls)
    × (select
          (λ b. leb 890 b.created_at)
          (Meetings.prune_expired_backups 900 10 after_calls).1.backups
        ≡ select (λ b. leb 890 b.created_at) after_calls.backups)
    × ((Meetings.prune_expired_backups 900 10 after_calls).1.meetings ≡ after_calls.meetings)
prune_expired_backups_exact_example = prune_expired_backups_exact 900 10 after_calls
