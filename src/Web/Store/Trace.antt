-- ===== src/Web/Store/Trace.antt =====
-- The methods of src/web/store.py as steps on the tables, in any order. Each holds the lock, so the
-- calls of all threads run one after the other; only `update` reads and writes in two steps.
use lb_note.Base.{ℕ, sym, Option, List, [], ◌∷◌, String, inl, inr, Option-cases, true≢false}
use lb_note.Web.Store.Json.{
  Json, null, bool, num, str, arr, obj, Text, time, raw, truthy, Meeting, get,
}
use lb_note.Web.Store.Etag.{IsoText}
use lb_note.Web.Store.Tables.{original, regenerate, Tables, persist, find_original, original_of}
use lb_note.Web.Store.Meetings
use lb_note.Web.Store.Meetings.{Validator, save_original, save_original_key, pick, original_fields}
use lb_note.Web.Store.Valid.{
  IsValid, if-IsValid, persist-IsValid, insert_backup-IsValid, select_backups-IsValid, All-remove,
  select-nil, earliest-none,
}
use lb_note.Web.Store.Keeps.{
  create-Keeps, merge-Keeps, update_if_match-Keeps, apply_regenerate-Keeps,
  restore_latest_backup-keeps, restore_original-Keeps,
}

-- The arguments of each method that may write, with what the clock says when it reads it.
pub data Call : Type 0 where
  create : Meeting → Call
  merge : String → Meeting → Call
  update_if_match : ℕ → String → Meeting → Option Text → Option Validator → Call
  apply_regenerate : ℕ → ℕ → String → Json → Json → Option Text → Option Json → Call
  restore_latest_backup : ℕ → String → Option Text → Call
  save_original_snapshot : ℕ → Meeting → Call
  restore_original : ℕ → String → Option Text → Call
  delete : String → Call
  prune_expired_backups : ℕ → ℕ → Call

-- The tables after a call, whether it returned or raised.
unfoldable pub run : IsoText → Call → Tables → Tables
run iso (Call.create m) t = (Meetings.create m t).1
run iso (Call.merge id patch) t = (Meetings.merge id patch t).1
run iso (Call.update_if_match now id patch e v) t =
    (Meetings.update_if_match iso now id patch e v t).1
run iso (Call.apply_regenerate at now id s i e g) t =
    (Meetings.apply_regenerate iso at now id s i e g t).1
run iso (Call.restore_latest_backup now id e) t = (Meetings.restore_latest_backup iso now id e t).1
run iso (Call.save_original_snapshot at m) t = (Meetings.save_original_snapshot at m t).1
run iso (Call.restore_original now id e) t = (Meetings.restore_original iso now id e t).1
run iso (Call.delete id) t = (Meetings.delete id t).1
run iso (Call.prune_expired_backups now age) t = (Meetings.prune_expired_backups now age t).1

unfoldable pub run_all : IsoText → List Call → Tables → Tables
unfolding run
run_all iso [] t = t
run_all iso (c ∷ cs) t = run_all iso cs (run iso c t)

-- The tables of a new database.
abbrev pub empty : Tables
empty = record { meetings = []; keyless = []; backups = []; next_id = 1 }

-- The first original of a meeting is written only where there is none.
pub save_original_snapshot-IsValid :
    (at : ℕ) (m : Meeting) (t : Tables)
    → IsValid t
    → IsValid (Meetings.save_original_snapshot at m t).1
unfolding Meetings.save_original_snapshot
save_original_snapshot-IsValid at m t v = key_case (get "id" m)
  where
    saved : (id : String) → IsValid (save_original id at m t).1
    saved id = elim (Option-cases (find_original id t)) [
      | inl fresh ↦ rw fresh (
          insert_backup-IsValid id at original (pick original_fields m) t v
            (λ _. select-nil (original_of id) t.backups (earliest-none _ fresh)))
      | inr (b, e) ↦ rw e v
    ]

    key_case : (j : Json) → IsValid (save_original_key j at m t).1
    key_case (str (raw id)) = if-IsValid (truthy (str (raw id))) _ _ (saved id) v
    key_case (str (time n)) = v
    key_case null = v
    key_case (bool b) = if-IsValid b _ _ (saved "1") v
    key_case (num n) = if-IsValid (truthy (num n)) _ _ (saved n) v
    key_case (arr xs) = if-IsValid (truthy (arr xs)) _ _ v v
    key_case (obj fs) = if-IsValid (truthy (obj fs)) _ _ v v

pub run-IsValid : (iso : IsoText) (c : Call) (t : Tables) → IsValid t → IsValid (run iso c t)
unfolding run Meetings.delete Meetings.prune_expired_backups
run-IsValid iso (Call.create m) t v = create-Keeps IsValid persist-IsValid m t v
run-IsValid iso (Call.merge id patch) t v = merge-Keeps IsValid persist-IsValid id patch t v
run-IsValid iso (Call.update_if_match now id patch e val) t v =
    update_if_match-Keeps IsValid persist-IsValid iso now id patch e val t v
run-IsValid iso (Call.apply_regenerate at now id s i e g) t v =
    apply_regenerate-Keeps IsValid persist-IsValid iso at now id s i e g
      (λ snap u w.
        insert_backup-IsValid id at regenerate snap u w (λ x. absurd (true≢false (sym x))))
      t v
run-IsValid iso (Call.restore_latest_backup now id e) t v =
    restore_latest_backup-keeps IsValid persist-IsValid iso now id e t v
      (λ b w _. select_backups-IsValid _ (persist w t).1 (persist-IsValid w t v))
run-IsValid iso (Call.save_original_snapshot at m) t v = save_original_snapshot-IsValid at m t v
run-IsValid iso (Call.restore_original now id e) t v =
    restore_original-Keeps IsValid persist-IsValid iso now id e t v
run-IsValid iso (Call.delete id) t v = record {
  ordered = (select_backups-IsValid _ t v).ordered;
  below = (select_backups-IsValid _ t v).below;
  one_original = (select_backups-IsValid _ t v).one_original;
  synced = All-remove (raw id) t.meetings v.synced;
  loose = v.loose;
}
run-IsValid iso (Call.prune_expired_backups now age) t v = select_backups-IsValid _ t v

pub run_all-IsValid :
    (iso : IsoText) (cs : List Call) (t : Tables) → IsValid t → IsValid (run_all iso cs t)
unfolding run_all
run_all-IsValid iso [] t v = v
run_all-IsValid iso (c ∷ cs) t v = run_all-IsValid iso cs (run iso c t) (run-IsValid iso c t v)
