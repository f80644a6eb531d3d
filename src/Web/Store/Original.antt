-- ===== src/Web/Store/Original.antt =====
-- The original snapshot of a meeting (src/web/store.py): nothing but a delete of the meeting takes
-- it away, and `restore_original` brings its fields back.
use lb_note.Base.{
  select-select, ℕ, ◌-◌, ◌≡◌, ◌≢◌, sym, ap, subst, ◌∙◌, none, some, Bool, true, false, not, ◌&&◌,
  List, [], ◌∷◌, String, arith, ◌==◌, nat_Eq, string_Eq, ==_iff, ne→beq, All, select, Option-cases,
  inl, inr, &&_left, &&_right, if◌then◌else◌,
}
use lb_note.Web.Store.Json.{Json, null, bool, num, str, arr, obj, time, raw, truthy, Meeting, get}
use lb_note.Web.Store.Etag.{IsoText}
use lb_note.Web.Store.Tables.{
  original, regenerate, is_original, Backup, Tables, of_meeting, original_of, earliest, persist,
  insert_backup, find_undo, find_original, delete_backup,
}
use lb_note.Web.Store.Meetings
use lb_note.Web.Store.Meetings.{expired, save_original, save_original_key, pick, original_fields}
use lb_note.Web.Store.Valid.{
  IsValid, persist-IsValid, insert_backup-IsValid, select_backups-IsValid, All-remove, select-nil,
  earliest-none,
}
use lb_note.Web.Store.Keeps.{
  create-Keeps, merge-Keeps, update_if_match-Keeps, apply_regenerate-Keeps,
  restore_latest_backup-keeps, restore_original-Keeps,
}
use lb_note.Web.Store.Rows.{select-snoc_false, undo_spares}
use lb_note.Web.Store.Trace.{Call, run, run_all}
use lb_note.Web.Store.Backups.{persist-backups}

-- The call does not delete the meeting.
abbrev pub Spares : String → Call → Type 0
Spares mid (Call.delete id) = mid ≢ id
Spares mid _ = Unit

and_false : (b : Bool) → (b && false) ≡ false
and_false b = ground arith

module _ (mid : String) (o : Backup) where
  -- The invariant, and the original of one meeting.
  abbrev Holds : Tables → Type 0
  Holds t = IsValid t × (find_original mid t ≡ some o)

  persist-Holds : (m : Meeting) (t : Tables) → Holds t → Holds (persist m t).1
  persist-Holds m t (v, e) = (
    persist-IsValid m t v,
    ap (λ bs. earliest (select (original_of mid) bs)) (persist-backups m t) ∙ e,
  )

  regenerate-Holds :
      (id : String) (at : ℕ) (snap : Meeting) (t : Tables)
      → Holds t
      → Holds (insert_backup id at regenerate snap t).1
  unfolding insert_backup
  regenerate-Holds id at snap t (v, e) = (
    unfold insert_backup in insert_backup-IsValid id at regenerate snap t v (λ x. cc x),
    ap earliest (select-snoc_false (original_of mid) t.backups _ (and_false (id == mid))) ∙ e,
  )

  -- A second original is never written, and one of another meeting is not asked for.
  original-Holds :
      (id : String) (at : ℕ) (snap : Meeting) (t : Tables)
      → Holds t
      → find_original id t ≡ none
      → Holds (insert_backup id at original snap t).1
  unfolding insert_backup
  original-Holds id at snap t (v, e) fresh = (
    insert_backup-IsValid id at original snap t v
        (λ x. select-nil (original_of id) t.backups (earliest-none _ fresh)),
    ap earliest (
          select-snoc_false (original_of mid) t.backups _ (
            rw (
              ne→beq mid id
                (λ q. none≢some (sym fresh ∙ ap (λ x. find_original x t) (sym q) ∙ e)))))
        ∙ e,
  )
    where
      none≢some : none ≡ some o → ⊥
      none≢some h = cc h

  -- A DELETE that spares the originals of the meeting.
  select-Holds :
      (q : Backup → Bool) (t : Tables)
      → Holds t
      → All (λ c. original_of mid c ≡ true → q c ≡ true) t.backups
      → Holds (record t { backups = select q t.backups })
  select-Holds q t (v, e) h = (
    select_backups-IsValid q t v,
    ap earliest (select-select (original_of mid) q t.backups h) ∙ e,
  )

  save_original_snapshot-Holds :
      (at : ℕ) (m : Meeting) (t : Tables)
      → Holds t
      → Holds (Meetings.save_original_snapshot at m t).1
  unfolding Meetings.save_original_snapshot
  save_original_snapshot-Holds at m t h = key_case (get "id" m)
    where
      saved : (id : String) → Holds (save_original id at m t).1
      saved id = elim (Option-cases (find_original id t)) [
        | inl fresh ↦ rw fresh (original-Holds id at (pick original_fields m) t h fresh)
        | inr (b, e) ↦ rw e h
      ]

      either :
          {A : Type 0} (b : Bool) (x y : A × Tables)
          → Holds x.1
          → Holds y.1
          → Holds (if b then x else y).1
      either true x y k l = k
      either false x y k l = l

      key_case : (j : Json) → Holds (save_original_key j at m t).1
      key_case (str (raw id)) = either (truthy (str (raw id))) _ _ (saved id) h
      key_case (str (time n)) = h
      key_case null = h
      key_case (bool b) = either b _ _ (saved "1") h
      key_case (num n) = either (truthy (num n)) _ _ (saved n) h
      key_case (arr xs) = either (truthy (arr xs)) _ _ h h
      key_case (obj fs) = either (truthy (obj fs)) _ _ h h

  -- What is deleted with another meeting is none of this meeting's.
  delete-Holds : (id : String) (t : Tables) → mid ≢ id → Holds t → Holds (Meetings.delete id t).1
  unfolding Meetings.delete
  delete-Holds id t ne h =
      let s = select-Holds (λ b. not (of_meeting id b)) t h (spared t.backups) in
      (run-IsValid_delete (s.0), s.1)
    where
      other : (c : Backup) → original_of mid c ≡ true → not (of_meeting id c) ≡ true
      other c e =
          let same =
            (==_iff c.meeting_id mid).0 (&&_left (of_meeting mid c) (is_original c.reason) e) in
          rw (ne→beq id c.meeting_id (λ q. ne (sym (q ∙ same))))

      spared :
          (xs : List Backup) → All (λ c. original_of mid c ≡ true → not (of_meeting id c) ≡ true) xs
      spared [] = tt
      spared (c ∷ cs) = (other c, spared cs)

      run-IsValid_delete :
          IsValid (record t { backups = select (λ b. not (of_meeting id b)) t.backups })
          → IsValid (Meetings.delete id t).1
      run-IsValid_delete v = record {
        ordered = v.ordered;
        below = v.below;
        one_original = v.one_original;
        synced = All-remove (raw id) t.meetings v.synced;
        loose = v.loose;
      }

  prune-Holds :
      (now age : ℕ) (t : Tables) → Holds t → Holds (Meetings.prune_expired_backups now age t).1
  unfolding Meetings.prune_expired_backups
  prune-Holds now age t h = select-Holds (λ b. not (expired (now - age) b)) t h (spared t.backups)
    where
      kept : (c : Backup) → original_of mid c ≡ true → not (expired (now - age) c) ≡ true
      kept c e = rw (&&_right (of_meeting mid c) (is_original c.reason) e, and_false)

      spared :
          (xs : List Backup)
          → All (λ c. original_of mid c ≡ true → not (expired (now - age) c) ≡ true) xs
      spared [] = tt
      spared (c ∷ cs) = (kept c, spared cs)

  -- The undo consumes a row that is no original.
  consume-Holds :
      (id : String) (b : Backup) (w : Meeting) (t : Tables)
      → Holds t
      → find_undo id t ≡ some b
      → Holds (delete_backup b.id (persist w t).1)
  consume-Holds id b w t h e =
      select-Holds (λ c. not (c.id == b.id)) (persist w t).1 (persist-Holds w t h)
        (subst (All (λ (c : Backup). original_of mid c ≡ true → not (c.id == b.id) ≡ true))
          (sym (persist-backups w t)) (undo_spares id mid b t.backups h.0.ordered e))

  run-Holds : (iso : IsoText) (c : Call) (t : Tables) → Spares mid c → Holds t → Holds (run iso c t)
  unfolding run
  run-Holds iso (Call.create m) t s h = create-Keeps Holds persist-Holds m t h
  run-Holds iso (Call.merge id patch) t s h = merge-Keeps Holds persist-Holds id patch t h
  run-Holds iso (Call.update_if_match now id patch e v) t s h =
      update_if_match-Keeps Holds persist-Holds iso now id patch e v t h
  run-Holds iso (Call.apply_regenerate at now id sm i e g) t s h =
      apply_regenerate-Keeps Holds persist-Holds iso at now id sm i e g (regenerate-Holds id at) t h
  run-Holds iso (Call.restore_latest_backup now id e) t s h =
      restore_latest_backup-keeps Holds persist-Holds iso now id e t h
        (λ b w q. consume-Holds id b w t h q)
  run-Holds iso (Call.save_original_snapshot at m) t s h = save_original_snapshot-Holds at m t h
  run-Holds iso (Call.restore_original now id e) t s h =
      restore_original-Keeps Holds persist-Holds iso now id e t h
  run-Holds iso (Call.delete id) t s h = delete-Holds id t s h
  run-Holds iso (Call.prune_expired_backups now age) t s h = prune-Holds now age t h

  run_all-Holds :
      (iso : IsoText) (cs : List Call) (t : Tables)
      → All (Spares mid) cs
      → Holds t
      → Holds (run_all iso cs t)
  unfolding run_all
  run_all-Holds iso [] t s h = h
  run_all-Holds iso (c ∷ cs) t s h =
      run_all-Holds iso cs (run iso c t) s.1 (run-Holds iso c t s.0 h)

-- Once a meeting has an original, every sequence of calls that does not delete the meeting leaves
-- that same row as its original: undo, regeneration, pruning and further snapshots do not touch it.
pub original_kept :
    (iso : IsoText) (cs : List Call) (mid : String) (t : Tables) {o : Backup}
    → IsValid t
    → find_original mid t ≡ some o
    → All (Spares mid) cs
    → find_original mid (run_all iso cs t) ≡ some o
original_kept iso cs mid t {o = o} v e s = (run_all-Holds mid o iso cs t s (v, e)).1
