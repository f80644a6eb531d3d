-- ===== src/Web/Store/Revert.antt =====
-- `restore_original` of src/web/store.py brings back what `save_original_snapshot` kept.
use lb_note.Base.{
  select-append, ℕ, ◌≡◌, ◌≢◌, refl, sym, ap, ◌∙◌, Option, none, some, Bool, true, false, List, [],
  ◌∷◌, String, ◌==◌, string_Eq, ==_iff, ==_refl, ne→beq, All, select, Bool-cases, inl, inr,
}
use lb_note.Base.Dict.{get?, put, get?-put, get?-put_self}
use lb_note.Web.Store.Json.{Json, str, Text, raw, Meeting, get}
use lb_note.Web.Store.Etag.{Result, ok, IsoText, next_etag}
use lb_note.Web.Store.Tables.{
  Backup, original, Tables, persist, insert_backup, find_original, original_of, earliest,
  select_meeting, with_meeting,
}
use lb_note.Web.Store.Meetings
use lb_note.Web.Store.Meetings.{
  check_match, copy_fields, put_some, original_fields, pick, original_found, restore_original,
}
use lb_note.Web.Store.Valid.{IsValid, earliest-none}
use lb_note.Web.Store.Writes.{continue-eq-ok}
use lb_note.Web.Store.Trace.{Call, run_all, save_original_snapshot-IsValid}
use lb_note.Web.Store.Original.{Spares, original_kept}

-- A field that already has the snapshot's value keeps it.
copy_fields-keeps :
    (k : String) (v : Json) (ks : List String) (snap cur : Meeting)
    → get? k snap ≡ some v
    → get? k cur ≡ some v
    → get? k (copy_fields ks snap cur) ≡ some v
copy_fields-keeps k v [] snap cur s c = c
copy_fields-keeps k v (j ∷ js) snap cur s c =
    copy_fields-keeps k v js snap (put_some j (get? j snap) cur) s (copied (get? j snap) refl)
  where
    copied : (o : Option Json) → get? j snap ≡ o → get? k (put_some j o cur) ≡ some v
    copied none e = c
    copied (some w) e = elim (Bool-cases (j == k)) [
      | inl y ↦ simp (get?-put, y) (sym e ∙ ap (λ x. get? x snap) ((==_iff j k).0 y) ∙ s)
      | inr n ↦ simp (get?-put, n) c
    ]

-- A field that the snapshot has takes the snapshot's value.
copy_fields-copies :
    (k : String) (v : Json) (ks : List String) (snap cur : Meeting)
    → get? k snap ≡ some v
    → get? k (copy_fields (k ∷ ks) snap cur) ≡ some v
copy_fields-copies k v ks snap cur s =
    rw s (copy_fields-keeps k v ks snap (put k v cur) s (get?-put_self k v cur))

copy_fields-other :
    (k : String) (ks : List String) (snap cur : Meeting)
    → All (λ j. k ≢ j) ks
    → get? k (copy_fields ks snap cur) ≡ get? k cur
copy_fields-other k [] snap cur h = refl
copy_fields-other k (j ∷ js) snap cur h =
    copy_fields-other k js snap (put_some j (get? j snap) cur) h.1 ∙ untouched (get? j snap)
  where
    untouched : (o : Option Json) → get? k (put_some j o cur) ≡ get? k cur
    untouched none = refl
    untouched (some w) = simp (get?-put, ne→beq k j h.0)

copy_fields-All :
    (ks : List String) (snap cur m : Meeting)
    → All (λ k. get? k snap ≡ some (get k m)) ks
    → All (λ k. get? k (copy_fields ks snap cur) ≡ some (get k m)) ks
copy_fields-All [] snap cur m h = tt
copy_fields-All (k ∷ ks) snap cur m h = (
  copy_fields-copies k (get k m) ks snap cur h.0,
  copy_fields-All ks snap (put_some k (get? k snap) cur) m h.1,
)

pick-All :
    (m : Meeting) → All (λ k. get? k (pick original_fields m) ≡ some (get k m)) original_fields
unfolding get?
pick-All m = (refl, (refl, (refl, (refl, (refl, tt)))))

-- The row that the first snapshot of a meeting writes.
abbrev pub original_row : String → ℕ → Meeting → Tables → Backup
original_row id at m t = record {
  id = t.next_id;
  meeting_id = id;
  created_at = at;
  reason = original;
  body = pick original_fields m;
}

save_original_snapshot-found :
    (id : String) (at : ℕ) (m : Meeting) (t : Tables)
    → get "id" m ≡ str (raw id)
    → id ≢ ""
    → find_original id t ≡ none
    → find_original id (Meetings.save_original_snapshot at m t).1 ≡ some (original_row id at m t)
unfolding Meetings.save_original_snapshot insert_backup earliest
save_original_snapshot-found id at m t key nonempty fresh =
    rw (key, ne→beq "" id (λ e. nonempty (sym e)), fresh)
      (rw (select-append (original_of id) t.backups (original_row id at m t ∷ []))
        (rw (earliest-none (select (original_of id) t.backups) fresh, ==_refl id)))

reverted_ok :
    (iso : IsoText) (now : ℕ) (cur : Meeting) (b : Backup) (t u : Tables) {r : Meeting}
    → original_found iso now cur none (some b) t ≡ (ok (some r, true), u)
    → (tag : Text) × (r ≡ put "updatedAt" (str tag) (copy_fields original_fields b.body cur))
reverted_ok iso now cur b t u {r = r} h =
    let back = copy_fields original_fields b.body cur in
    let (tag, _, h₁) = continue-eq-ok (next_etag iso now (get "updatedAt" back)) t _ h in
    (
      tag,
      returned (put "updatedAt" (str tag) back)
          (continue-eq-ok (persist (put "updatedAt" (str tag) back) t).0 _ _ h₁).2,
    )
  where
    returned :
        (w : Meeting) {s : Tables}
        → ◌≡◌ {A = Result (Option Meeting × Bool) × Tables}
            (ok (some w, true), s)
            (ok (some r, true), u)
        → r ≡ w
    returned w e = cc e

reverted-All :
    (cur m r : Meeting) (b : Backup) (tag : Text)
    → b.body ≡ pick original_fields m
    → r ≡ put "updatedAt" (str tag) (copy_fields original_fields b.body cur)
    → All (λ k. get? k r ≡ some (get k m)) original_fields
reverted-All cur m r b tag same e =
    rw (e, same)
      (simp get?-put (copy_fields-All original_fields (pick original_fields m) cur m (pick-All m)))

reverted_from :
    (iso : IsoText) (now : ℕ) (m : Meeting) (b : Backup) (o : Option Meeting) (t u : Tables)
    {r : Meeting}
    → b.body ≡ pick original_fields m
    → with_meeting (none, false) (λ cur. original_found iso now cur none (some b)) o t
      ≡ (ok (some r, true), u)
    → All (λ k. get? k r ≡ some (get k m)) original_fields
reverted_from iso now m b none t u same h = cc h
reverted_from iso now m b (some cur) t u {r = r} same h =
    let (tag, e) = reverted_ok iso now cur b t u h in reverted-All cur m r b tag same e

-- The snapshot at creation, then any calls that do not delete the meeting, then a revert that
-- returns a meeting: its title, participants, summary, action items and transcript are those of the
-- meeting as it was created, with null for a field that it did not have.
pub restore_original_round_trip :
    (iso : IsoText) (at now : ℕ) (id : String) (m : Meeting) (cs : List Call) (t u : Tables)
    {r : Meeting}
    → IsValid t
    → get "id" m ≡ str (raw id)
    → id ≢ ""
    → find_original id t ≡ none
    → All (Spares id) cs
    → restore_original iso now id none (run_all iso cs (Meetings.save_original_snapshot at m t).1)
      ≡ (ok (some r, true), u)
    → All (λ k. get? k r ≡ some (get k m)) original_fields
unfolding restore_original
restore_original_round_trip iso at now id m cs t u {r = r} v key nonempty fresh spared h =
    let t₁ = (Meetings.save_original_snapshot at m t).1 in
    let e =
      original_kept iso cs id t₁ (save_original_snapshot-IsValid at m t v)
        (save_original_snapshot-found id at m t key nonempty fresh) spared in
    reverted_from iso now m (original_row id at m t) (select_meeting id (run_all iso cs t₁))
      (run_all iso cs t₁) u refl (rw e at h)
