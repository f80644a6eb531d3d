-- ===== src/Web/Store/Removal.antt =====
-- `delete` and `prune_expired_backups` of src/web/store.py.
use lb_note.Base.{
  ℕ, ◌+◌, ◌-◌, ◌≤◌, ◌≡◌, ◌≢◌, ◌⊎◌, refl, sym, ap, ◌∙◌, Option, none, some, Bool, true, false, not,
  ◌&&◌, List, String, arith, string_Eq, ==_iff, ==_refl, ne→beq, All, All-of, All-map,
  All-select_test, select-select, length-select, select, length, ltb, leb,
}
use lb_note.Base.Dict.{get?, is_some, get?-remove}
use lb_note.Web.Store.Json.{raw, text_Eq}
use lb_note.Web.Store.Writes.{raw_injective}
use lb_note.Web.Store.Tables.{
  is_original, Backup, Tables, of_meeting, original_of, find_original, earliest, Row, body_of,
  select_meeting,
}
use lb_note.Web.Store.Meetings.{delete, expired, prune_expired_backups}

-- A delete says whether the meeting was there. Afterwards neither the meeting nor a backup of it
-- is left, and the other meetings and their backups are as before.
pub delete_removes :
    (id : String) (t : Tables)
    → ((delete id t).0 ≡ is_some (select_meeting id t))
      × (select_meeting id (delete id t).1 ≡ none)
      × All (λ b. of_meeting id b ≡ false) (delete id t).1.backups
      × ((other : String)
          → other ≢ id
          → (select_meeting other (delete id t).1 ≡ select_meeting other t)
            × (select (of_meeting other) (delete id t).1.backups
                ≡ select (of_meeting other) t.backups))
unfolding delete
delete_removes id t = (
  same (get? (raw id) t.meetings),
  simp (get?-remove, ==_refl),
  cleared t.backups,
  λ other ne. (
    simp (get?-remove, ne→beq (raw other) (raw id) (λ e. ne (raw_injective e))),
    select-select (of_meeting other) (λ b. not (of_meeting id b)) t.backups
        (All-of _ t.backups (λ b e.
          rw (ne→beq id b.meeting_id (λ q. ne (sym (q ∙ (==_iff b.meeting_id other).0 e)))))),
  ),
)
  where
    same : (o : Option Row) → is_some o ≡ is_some (body_of o)
    same none = refl
    same (some r) = refl

    cleared :
        (xs : List Backup)
        → All (λ b. of_meeting id b ≡ false) (select (λ b. not (of_meeting id b)) xs)
    cleared xs =
        All-map (λ b. not (of_meeting id b) ≡ true) _ _ (λ b e. ground arith)
          (All-select_test (λ b. not (of_meeting id b)) xs)

-- A pruning deletes as many backups as it reports. What is left is an original or young enough, and
-- no meeting loses its original, a young backup or its row.
pub prune_expired_backups_exact :
    (now age : ℕ) (t : Tables)
    → ((prune_expired_backups now age t).0 + length (prune_expired_backups now age t).1.backups
        ≡ length t.backups)
      × All
          (λ (b : Backup). (is_original b.reason ≡ true) ⊎ (now - age ≤ b.created_at))
          (prune_expired_backups now age t).1.backups
      × ((mid : String)
          → find_original mid (prune_expired_backups now age t).1 ≡ find_original mid t)
      × (select (λ b. leb (now - age) b.created_at) (prune_expired_backups now age t).1.backups
          ≡ select (λ b. leb (now - age) b.created_at) t.backups)
      × ((prune_expired_backups now age t).1.meetings ≡ t.meetings)
unfolding prune_expired_backups
prune_expired_backups_exact now age t = (
  length-select (expired (now - age)) t.backups,
  All-map (λ b. not (expired (now - age) b) ≡ true) _ _ (λ b e. left (is_original b.reason) e)
      (All-select_test (λ b. not (expired (now - age) b)) t.backups),
  λ mid. ap earliest (
      select-select (original_of mid) (λ b. not (expired (now - age) b)) t.backups
        (All-of _ t.backups (λ b e. ground arith))),
  select-select (λ b. leb (now - age) b.created_at) (λ b. not (expired (now - age) b)) t.backups
      (All-of _ t.backups (λ b e. ground arith)),
  refl,
)
  where
    left :
        {c : ℕ} (o : Bool) → not (ltb c (now - age) && not o) ≡ true → (o ≡ true) ⊎ (now - age ≤ c)
    left o e = ground arith
