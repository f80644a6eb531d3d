-- ===== src/Web/Meetings/Isolation.antt =====
-- No user's requests touch another user's meeting (src/web/app.py), but for a patch that names an id.
use lb_note.Base.{
  ℕ, ◌≡◌, ◌≢◌, sym, ap, ◌∙◌, Option, none, some, false, List, [], ◌∷◌, String, if◌then◌else◌, ◌==◌,
  ==_iff, string_Eq, All, Bool-cases, inl, inr, true≢false,
}
use lb_note.Base.Dict.{get?, remove, get?-remove}
use lb_note.Web.App.Reply.{Reply, reply, fails}
use lb_note.Web.Store.Json.{Json, Text, Meeting, get}
use lb_note.Web.Store.Etag.{ok, IsoText}
use lb_note.Web.Store.Tables.{Tables, select_meeting}
use lb_note.Web.Store.Meetings.{Validator, is_text}
use lb_note.Web.Store.Valid.{IsValid}
use lb_note.Web.Store.Trace.{Call, run, run-IsValid}
use lb_note.Web.Store.Removal.{delete_removes}
use lb_note.Web.Meetings.Handlers.{
  owned_or_404, owned_by, Handler, if_owned, if_parsed, get_meeting, patch_meeting, Mode, Contract,
  bad_mode, applied, is_object, regenerate_apply, regenerate_undo, revert_meeting, delete_meeting,
}
use lb_note.Web.Meetings.Others.{
  update_if_match_other, apply_regenerate_other, restore_latest_backup_other,
  restore_original_other,
}

pub data Request : Type 0 where
  reads : (id : String) → Request
  patches : (now : ℕ) (header : Reply (Option Text)) (id : String) (patch : Meeting) → Request
  applies :
      (at now : ℕ) (header : Reply (Option Text)) (id : String) (mode : Option Mode)
      (summary items gate : Json)
      → Request
  undoes : (now : ℕ) (header : Reply (Option Text)) (id : String) → Request
  reverts : (now : ℕ) (header : Reply (Option Text)) (id : String) → Request
  deletes : (id : String) → Request

module _ (iso : IsoText) (v : Validator) (c : Contract) where
  -- The handler of a request of the user.
  unfoldable pub answer : Text → Request → Handler
  answer user (reads id) = get_meeting user id
  answer user (patches now header id patch) = patch_meeting iso now v header user id patch
  answer user (applies at now header id mode summary items gate) =
      regenerate_apply iso at now c header user id mode summary items gate
  answer user (undoes now header id) = regenerate_undo iso now header user id
  answer user (reverts now header id) = revert_meeting iso now header user id
  answer user (deletes id) = delete_meeting user id

  unfoldable pub answer_all : List (Text × Request) → Tables → Tables
  answer_all [] t = t
  answer_all ((user, r) ∷ rest) t = answer_all rest (answer user r t).1

-- A patch names no id.
abbrev pub IsPlain : Request → Type 0
IsPlain (reads id) = Unit {0}
IsPlain (patches now header id patch) = get? "id" patch ≡ none
IsPlain (applies at now header id mode summary items gate) = Unit {0}
IsPlain (undoes now header id) = Unit {0}
IsPlain (reverts now header id) = Unit {0}
IsPlain (deletes id) = Unit {0}

-- The requests are plain and none is of the meeting's owner.
abbrev pub Foreign : Meeting → List (Text × Request) → Type 0
Foreign m rs = All (λ q. IsPlain q.1 × (is_text (get "ownerId" m) q.0 ≡ false)) rs

abbrev Safe : String → Meeting → Tables → Type 0
Safe vid m t = IsValid t × (select_meeting vid t ≡ some m)

if_owned-Safe :
    (vid : String) (m : Meeting) (user : Text) (id : String) (f : Meeting → Handler) (t : Tables)
    → Safe vid m t
    → is_text (get "ownerId" m) user ≡ false
    → (vid ≢ id → (cur : Meeting) → Safe vid m (f cur t).1)
    → Safe vid m (if_owned (owned_or_404 user id t) f t).1
unfolding owned_or_404
if_owned-Safe vid m user id f t (v, s) foreign k = elim (Bool-cases (vid == id)) [
  | inl y ↦ rw (ap (λ i. select_meeting i t) (sym ((==_iff vid id).0 y)) ∙ s, foreign) (v, s)
  | inr n ↦
      rest (owned_by user (select_meeting id t))
        (k (λ e. true≢false (sym ((==_iff vid id).1 e) ∙ n)))
]
  where
    rest :
        (o : Reply Meeting)
        → ((cur : Meeting) → Safe vid m (f cur t).1)
        → Safe vid m (if_owned o f t).1
    rest (reply cur) g = g cur
    rest (fails x) g = (v, s)

if_parsed-Safe :
    (vid : String) (m : Meeting) (header : Reply (Option Text)) (f : Option Text → Handler)
    (t : Tables)
    → Safe vid m t
    → ((e : Option Text) → Safe vid m (f e t).1)
    → Safe vid m (if_parsed header f t).1
if_parsed-Safe vid m (reply e) f t h k = k e
if_parsed-Safe vid m (fails n) f t h k = h

module _ (iso : IsoText) (v : Validator) (c : Contract)
    (fixed : (cur p q : Meeting) → get? "id" p ≡ none → v cur p ≡ ok q → get? "id" q ≡ none) where
  plain_patch :
      (patch : Meeting)
      → get? "id" patch ≡ none
      → get? "id" (remove "updatedAt" (remove "ownerId" patch)) ≡ none
  plain_patch patch h = simp (get?-remove, h)

  answer-Safe :
      (vid : String) (m : Meeting) (user : Text) (r : Request) (t : Tables)
      → IsPlain r
      → is_text (get "ownerId" m) user ≡ false
      → Safe vid m t
      → Safe vid m (answer iso v c user r t).1
  unfolding answer get_meeting patch_meeting regenerate_apply regenerate_undo revert_meeting
      delete_meeting run
  answer-Safe vid m user (reads id) t plain foreign h = h
  answer-Safe vid m user (patches now header id patch) t plain foreign h =
      if_owned-Safe vid m user id _ t h foreign (λ ne cur. if_parsed-Safe vid m header _ t h (λ e. (
        run-IsValid iso
            (Call.update_if_match now id (remove "updatedAt" (remove "ownerId" patch)) e (some v)) t
            h.0,
        update_if_match_other iso now id (remove "updatedAt" (remove "ownerId" patch)) e v vid t h.0
              (λ cur' p q. fixed cur' _ p (plain_patch patch plain) q) ne
            ∙ h.1,
      )))
  answer-Safe vid m user (applies at now header id mode summary items gate) t plain foreign h =
      if_owned-Safe vid m user id _ t h foreign (λ ne cur. elim (Bool-cases (is_object summary)) [
        | inr n ↦ rw n h
        | inl y ↦ elim (Bool-cases (bad_mode mode)) [
          | inl b ↦ rw (y, b) h
          | inr g ↦
              rw (y, g)
                (if_parsed-Safe vid m header _ t h (λ e. (
                  run-IsValid iso
                      (Call.apply_regenerate at now id
                        (applied c mode cur summary (c.ensure_ids items)).0
                        (applied c mode cur summary (c.ensure_ids items)).1 e
                        (if is_object gate then some gate else none))
                      t h.0,
                  apply_regenerate_other iso at now id
                        (applied c mode cur summary (c.ensure_ids items)).0
                        (applied c mode cur summary (c.ensure_ids items)).1 e
                        (if is_object gate then some gate else none) vid t h.0 ne
                      ∙ h.1,
                )))
        ]
      ])
  answer-Safe vid m user (undoes now header id) t plain foreign h =
      if_owned-Safe vid m user id _ t h foreign (λ ne cur. if_parsed-Safe vid m header _ t h (λ e. (
        run-IsValid iso (Call.restore_latest_backup now id e) t h.0,
        restore_latest_backup_other iso now id e vid t h.0 ne ∙ h.1,
      )))
  answer-Safe vid m user (reverts now header id) t plain foreign h =
      if_owned-Safe vid m user id _ t h foreign (λ ne cur. if_parsed-Safe vid m header _ t h (λ e. (
        run-IsValid iso (Call.restore_original now id e) t h.0,
        restore_original_other iso now id e vid t h.0 ne ∙ h.1,
      )))
  answer-Safe vid m user (deletes id) t plain foreign h =
      if_owned-Safe vid m user id _ t h foreign (λ ne cur.
        (run-IsValid iso (Call.delete id) t h.0, ((delete_removes id t).3 vid ne).0 ∙ h.1))

  -- Whatever reads, patches, regenerations, undos, reverts and deletions other users ask for, in whatever
  -- order and for whichever ids, a meeting of an owner who makes none of them stays as it is. Creations are
  -- not among the requests. No patch names an id, the tables satisfy the invariant of the store, and the
  -- validator adds no id to a patch.
  pub meetings_isolated :
      (vid : String) (m : Meeting) (requests : List (Text × Request)) (t : Tables)
      → IsValid t
      → Foreign m requests
      → select_meeting vid t ≡ some m
      → select_meeting vid (answer_all iso v c requests t) ≡ some m
  unfolding answer_all
  meetings_isolated vid m [] t valid foreign s = s
  meetings_isolated vid m ((user, r) ∷ rest) t valid foreign s =
      let h = answer-Safe vid m user r t foreign.0.0 foreign.0.1 (valid, s) in
      meetings_isolated vid m rest (answer iso v c user r t).1 h.0 foreign.1 h.1
