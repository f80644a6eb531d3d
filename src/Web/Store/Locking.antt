-- ===== src/Web/Store/Locking.antt =====
-- Optimistic locking: `update_if_match` of src/web/store.py, and what it keeps.
use lb_note.Base.{
  ℕ, ◌+◌, ◌<◌, ◌≤◌, ◌≡◌, ◌≢◌, refl, ◌∙◌, sym, ap, Option, none, some, false, String, arith, ◌==◌,
  string_Eq, max, ==_iff, Bool-cases, inl, inr,
}
use lb_note.Base.Dict.{get?, get_or, update}
use lb_note.Web.Store.Json.{Json, str, Text, time, raw, Meeting, get, text_Eq}
use lb_note.Web.Store.Etag.{precondition, ok, err, IsoText, next_etag}
use lb_note.Web.Store.Tables.{Tables, select_meeting, persist, pure, ◌>>◌}
use lb_note.Web.Store.Meetings.{Validator, is_text, check_match, validate, merged, update_if_match}
use lb_note.Web.Store.Writes.{
  written, persist-pure_ok, continue-eq-ok, select-written, get-updated_at-merged, get?-merged_id,
  next_etag_time,
}

-- What a conditional write that returns a meeting has written.
pub record Wrote (iso : IsoText) (now : ℕ) (id : String) (asked : Meeting) (v : Option Validator)
    (cur : Meeting) (t : Tables) (m : Meeting) (u : Tables) : Type 0 where
  pub patch : Meeting
  pub checked : validate v cur asked ≡ ok patch
  pub tag : Text
  pub new_tag : next_etag iso now (get "updatedAt" cur) ≡ ok tag
  pub content : m ≡ merged cur patch tag
  pub tables : u ≡ written id m t

is_text_ne : (j : Json) (e : Text) → j ≢ str e → is_text j e ≡ false
is_text_ne (str s) e h = elim (Bool-cases (s == e)) [
  | inl y ↦ absurd (h (ap str ((==_iff s e).0 y)))
  | inr n ↦ n
]
is_text_ne _ e h = refl

Wrote-of :
    (iso : IsoText) (now : ℕ) (id : String) (asked : Meeting) (v : Option Validator) (t u : Tables)
    {cur m : Meeting} (p : Meeting) (tag : Text)
    → validate v cur asked ≡ ok p
    → get? "id" p ≡ none
    → get? "id" cur ≡ some (str (raw id))
    → next_etag iso now (get "updatedAt" cur) ≡ ok tag
    → (persist (merged cur p tag) >> pure (some (merged cur p tag))) t ≡ (ok (some m), u)
    → Wrote iso now id asked v cur t m u
Wrote-of iso now id asked v t u {cur = cur} {m = m} p tag checked fixed key n h =
    let (content, tables) =
      persist-pure_ok (merged cur p tag) (some (merged cur p tag)) (some m) id t u
        (get?-merged_id cur p tag fixed ∙ key) h in
    record {
      patch = p;
      checked = checked;
      tag = tag;
      new_tag = n;
      content = cc content;
      tables = tables ∙ ap (λ x. written id x t) (cc content);
    }

module _ (iso : IsoText) (now : ℕ) (id : String) (patch : Meeting) (expected : Option Text)
    (validator : Option Validator) (t u : Tables) {cur m : Meeting}
    (found : select_meeting id t ≡ some cur) (key : get? "id" cur ≡ some (str (raw id)))
    (fixed : (p : Meeting) → validate validator cur patch ≡ ok p → get? "id" p ≡ none) where
  pub update_if_match-Wrote :
      update_if_match iso now id patch expected validator t ≡ (ok (some m), u)
      → Wrote iso now id patch validator cur t m u
  unfolding update_if_match
  update_if_match-Wrote h =
      let (_, _, h₁) = continue-eq-ok (check_match expected cur) t _ (rw found at h) in
      let (p, e, h₂) = continue-eq-ok (validate validator cur patch) t _ h₁ in
      let (tag, n, h₃) = continue-eq-ok (next_etag iso now (get "updatedAt" cur)) t _ h₂ in
      Wrote-of iso now id patch validator t u p tag e (fixed p e) key n h₃

-- A write that expects another tag raises with the current one and changes nothing.
pub update_if_match_refused :
    (iso : IsoText) (now : ℕ) (id : String) (patch : Meeting) (e : Text) (v : Option Validator)
    (t : Tables) {cur : Meeting}
    → select_meeting id t ≡ some cur
    → get "updatedAt" cur ≢ str e
    → update_if_match iso now id patch (some e) v t ≡ (err (precondition (get "updatedAt" cur)), t)
unfolding update_if_match
update_if_match_refused iso now id patch e v t {cur = cur} found other =
    rw found (rw (is_text_ne (get "updatedAt" cur) e other))

tag_of :
    (iso : IsoText) (now p : ℕ) (id : String) (t u : Tables) {asked cur m : Meeting}
    {v : Option Validator}
    → get "updatedAt" cur ≡ str (time p)
    → Wrote iso now id asked v cur t m u
    → get "updatedAt" m ≡ str (time (max now (p + 1)))
tag_of iso now p id t u {cur = cur} tagged w =
    rw (w.content, get-updated_at-merged cur w.patch w.tag)
      (ap str (next_etag_time iso now p (get "updatedAt" cur) tagged w.new_tag))

stale_refused :
    (iso : IsoText) (later p q : ℕ) (id : String) (patch : Meeting) (v : Option Validator)
    (u : Tables) (m : Meeting)
    → select_meeting id u ≡ some m
    → get "updatedAt" m ≡ str (time q)
    → p < q
    → update_if_match iso later id patch (some (time p)) v u
      ≡ (err (precondition (str (time q))), u)
stale_refused iso later p q id patch v u m found tag lt = rw (← tag) (
    update_if_match_refused iso later id patch (time p) v u found
      (λ e. let e' : str (time q) ≡ str (time p) = sym tag ∙ e in ground arith))

-- A meeting stands under its own id with a tag that the store wrote, and two writers hold that tag. Once
-- the first one's update has gone through, with a patch that, as its validator leaves it, names no id, the
-- second one's is refused: it raises with the current tag, which is later than the one both had read, and
-- changes nothing.
pub update_if_match_stale :
    (iso : IsoText) (now later p : ℕ) (id : String) (patch patch' : Meeting)
    (v v' : Option Validator) (t u : Tables) {cur m : Meeting}
    → select_meeting id t ≡ some cur
    → get? "id" cur ≡ some (str (raw id))
    → get "updatedAt" cur ≡ str (time p)
    → ((q : Meeting) → validate v cur patch ≡ ok q → get? "id" q ≡ none)
    → update_if_match iso now id patch (some (time p)) v t ≡ (ok (some m), u)
    → (q : ℕ) × (p < q)
      × (now ≤ q)
      × (update_if_match iso later id patch' (some (time p)) v' u
          ≡ (err (precondition (str (time q))), u))
update_if_match_stale iso now later p id patch patch' v v' t u {cur = cur} {m = m} found key tagged
      fixed h =
    let w = update_if_match-Wrote iso now id patch (some (time p)) v t u found key fixed h in
    (
      max now (p + 1),
      omega arith,
      omega arith,
      stale_refused iso later p (max now (p + 1)) id patch' v' u m
          (rw w.tables (select-written id m t)) (tag_of iso now p id t u tagged w) (omega arith),
    )

-- What stays and what changes under a write without a validator.
abbrev pub Frame : String → Meeting → Meeting → Meeting → Tables → Tables → Type 0
Frame id cur patch m t u =
    ((k : String) → k ≢ "ownerId" → k ≢ "updatedAt" → get? k m ≡ get? k (update cur patch))
    × (get? "ownerId" m ≡ some (get_or "ownerId" (str (raw "local")) cur))
    × (select_meeting id u ≡ some m)
    × ((other : String) → other ≢ id → select_meeting other u ≡ select_meeting other t)
    × (u.backups ≡ t.backups)
