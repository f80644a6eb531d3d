-- ===== src/Web/Store/Writes.antt =====
-- What the statements of src/web/store.py leave in the tables, and the new ETag.
use lb_note.Base.{ℕ, ◌+◌, ◌≡◌, ◌≢◌, refl, none, some, Option, String, arith, string_Eq, ne→beq, max}
use lb_note.Base.Dict.{get?, get_or, update, put, get?-put, get?-put_self, get?-update-none}
use lb_note.Web.Store.Json.{Json, str, Text, time, raw, Meeting, get, text_Eq}
use lb_note.Web.Store.Etag.{Error, Result, ok, err, IsoText, next_after, next_etag}
use lb_note.Web.Store.Tables.{
  Row, Tables, Action, pure, ◌>>◌, continue, select_meeting, row_of, key_of, insert_row, put_row,
  persist,
}
use lb_note.Web.Store.Meetings.{merged}

-- The tables with the meeting written under a key.
abbrev pub written : String → Meeting → Tables → Tables
written id m t = record t { meetings = put (raw id) (row_of m) t.meetings }

insert_row_ok :
    (k : Option Text) (r : Row) (t u : Tables) {x : Unit {0}}
    → insert_row k r t ≡ (ok x, u)
    → u ≡ put_row k r t
unfolding insert_row
insert_row_ok k r t u h = ground arith

insert_row_err :
    (k : Option Text) (r : Row) (t u : Tables) {e : Error} → insert_row k r t ≡ (err e, u) → u ≡ t
unfolding insert_row
insert_row_err k r t u h = ground arith

-- A meeting is written under its own `id`, with the columns of its own fields.
pub persist_ok :
    (m : Meeting) (t u : Tables) {x : Unit {0}} (id : String)
    → get? "id" m ≡ some (str (raw id))
    → persist m t ≡ (ok x, u)
    → u ≡ written id m t
unfolding persist
persist_ok m t u id k h = insert_row_ok (some (raw id)) (row_of m) t u (rw k at h)

insert_keyed_err :
    (k : Result (Option Text)) (r : Row) (t u : Tables) {e : Error}
    → continue k t (λ id. insert_row id r) ≡ (err e, u)
    → u ≡ t
insert_keyed_err (ok id) r t u h = insert_row_err id r t u h
insert_keyed_err (err e) r t u h = cc

-- A write that raises has changed nothing.
pub persist_err : (m : Meeting) (t u : Tables) {e : Error} → persist m t ≡ (err e, u) → u ≡ t
unfolding persist
persist_err m t u h = insert_keyed_err (key_of (get? "id" m)) (row_of m) t u h

-- What a chain that returns has done.
pub continue-eq-ok :
    {A B : Type 0} (r : Result A) (t : Tables) (f : A → Action B) {b : B} {u : Tables}
    → continue r t f ≡ (ok b, u)
    → (a : A) × (r ≡ ok a) × (f a t ≡ (ok b, u))
continue-eq-ok (ok a) t f h = (a, refl, h)
continue-eq-ok (err e) t f h = cc

pub select-written :
    (id : String) (m : Meeting) (t : Tables) → select_meeting id (written id m t) ≡ some m
select-written id m t = rw get?-put_self refl

-- The new ETag of a text of the store's own stands after it, and not before the clock.
pub next_after-lt :
    (iso : IsoText) (now p : ℕ) → next_after iso now (time p) ≡ time (max now (p + 1))
unfolding next_after
next_after-lt iso now p = ground arith

pub get-updated_at-merged :
    (cur patch : Meeting) (tag : Text) → get "updatedAt" (merged cur patch tag) ≡ str tag
get-updated_at-merged cur patch tag = rw get?-put_self refl

pub get?-merged_id :
    (cur patch : Meeting) (tag : Text)
    → get? "id" patch ≡ none
    → get? "id" (merged cur patch tag) ≡ get? "id" cur
get?-merged_id cur patch tag h = simp get?-put (get?-update-none "id" patch cur h)

persisted_ok :
    {B : Type 0} (w : Meeting) (b b' : B) (id : String) (t u : Tables) (r : Result (Unit {0}))
    (s : Tables)
    → get? "id" w ≡ some (str (raw id))
    → persist w t ≡ (r, s)
    → continue r s (λ _. pure b) ≡ (ok b', u)
    → (b' ≡ b) × (u ≡ written id w t)
persisted_ok w b b' id t u (ok x) s k e h = (cc h, cc (h, persist_ok w t s id k e))
persisted_ok w b b' id t u (err x) s k e h = cc

-- A write and a return, when the pair of them returns.
pub persist-pure_ok :
    {B : Type 0} (w : Meeting) (b b' : B) (id : String) (t u : Tables)
    → get? "id" w ≡ some (str (raw id))
    → (persist w >> pure b) t ≡ (ok b', u)
    → (b' ≡ b) × (u ≡ written id w t)
persist-pure_ok w b b' id t u k h =
    persisted_ok w b b' id t u (persist w t).0 (persist w t).1 k refl h

pub next_etag_time :
    (iso : IsoText) (now p : ℕ) (v : Json) {tag : Text}
    → v ≡ str (time p)
    → next_etag iso now v ≡ ok tag
    → tag ≡ time (max now (p + 1))
unfolding next_etag
next_etag_time iso now p v e h = let h' = rw (e, next_after-lt iso now p) at h in cc

pub ok_injective : {A : Type 0} {a b : A} → ok a ≡ ok b → a ≡ b
ok_injective h = cc h

pub get?-merged :
    (k : String) (cur patch : Meeting) (tag : Text)
    → k ≢ "ownerId"
    → k ≢ "updatedAt"
    → get? k (merged cur patch tag) ≡ get? k (update cur patch)
get?-merged k cur patch tag a b = simp (get?-put, ne→beq k "ownerId" a, ne→beq k "updatedAt" b)

pub get?-merged_owner :
    (cur patch : Meeting) (tag : Text)
    → get? "ownerId" (merged cur patch tag) ≡ some (get_or "ownerId" (str (raw "local")) cur)
get?-merged_owner cur patch tag = simp get?-put

pub raw_injective : {s t : String} → raw s ≡ raw t → s ≡ t
raw_injective e = cc e

pub select-written_ne :
    (other id : String) (m : Meeting) (t : Tables)
    → other ≢ id
    → select_meeting other (written id m t) ≡ select_meeting other t
select-written_ne other id m t ne =
    simp (get?-put, ne→beq (raw other) (raw id) (λ e. ne (raw_injective e)))
