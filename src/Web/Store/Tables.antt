-- ===== src/Web/Store/Tables.antt =====
-- The tables of src/web/store.py and the statements that its methods run on them. Each method
-- holds the store's lock, so it is one step on the tables; a call that raises hands back what it
-- wrote before, since the connection keeps its open transaction.
use lb_note.Base.{
  ℕ, ◌+◌, Option, none, some, Bool, true, false, not, ◌&&◌, List, [], ◌∷◌, ◌++◌, String,
  if◌then◌else◌, ltb, ◌==◌, nat_Eq, string_Eq, select,
}
use lb_note.Base.Dict.{Dict, get?, get_or, put}
use lb_note.Web.Store.Json.{Json, null, bool, num, str, arr, obj, Text, text_Eq, raw, Meeting, get}
use lb_note.Web.Store.Etag.{Error, key_error, not_bindable, not_null, Result, ok, err}

-- A row of `meetings`, without its key.
pub record Row : Type 0 where
  pub owner_id : Json
  pub status : Json
  pub title : Json
  pub created_at : Json
  pub updated_at : Json
  pub body : Meeting

-- The `reason` column: what the methods write there.
pub data Reason : Type 0 where
  original regenerate : Reason

abbrev pub is_original : Reason → Bool
is_original original = true
is_original regenerate = false

-- A row of `meeting_backup`.
pub record Backup : Type 0 where
  pub id : ℕ
  pub meeting_id : String
  pub created_at : ℕ
  pub reason : Reason
  pub body : Meeting

-- `next_id` is what AUTOINCREMENT gives next; it never goes back.
pub record Tables : Type 0 where
  pub meetings : Dict Text Row
  -- Rows whose id is NULL, which the column type of the primary key allows: no call finds one by its id.
  pub keyless : List Row
  pub backups : List Backup
  pub next_id : ℕ

-- A method: it returns or raises, and leaves tables.
abbrev pub Action : Type 0 → Type 0
Action A = Tables → Result A × Tables

module _ {A : Type 0} where
  abbrev pub pure : A → Action A
  pure a t = (ok a, t)

  abbrev pub raise : Error → Action A
  raise e t = (err e, t)

  abbrev pub lift : Result A → Action A
  lift r t = (r, t)

  abbrev pub continue : {B : Type 0} → Result A → Tables → (A → Action B) → Result B × Tables
  continue (ok a) u f = f a u
  continue (err e) u f = (err e, u)

module _ {A B : Type 0} where
  infixl 5 ◌>>=◌ ◌>>◌
  abbrev pub ◌>>=◌ : Action A → (A → Action B) → Action B
  ◌>>=◌ first next t = continue (first t).0 (first t).1 next

  abbrev pub ◌>>◌ : Action A → Action B → Action B
  first >> next = first >>= λ ignored. next

abbrev pub body_of : Option Row → Option Meeting
body_of none = none
body_of (some r) = some r.body

-- `SELECT data FROM meetings WHERE id=?`.
abbrev pub select_meeting : String → Tables → Option Meeting
select_meeting id t = body_of (get? (raw id) t.meetings)

-- `if row is None: return …`, and the rest of the method on the meeting that was read.
abbrev pub with_meeting : {A : Type 0} → A → (Meeting → Action A) → Option Meeting → Action A
with_meeting a f none t = (ok a, t)
with_meeting a f (some cur) t = f cur t

-- The columns that a meeting is written with.
abbrev pub row_of : Meeting → Row
row_of m = record {
  owner_id = get_or "ownerId" (str (raw "local")) m;
  status = get "status" m;
  title = get "title" m;
  created_at = get "createdAt" m;
  updated_at = get "updatedAt" m;
  body = m;
}

-- SQLite binds no list and no dict.
abbrev pub bindable : Json → Bool
bindable (arr xs) = false
bindable (obj fs) = false
bindable null = true
bindable (bool b) = true
bindable (num n) = true
bindable (str s) = true

abbrev pub row_bindable : Row → Bool
row_bindable r =
    bindable r.owner_id
    && (bindable r.status && (bindable r.title && (bindable r.created_at && bindable r.updated_at)))

abbrev pub is_null : Json → Bool
is_null null = true
is_null _ = false

abbrev pub put_row : Option Text → Row → Tables → Tables
put_row none r t = record t { keyless = t.keyless ++ (r ∷ []) }
put_row (some k) r t = record t { meetings = put k r t.meetings }

-- `INSERT OR REPLACE INTO meetings`, with what stops it before it writes.
unfoldable pub insert_row : Option Text → Row → Action (Unit {0})
insert_row id r t =
    if row_bindable r
    then (if is_null r.owner_id then (err not_null, t) else (ok tt, put_row id r t))
    else (err not_bindable, t)

-- `cur["id"]` as SQLite stores it in the TEXT column: a number and a Boolean become texts, None is NULL,
-- and a list or a dict cannot be bound.
abbrev pub key_of : Option Json → Result (Option Text)
key_of none = err key_error
key_of (some (str s)) = ok (some s)
key_of (some null) = ok none
key_of (some (bool true)) = ok (some (raw "1"))
key_of (some (bool false)) = ok (some (raw "0"))
key_of (some (num n)) = ok (some (raw n))
key_of (some (arr xs)) = err not_bindable
key_of (some (obj fs)) = err not_bindable

-- `_persist_locked`, and the statement of `create`.
unfoldable pub persist : Meeting → Action (Unit {0})
persist m = lift (key_of (get? "id" m)) >>= λ id. insert_row id (row_of m)

-- `INSERT INTO meeting_backup`.
unfoldable pub insert_backup : String → ℕ → Reason → Meeting → Action (Unit {0})
insert_backup mid at why snap t =
    let b : Backup = record {
      id = t.next_id;
      meeting_id = mid;
      created_at = at;
      reason = why;
      body = snap;
    } in
    (ok tt, record t { backups = t.backups ++ (b ∷ []); next_id = t.next_id + 1 })

abbrev pub of_meeting : String → Backup → Bool
of_meeting mid b = b.meeting_id == mid

abbrev pub undoable : String → Backup → Bool
undoable mid b = of_meeting mid b && not (is_original b.reason)

abbrev pub original_of : String → Backup → Bool
original_of mid b = of_meeting mid b && is_original b.reason

abbrev pub newer : Backup → Option Backup → Option Backup
newer b none = some b
newer b (some c) = if ltb c.id b.id then some b else some c

abbrev pub older : Backup → Option Backup → Option Backup
older b none = some b
older b (some c) = if ltb b.id c.id then some b else some c

-- `ORDER BY id DESC LIMIT 1`.
unfoldable pub latest : List Backup → Option Backup
latest [] = none
latest (b ∷ bs) = newer b (latest bs)

-- `ORDER BY id ASC LIMIT 1`.
unfoldable pub earliest : List Backup → Option Backup
earliest [] = none
earliest (b ∷ bs) = older b (earliest bs)

abbrev pub find_undo : String → Tables → Option Backup
find_undo mid t = latest (select (undoable mid) t.backups)

abbrev pub find_original : String → Tables → Option Backup
find_original mid t = earliest (select (original_of mid) t.backups)

-- `DELETE FROM meeting_backup WHERE id=?`.
abbrev pub delete_backup : ℕ → Tables → Tables
delete_backup n t = record t { backups = select (λ b. not (b.id == n)) t.backups }
