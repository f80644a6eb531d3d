-- ===== src/Web/Store/Etag.antt =====
-- The ETag of a meeting: `_next_etag` of src/web/store.py, and the errors that the methods raise.
use lb_note.Base.{ℕ, ◌+◌, Option, none, some, Bool, String, if◌then◌else◌, ltb, not}
use lb_note.Web.Store.Json.{Json, null, bool, num, str, arr, obj, Text, time, raw, truthy}

-- What a call raises: `KeyError`, a key that is no text, a value that SQLite does not bind, a NULL in
-- a NOT NULL column, `TypeError`, `PreconditionFailedError` with the current `updatedAt`, and the
-- exception of a validator.
pub data Error : Type 0 where
  key_error bad_key not_bindable not_null type_error : Error
  precondition : Json → Error
  rejected : String → Error

pub data Result {ℓ} (A : Type ℓ) : Type ℓ where
  ok : A → Result A
  err : Error → Result A

-- What Python says of a text that is not in the store's own format: whether the text of an instant
-- stands after it in string order, and the text of `fromisoformat(prev)` plus 1 µs, with `none` where
-- that raises `ValueError` or has no time zone.
pub record IsoText : Type 0 where
  pub after : ℕ → String → Bool
  pub bump : String → Option Text

-- The `str | None` part of `_next_etag`, on a text that is not empty.
unfoldable pub next_after : IsoText → ℕ → Text → Text
next_after iso now (time p) = if ltb p now then time now else time (p + 1)
next_after iso now (raw s) =
    if iso.after now s then time now else elim (iso.bump s) [ none ↦ time now | some t ↦ t ]

-- A value that is no text has no order with one: `now > prev` raises `TypeError`.
abbrev compare_etag : IsoText → ℕ → Json → Result Text
compare_etag iso now (str t) = ok (next_after iso now t)
compare_etag iso now (bool b) = err type_error
compare_etag iso now (num n) = err type_error
compare_etag iso now (arr xs) = err type_error
compare_etag iso now (obj fs) = err type_error
compare_etag iso now null = err type_error

-- `_next_etag(prev)` when the clock says `now`.
unfoldable pub next_etag : IsoText → ℕ → Json → Result Text
next_etag iso now prev = if not (truthy prev) then ok (time now) else compare_etag iso now prev
