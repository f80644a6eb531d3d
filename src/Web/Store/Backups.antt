-- ===== src/Web/Store/Backups.antt =====
-- A write of a meeting leaves `meeting_backup` (src/web/store.py) as it is.
use lb_note.Base.{◌≡◌, refl, Option, none, some, Bool, true, false, if◌then◌else◌, string_Eq}
use lb_note.Base.Dict.{get?}
use lb_note.Web.Store.Json.{Text, Meeting}
use lb_note.Web.Store.Etag.{Result, ok, err}
use lb_note.Web.Store.Tables.{
  Row, Tables, continue, row_of, key_of, row_bindable, is_null, insert_row, put_row, persist,
}

if-backups :
    {A : Type 0} (b : Bool) (x y : A × Tables) (t : Tables)
    → x.1.backups ≡ t.backups
    → y.1.backups ≡ t.backups
    → (if b then x else y).1.backups ≡ t.backups
if-backups true x y t h k = h
if-backups false x y t h k = k

put_row-backups : (k : Option Text) (r : Row) (t : Tables) → (put_row k r t).backups ≡ t.backups
put_row-backups none r t = refl
put_row-backups (some k) r t = refl

insert_row-backups :
    (k : Option Text) (r : Row) (t : Tables) → (insert_row k r t).1.backups ≡ t.backups
unfolding insert_row
insert_row-backups k r t =
    if-backups (row_bindable r) _ _ t
      (if-backups (is_null r.owner_id) _ _ t refl (put_row-backups k r t)) refl

pub persist-backups : (m : Meeting) (t : Tables) → (persist m t).1.backups ≡ t.backups
unfolding persist
persist-backups m t = keyed (key_of (get? "id" m))
  where
    keyed :
        (k : Result (Option Text))
        → (continue k t (λ id. insert_row id (row_of m))).1.backups ≡ t.backups
    keyed (ok id) = insert_row-backups id (row_of m) t
    keyed (err e) = refl
