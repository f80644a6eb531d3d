-- ===== src/Web/Notices.antt =====
-- `NoticeStore` of src/web/store.py: the notices that an administrator writes and the Slack bot
-- reads. A table with an INTEGER PRIMARY KEY holds its rows in the order of their ids.
pub mod Newest
pub mod Edits
mod Tests
use lb_note.Base.{
  ℕ, ◌+◌, Option, none, some, Bool, true, false, not, ◌&&◌, List, [], ◌∷◌, ◌++◌, String, ◌==◌,
  nat_Eq, if◌then◌else◌, ltb, select, length, reverse,
}

pub record Notice : Type 0 where
  pub id : ℕ
  pub title : Option String
  pub body : String
  pub active : Bool
  pub created_by : Option String
  pub created_at : ℕ
  pub updated_at : ℕ

-- `next_id` is what AUTOINCREMENT gives next.
pub record Table : Type 0 where
  pub rows : List Notice
  pub next_id : ℕ

abbrev pub first : List Notice → Option Notice
first [] = none
first (n ∷ ns) = some n

-- `get`.
unfoldable pub get : ℕ → Table → Option Notice
get id t = first (select (λ n. n.id == id) t.rows)

-- `add` at the time `now`; it returns the row that it reads back.
unfoldable pub add : ℕ → String → Option String → Option String → Table → Option Notice × Table
unfolding get
add now body title created_by t =
    let n : Notice = record {
      id = t.next_id;
      title = title;
      body = body;
      active = true;
      created_by = created_by;
      created_at = now;
      updated_at = now;
    } in
    let u : Table = record { rows = t.rows ++ (n ∷ []); next_id = t.next_id + 1 } in
    (get t.next_id u, u)

abbrev pub later : Notice → Option Notice → Option Notice
later n none = some n
later n (some m) = if ltb m.id n.id then some n else some m

-- `ORDER BY id DESC LIMIT 1`.
unfoldable pub newest : List Notice → Option Notice
newest [] = none
newest (n ∷ ns) = later n (newest ns)

-- `latest`.
unfoldable pub latest : Table → Option Notice
latest t = newest (select (λ (n : Notice). n.active) t.rows)

-- `list`.
unfoldable pub list : Table → List Notice
list t = reverse t.rows

abbrev pub given {ℓ} : {A : Type ℓ} → Option A → A → A
given none x = x
given (some y) x = y

-- A title that is given replaces the title; there is no way to give none.
abbrev pub given_title : Option String → Option String → Option String
given_title none x = x
given_title (some y) x = some y

abbrev pub is_none {ℓ} : {A : Type ℓ} → Option A → Bool
is_none none = true
is_none (some x) = false

-- The columns that `SET` names.
abbrev pub assign : ℕ → Option String → Option String → Option Bool → Notice → Notice
assign now body title active n = record n {
  body = given body n.body;
  title = given_title title n.title;
  active = given active n.active;
  updated_at = now;
}

-- `UPDATE notices SET … WHERE id=?`.
unfoldable pub set_where : ℕ → (Notice → Notice) → List Notice → List Notice
set_where id f [] = []
set_where id f (n ∷ ns) = (if n.id == id then f n else n) ∷ set_where id f ns

-- `update`: no field given is a read; a row that is not there is `none`.
unfoldable pub update :
    ℕ → ℕ → Option String → Option String → Option Bool → Table → Option Notice × Table
unfolding get
update now id body title active t =
    if is_none body && (is_none title && is_none active)
    then (get id t, t)
    else (let u : Table = record t { rows = set_where id (assign now body title active) t.rows } in
        if is_none (get id t) then (none, u) else (get id u, u))

-- `delete`.
unfoldable pub delete : ℕ → Table → Bool × Table
unfolding get
delete id t = (not (is_none (get id t)), record t { rows = select (λ n. not (n.id == id)) t.rows })
