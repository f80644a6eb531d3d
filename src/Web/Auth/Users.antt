-- ===== src/Web/Auth/Users.antt =====
-- The users table of `UserStore` (src/web/auth.py) as a dict by username. Password hashing is passlib's,
-- an argument; `now` is the time in seconds.
use lb_note.Base.{
  ℕ, ◌≡◌, Option, none, some, Bool, true, false, not, ◌||◌, List, [], ◌∷◌, String, if◌then◌else◌,
  ◌==◌, nat_Eq, list_Eq, string_Eq, select, length, map,
}
use lb_note.Base.Dict.{Dict, get?, put, remove, is_some, contains}
use lb_note.Base.Chars.{Chars}

-- `pbkdf2_sha256`, with the salt that a call draws.
pub record Passlib : Type 0 where
  pub hash : ℕ → Chars → Chars
  pub verify : Chars → Chars → Bool
  pub verify-hash : (salt : ℕ) (p : Chars) → verify p (hash salt p) ≡ true

-- `name_source`.
pub data NameSource : Type 0 where
  seed user : NameSource

pub record User : Type 0 where
  pub password_hash : Chars
  pub display_name : Option Chars
  pub role : Option String
  pub english_name : Option Chars
  pub job_title : Option Chars
  pub email : Option Chars
  pub must_change_password : Bool
  pub name_source : NameSource
  pub created_at : ℕ

abbrev pub Users : Type 0
Users = Dict Chars User

-- `x or y` on texts.
abbrev pub or_text : Option Chars → Chars → Chars
or_text none y = y
or_text (some []) y = y
or_text (some (c ∷ s)) y = c ∷ s

abbrev pub or_role : Option String → String → String
or_role none y = y
or_role (some r) y = if r == "" then y else r

-- `public_user`.
pub record PublicUser : Type 0 where
  pub username : Chars
  pub display_name : Chars
  pub role : String
  pub english_name : Option Chars
  pub job_title : Option Chars
  pub must_change_password : Bool

abbrev pub public_user : Chars → User → PublicUser
public_user name u = record {
  username = name;
  display_name = or_text u.display_name name;
  role = or_role u.role "user";
  english_name = u.english_name;
  job_title = u.job_title;
  must_change_password = u.must_change_password;
}

abbrev pub public_of : Chars → Option User → Option PublicUser
public_of name none = none
public_of name (some u) = some (public_user name u)

-- `UPDATE users SET … WHERE username=?`, with whether a row was there.
abbrev pub changed : Chars → (User → User) → Option User → Users → Bool × Users
changed name f none db = (false, db)
changed name f (some u) db = (true, put name (f u) db)

abbrev pub change : Chars → (User → User) → Users → Bool × Users
change name f db = changed name f (get? name db) db

-- `get`.
abbrev pub find : Chars → Users → Option User
find name db = get? name db

-- A new row, with the defaults of the columns that the statement does not name.
abbrev pub fresh : Chars → ℕ → Chars → Option Chars → String → User
fresh hash now name display role = record {
  password_hash = hash;
  display_name = some (or_text display name);
  role = some role;
  english_name = none;
  job_title = none;
  email = none;
  must_change_password = true;
  name_source = seed;
  created_at = now;
}

module _ (lib : Passlib) where
  abbrev pub upsert_row :
      ℕ
      → ℕ
      → Chars
      → Chars
      → Option Chars
      → String
      → Option Chars
      → Option Chars
      → Option User
      → User
  upsert_row salt now name pw display role english job none =
      record (fresh (lib.hash salt pw) now name display role) {
        english_name = english;
        job_title = job;
      }
  upsert_row salt now name pw display role english job (some u) = record u {
    password_hash = lib.hash salt pw;
    display_name = some (or_text display name);
    role = some role;
    english_name = english;
    job_title = job;
    must_change_password = true;
  }

  -- `upsert`.
  unfoldable pub upsert :
      ℕ → ℕ → Chars → Chars → Option Chars → String → Option Chars → Option Chars → Users → Users
  upsert salt now name pw display role english job db =
      put name (upsert_row salt now name pw display role english job (get? name db)) db

  -- `create_user`.
  unfoldable pub create_user : ℕ → ℕ → Chars → Chars → Option Chars → String → Users → Bool × Users
  create_user salt now name pw display role db =
      if contains name db
      then (false, db)
      else (true, put name (fresh (lib.hash salt pw) now name display role) db)

  abbrev pub kept_name : NameSource → Option Chars → Option Chars → Option Chars
  kept_name user old new = old
  kept_name seed old new = new

  abbrev pub seed_row : ℕ → ℕ → Chars → Chars → Option Chars → String → Option User → User
  seed_row salt now name pw display role none = fresh (lib.hash salt pw) now name display role
  seed_row salt now name pw display role (some u) = record u {
    display_name = kept_name u.name_source u.display_name (some (or_text display name));
    role = some role;
  }

  -- `seed_user`.
  unfoldable pub seed_user : ℕ → ℕ → Chars → Chars → Option Chars → String → Users → Users
  seed_user salt now name pw display role db =
      put name (seed_row salt now name pw display role (get? name db)) db

  -- `set_password`, by the user.
  unfoldable pub set_password : ℕ → Chars → Chars → Users → Bool × Users
  set_password salt name pw db =
      change name (λ u. record u { password_hash = lib.hash salt pw; must_change_password = false })
        db

  -- `admin_reset_password`.
  unfoldable pub admin_reset_password : ℕ → Chars → Chars → Users → Bool × Users
  admin_reset_password salt name pw db =
      change name (λ u. record u { password_hash = lib.hash salt pw; must_change_password = true })
        db

  abbrev pub verified : Chars → Chars → Option User → Option PublicUser
  verified name pw none = none
  verified name pw (some u) =
      if lib.verify pw u.password_hash then some (public_user name u) else none

  -- `verify`.
  unfoldable pub verify : Chars → Chars → Users → Option PublicUser
  verify name pw db = verified name pw (find name db)

-- `x if sent is not None else the old value`.
abbrev pub sent_or {ℓ} : {A : Type ℓ} → Option A → Option A → Option A
sent_or none old = old
sent_or (some x) old = some x

abbrev pub renamed : Option Chars → NameSource → NameSource
renamed none s = s
renamed (some n) s = user

abbrev pub none_sent : Option Chars → Option Chars → Option Chars → Bool
none_sent display english job = not (is_some display || is_some english || is_some job)

-- `update_profile`: what is not sent stays, and one field that is sent marks the name as the user's.
unfoldable pub update_profile :
    Chars → Option Chars → Option Chars → Option Chars → Users → Option PublicUser × Users
update_profile name display english job db =
    if none_sent display english job
    then (public_of name (find name db), db)
    else (let (found, db') =
          change name
            (λ u. record u {
              display_name = sent_or display u.display_name;
              english_name = sent_or english u.english_name;
              job_title = sent_or job u.job_title;
              name_source = user;
            })
            db in
        ((if found then public_of name (find name db') else none), db'))

-- `delete`.
unfoldable pub delete : Chars → Users → Bool × Users
delete name db = (contains name db, remove name db)

abbrev pub has_role : String → Option String → Bool
has_role r none = false
has_role r (some s) = s == r

-- `count_admins` and `count`.
unfoldable pub count_admins : Users → ℕ
count_admins db = length (select (λ (k, u). has_role "admin" u.role) db)

unfoldable pub count : Users → ℕ
count db = length db

abbrev pub key_of : Chars × User → Chars
key_of (k, u) = k

unfoldable pub usernames : Users → List Chars
usernames db = map key_of db
