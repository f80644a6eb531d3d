-- ===== src/Web/App/Accounts.antt =====
-- The account handlers of src/web/app.py.
use lb_note.Base.{
  ℕ, Option, none, some, Bool, true, false, not, ◌||◌, ◌&&◌, [], ◌∷◌, String, if◌then◌else◌, ltb,
  leb, ◌==◌, nat_Eq, list_Eq, string_Eq, length,
}
use lb_note.Base.Dict.{is_some}
use lb_note.Base.Chars.{Chars, strip, is_empty, is_space}
use lb_note.Web.Auth.Users.{
  Passlib, Users, User, PublicUser, find, verify, set_password, create_user, update_profile, delete,
  count_admins, or_role, has_role, or_text,
}
use lb_note.Web.Auth.Users
use lb_note.Web.Auth.Admin.{Listed, Updated, value_error, updated, list_users, has_at, listed_of}
use lb_note.Web.Auth.Admin
use lb_note.Web.Auth.Tokens.{Jwt, make_token}
use lb_note.Web.App.Reply.{Reply, reply, fails, ◌>>=◌, ◌>>◌, reject_if, or_fail}

abbrev pub min_password_len : ℕ
min_password_len = 8

abbrev pub max_name_len : ℕ
max_name_len = 64

abbrev pub any_control : Chars → Bool
any_control [] = false
any_control (c ∷ s) = ltb c 32 || (c == 127) || any_control s

-- `_clean_name`.
unfoldable pub clean_name : Bool → Chars → Reply Chars
clean_name required value = do
  reject_if (ltb max_name_len (length (strip value))) 422
  reject_if (required && is_empty (strip value)) 422
  reject_if (any_control (strip value)) 422
  reply (strip value)

-- `_clean_email`.
unfoldable pub clean_email : Chars → Reply (Option Chars)
clean_email value = if is_empty (strip value) then reply none else do
  reject_if (ltb max_name_len (length (strip value))) 422
  reject_if (not (has_at (strip value))) 422
  reply (some (strip value))

-- A field that was not sent stays out.
abbrev pub if_sent {ℓ} : {A : Type ℓ} → (A → Reply (Option A)) → Option A → Reply (Option A)
if_sent f none = reply none
if_sent f (some x) = f x

abbrev pub cleaned : Bool → Chars → Reply (Option Chars)
cleaned required value = clean_name required value >>= λ v. reply (some v)

abbrev pub stored : Bool × Users → ℕ → Reply Users
stored (true, db) n = reply db
stored (false, db) n = fails n

abbrev pub any_space : Chars → Bool
any_space [] = false
any_space (c ∷ s) = is_space c || any_space s

abbrev pub is_role : String → Bool
is_role r = (r == "user") || (r == "admin")

module _ (lib : Passlib) where
  -- `auth_login`: the user and the token.
  unfoldable pub auth_login :
      Jwt → Chars → ℕ → ℕ → Chars → Chars → Users → Reply (Chars × PublicUser)
  auth_login jwt secret ttl now name pw db = or_fail (verify lib (strip name) pw db) 401 >>= λ u.
      reply (make_token jwt secret ttl now u.username none none, u)

  -- `change_password`, for the user of the token.
  unfoldable pub change_password : ℕ → PublicUser → Chars → Chars → Users → Reply Users
  change_password salt user current new db = do
    reject_if (not (is_some (verify lib user.username current db))) 400
    reject_if (ltb (length new) min_password_len) 400
    reject_if (new == current) 400
    stored (set_password lib salt user.username new db) 404

  -- `admin_reset_password`.
  unfoldable pub admin_reset_password : ℕ → Chars → Chars → Users → Reply Users
  admin_reset_password salt name new db = do
    reject_if (ltb (length new) min_password_len) 400
    stored (Users.admin_reset_password lib salt name new db) 404

  -- `admin_create_user`, with the first password of the deployment.
  unfoldable pub admin_create_user :
      ℕ → ℕ → Chars → Chars → Option Chars → String → Users → Reply (Option Listed × Users)
  admin_create_user salt now initial name display role db = do
    reject_if (is_empty (strip name) || any_space (strip name)) 422
    reject_if (not (is_role role)) 422
    shown ← if_sent (cleaned false) display
    db' ←
        stored
          (create_user lib salt now (strip name) initial (some (or_text shown (strip name))) role
            db)
          409
    reply (listed_of (strip name) (find (strip name) db'), db')

-- `patch_profile`.
unfoldable pub patch_profile :
    PublicUser → Option Chars → Option Chars → Option Chars → Users → Reply (PublicUser × Users)
patch_profile user display english job db = do
  reject_if (not (is_some display || is_some english || is_some job)) 422
  display' ← if_sent (cleaned true) display
  english' ← if_sent (cleaned false) english
  job' ← if_sent (cleaned false) job
  let r = update_profile user.username display' english' job' db
  u ← or_fail r.0 404
  reply (u, r.1)

abbrev pub is_admin_row : User → Bool
is_admin_row u = or_role u.role "user" == "admin"

-- The guard on a role that is taken away. The handlers run at once on several threads and take the lock of
-- the users for each call: `got` is the table when the row is read, `counted` when the administrators are
-- counted, and `db` when the row is written.
abbrev pub demotion : PublicUser → Chars → Option User → Users → Reply (Unit {0})
demotion user name none counted = fails 404
demotion user name (some u) counted =
    if is_admin_row u
    then reject_if (name == user.username) 409 >> reject_if (leb (count_admins counted) 1) 409
    else reply tt

abbrev pub role_guard : PublicUser → Chars → Option String → Users → Users → Reply (Unit {0})
role_guard user name none got counted = reply tt
role_guard user name (some r) got counted =
    reject_if (not (is_role r)) 422
    >> (if r == "user" then demotion user name (find name got) counted else reply tt)

abbrev pub listed : Updated × Users → Reply (Listed × Users)
listed (updated (some l), db) = reply (l, db)
listed (updated none, db) = fails 404
listed (value_error, db) = fails 500

-- `admin_update_user`.
unfoldable pub admin_update_user :
    PublicUser
    → Chars
    → Option Chars
    → Option Chars
    → Option Chars
    → Option String
    → Option Chars
    → Users
    → Users
    → Users
    → Reply (Listed × Users)
admin_update_user user name display english job role email got counted db = do
  display' ← if_sent (cleaned true) display
  english' ← if_sent (cleaned false) english
  job' ← if_sent (cleaned false) job
  email' ← if_sent clean_email email
  role_guard user name role got counted
  listed (Admin.admin_update_user name display' english' job' role email' db)

-- `admin_delete_user`.
unfoldable pub admin_delete_user : PublicUser → Chars → Users → Users → Users → Reply Users
admin_delete_user user name got counted db = do
  reject_if (name == user.username) 409
  u ← or_fail (find name got) 404
  reject_if (is_admin_row u && leb (count_admins counted) 1) 409
  let r = delete name db
  if r.0 then reply r.1 else fails 404
