-- ===== src/Web/App/Requests.antt =====
-- Requests that change the users table (src/web/app.py): each is authenticated against the table as it
-- is when the request is served, and one that fails leaves the table. Each request is over before the next
-- begins.
use lb_note.Base.{ℕ, Option, List, [], ◌∷◌, String, list_Eq, nat_Eq}
use lb_note.Base.Chars.{Chars}
use lb_note.Web.Auth.Users.{Passlib, Users, find}
use lb_note.Web.Auth.Tokens.{known}
use lb_note.Web.App.Reply.{Reply, reply, fails, ◌>>=◌, allowed, require_admin}
use lb_note.Web.App.Accounts.{
  change_password, patch_profile, admin_reset_password, admin_create_user, admin_update_user,
  admin_delete_user,
}

pub data Request : Type 0 where
  change_own_password : (salt : ℕ) (current new : Chars) → Request
  change_own_profile : (display english job : Option Chars) → Request
  reset_password : (salt : ℕ) (name new : Chars) → Request
  create_account :
      (salt now : ℕ) (initial name : Chars) (display : Option Chars) (role : String) → Request
  update_account :
      (name : Chars) (display english job : Option Chars) (role : Option String)
      (email : Option Chars)
      → Request
  delete_account : (name : Chars) → Request

abbrev pub table_of {ℓ} : {A : Type ℓ} → A × Users → Reply Users
table_of (a, db) = reply db

-- The table that a reply leaves.
abbrev pub left_by : Reply Users → Users → Users
left_by (reply db') db = db'
left_by (fails n) db = db

module _ (lib : Passlib) where
  -- The handler of a request of the user `actor`, gate included.
  unfoldable pub handle : Chars → Request → Users → Reply Users
  handle actor (change_own_password salt current new) db =
      allowed (known actor (find actor db)) >>= λ u. change_password lib salt u current new db
  handle actor (change_own_profile display english job) db =
      allowed (known actor (find actor db)) >>= λ u.
      patch_profile u display english job db >>= table_of
  handle actor (reset_password salt name new) db =
      require_admin (known actor (find actor db)) >>= λ u. admin_reset_password lib salt name new db
  handle actor (create_account salt now initial name display role) db =
      require_admin (known actor (find actor db)) >>= λ u.
      admin_create_user lib salt now initial name display role db >>= table_of
  handle actor (update_account name display english job role email) db =
      require_admin (known actor (find actor db)) >>= λ u.
      admin_update_user u name display english job role email db db db >>= table_of
  handle actor (delete_account name) db =
      require_admin (known actor (find actor db)) >>= λ u. admin_delete_user u name db db db

  unfoldable pub serve : List (Chars × Request) → Users → Users
  serve [] db = db
  serve ((actor, r) ∷ rest) db = serve rest (left_by (handle actor r db) db)
