-- ===== src/Web/App/Admins.antt =====
-- An administrator remains, whatever the account handlers of src/web/app.py are asked.
use lb_note.Base.{◌≡◌, ap, ◌∙◌, true, List, [], ◌∷◌, nat_Eq, list_Eq, string_Eq}
use lb_note.Base.Chars.{Chars}
use lb_note.Web.Auth.Users.{Passlib, Users}
use lb_note.Web.App.Reply.{
  Reply, reply, fails, ◌>>=◌, >>=-Holds, Holds-mono, held, reply-Holds, Holds,
}
use lb_note.Web.App.Requests.{
  Request, change_own_password, change_own_profile, reset_password, create_account, update_account,
  delete_account, table_of, handle, left_by, serve,
}
use lb_note.Web.App.Keeps.{
  is_admin, KeepsAdmins, change_password_keeps, reset_keeps, create_keeps, profile_keeps,
}
use lb_note.Web.App.Guards.{admin_gate, user_gate, update_keeps, delete_keeps}

-- There is an account with the role "admin".
abbrev pub HasAdmin : Users → Type 0
HasAdmin db = (name : Chars) × (is_admin name db ≡ true)

module _ (lib : Passlib) where
  kept_by :
      {A : Type 0} (m : Reply A) (t : A → Users) (db : Users)
      → HasAdmin db
      → Holds (λ r. KeepsAdmins db (t r)) m
      → Holds (λ r. HasAdmin (t r)) m
  kept_by m t db (x, a) = Holds-mono m _ _ (λ r k. (x, k x a))

  table-Holds :
      {A : Type 0} (m : Reply (A × Users))
      → Holds (λ r. HasAdmin r.1) m
      → Holds HasAdmin (m >>= table_of)
  table-Holds m h =
      >>=-Holds _ _ HasAdmin (λ r e. reply-Holds _ HasAdmin (held (λ q. HasAdmin q.1) h e))

  handle-HasAdmin :
      (actor : Chars) (r : Request) (db : Users)
      → HasAdmin db
      → Holds HasAdmin (handle lib actor r db)
  unfolding handle
  handle-HasAdmin actor (change_own_password salt current new) db has =
      user_gate actor db _ HasAdmin
        (λ u. kept_by _ (λ d. d) db has (change_password_keeps lib salt u current new db))
  handle-HasAdmin actor (change_own_profile display english job) db has =
      user_gate actor db _ HasAdmin
        (λ u. table-Holds _ (kept_by _ (λ r. r.1) db has (profile_keeps u display english job db)))
  handle-HasAdmin actor (reset_password salt name new) db has =
      admin_gate actor db _ HasAdmin
        (λ u n a. kept_by _ (λ d. d) db has (reset_keeps lib salt name new db))
  handle-HasAdmin actor (create_account salt now initial name display role) db has =
      admin_gate actor db _ HasAdmin (λ u n a.
        table-Holds _
          (kept_by _ (λ r. r.1) db has (create_keeps lib salt now initial name display role db)))
  handle-HasAdmin actor (update_account name display english job role email) db has =
      admin_gate actor db _ HasAdmin (λ u n a. table-Holds _ (
        Holds-mono _ _ _ (λ r k. (u.username, k))
          (update_keeps u name display english job role email db (ap (λ x. is_admin x db) n ∙ a))))
  handle-HasAdmin actor (delete_account name) db has = admin_gate actor db _ HasAdmin (λ u n a.
      Holds-mono _ _ _ (λ d k. (u.username, k))
        (delete_keeps u name db (ap (λ x. is_admin x db) n ∙ a)))

  left-HasAdmin :
      (m : Reply Users) (db : Users) → HasAdmin db → Holds HasAdmin m → HasAdmin (left_by m db)
  unfolding Holds
  left-HasAdmin (reply db') db has h = h
  left-HasAdmin (fails n) db has h = has

  -- Whatever sequence of account requests is served, one after another, by whichever users, an administrator is there at
  -- the end when there is one at the start: no request changes the table but those of the six account
  -- handlers, each authenticated against the table as it then is.
  pub admins_remain :
      (requests : List (Chars × Request)) (db : Users)
      → HasAdmin db
      → HasAdmin (serve lib requests db)
  unfolding serve
  admins_remain [] db has = has
  admins_remain ((actor, r) ∷ rest) db has =
      admins_remain rest _ (left-HasAdmin _ db has (handle-HasAdmin actor r db has))
