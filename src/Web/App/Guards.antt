-- ===== src/Web/App/Guards.antt =====
-- The gate of the administrators and the guards on a role (src/web/app.py).
use lb_note.Base.{
  ◌≡◌, refl, sym, ap, subst, ◌∙◌, Option, none, some, true, ◌||◌, String, ◌==◌, nat_Eq, list_Eq,
  string_Eq, Bool-cases, Option-cases, inl, inr, ==_iff, true≢false, arith,
}
use lb_note.Base.Dict.{get?, get?-remove, is_some}
use lb_note.Base.Chars.{Chars}
use lb_note.Web.Auth.Users.{
  Passlib, User, Users, PublicUser, public_user, find, change, has_role, or_role, none_sent,
  sent_or, set_password, create_user, update_profile,
}
use lb_note.Web.Auth.Users
use lb_note.Web.Auth.Admin.{Listed, Updated, updated, value_error, role_allowed}
use lb_note.Web.Auth.Admin
use lb_note.Web.Auth.Tokens.{known}
use lb_note.Web.App.Reply.{
  Reply, ◌>>=◌, >>=-Holds, reject_if, ◌>>◌, >>-Holds, Holds-all, Holds-mono, held, reject_if-Holds,
  or_fail-Holds, reply-Holds, Holds, allowed, require_admin,
}
use lb_note.Web.App.Accounts.{admin_update_user, admin_delete_user, role_guard, demotion, listed}
use lb_note.Web.App.Keeps.{admin_row, is_admin, put_keeps, role_of, change_other}

row_admin : (r : Option String) → (or_role r "user" == "admin") ≡ true → has_role "admin" r ≡ true
row_admin none h = absurd (true≢false (sym h))
row_admin (some r) h = elim (Bool-cases (r == "")) [
  | inl y ↦ absurd (true≢false (sym (sym (rw y refl) ∙ h)))
  | inr n ↦ sym (rw n refl) ∙ h
]

gate_of :
    {B : Type 0} (actor : Chars) (o : Option User) (f : PublicUser → Reply B) (P : B → Type 0)
    → ((u : PublicUser) → u.username ≡ actor → admin_row o ≡ true → Holds P (f u))
    → Holds P (require_admin (known actor o) >>= f)
unfolding Holds ◌>>=◌
gate_of actor none f P h = tt
gate_of actor (some w) f P h = elim (Bool-cases w.must_change_password) [
  | inl y ↦ rw y tt
  | inr n ↦ elim (Bool-cases (or_role w.role "user" == "admin")) [
    | inl a ↦ rw (n, a) (h _ refl (row_admin w.role a))
    | inr b ↦ rw (n, b) tt
  ]
]

pub admin_gate :
    {B : Type 0} (actor : Chars) (db : Users) (f : PublicUser → Reply B) (P : B → Type 0)
    → ((u : PublicUser) → u.username ≡ actor → is_admin actor db ≡ true → Holds P (f u))
    → Holds P (require_admin (known actor (find actor db)) >>= f)
admin_gate actor db f P h = gate_of actor (find actor db) f P h

pub user_gate :
    {B : Type 0} (actor : Chars) (db : Users) (f : PublicUser → Reply B) (P : B → Type 0)
    → ((u : PublicUser) → Holds P (f u))
    → Holds P (allowed (known actor (find actor db)) >>= f)
user_gate actor db f P h = >>=-Holds _ f P (λ u e. h u)

pub row_is_admin :
    (r : Option String) → has_role "admin" r ≡ true → (or_role r "user" == "admin") ≡ true
row_is_admin none h = absurd (true≢false (sym h))
row_is_admin (some r) h =
    subst (λ x. (or_role (some x) "user" == "admin") ≡ true) (sym ((==_iff r "admin").0 h)) refl

-- An administrator cannot take the role from the account that acts.
own_demotion :
    (user : PublicUser) (name : Chars) (u : User) (db : Users) (P : Unit {0} → Type 0)
    → name ≡ user.username
    → has_role "admin" u.role ≡ true
    → Holds P (demotion user name (some u) db)
unfolding reject_if Holds ◌>>=◌ ◌>>◌
own_demotion user name u db P n h = rw (row_is_admin u.role h, (==_iff name user.username).1 n) tt

guard_keeps :
    (user : PublicUser) (name : Chars) (role : Option String) (db : Users) (u : User)
    → name ≡ user.username
    → get? name db ≡ some u
    → has_role "admin" u.role ≡ true
    → Holds (λ o. has_role "admin" (sent_or role u.role) ≡ true) (role_guard user name role db db)
guard_keeps user name none db u n s h = reply-Holds _ _ h
guard_keeps user name (some r) db u n s h =
    let P : Unit {0} → Type 0 = λ o. has_role "admin" (some r) ≡ true in
    reject_if-Holds _ 422 _ P (λ q. elim (Bool-cases (r == "user")) [
      | inl y ↦ rw (y, s) (own_demotion user name u db P n h)
      | inr d ↦ rw d (reply-Holds _ P (ground arith))
    ])

change_role :
    (user : PublicUser) (name : Chars) (role : Option String) (f : User → User) (db : Users)
    → ((u : User) → (f u).role ≡ sent_or role u.role)
    → is_admin user.username db ≡ true
    → Holds
        (λ o. is_admin user.username (change name f db).1 ≡ true)
        (role_guard user name role db db)
change_role user name role f db same a = elim (Bool-cases (name == user.username)) [
  | inl y ↦ elim (Option-cases (get? name db)) [
    | inl n ↦ rw n (Holds-all _ _ (λ o. a))
    | inr (u, s) ↦ rw s (
        Holds-mono _ _ _ (λ o h. put_keeps name (f u) db (λ q. rw (same u) h) user.username a)
          (guard_keeps user name role db u ((==_iff name user.username).0 y) s (
            sym (role_of name db s)
            ∙ ap (λ n. is_admin n db) ((==_iff name user.username).0 y)
            ∙ a)))
  ]
  | inr d ↦ Holds-all _ _ (λ o.
      ap admin_row (
        change_other user.username name f db
          (λ e. true≢false (sym ((==_iff name user.username).1 (sym e)) ∙ d)))
      ∙ a)
]

-- An account that is updated by an administrator leaves that administrator one.
update_keeps_table :
    (user : PublicUser) (name : Chars) (display english job : Option Chars) (role : Option String)
    (email : Option Chars) (db : Users)
    → is_admin user.username db ≡ true
    → Holds
        (λ o.
          is_admin user.username (Admin.admin_update_user name display english job role email db).1
          ≡ true)
        (role_guard user name role db db)
unfolding Admin.admin_update_user
update_keeps_table user name display english job role email db a =
    elim (Bool-cases (role_allowed role)) [
      | inl y ↦
          elim (Bool-cases
            (is_some display || is_some english || is_some job || is_some role || is_some email)) [
              | inl z ↦ rw (y, z) (change_role user name role _ db (λ u. refl) a)
              | inr z ↦ rw (y, z) (Holds-all _ _ (λ o. a))
            ]
      | inr n ↦ rw n (Holds-all _ _ (λ o. a))
    ]

pub listed-Holds :
    (r : Updated × Users) (P : Listed × Users → Type 0)
    → ((l : Listed) → P (l, r.1))
    → Holds P (listed r)
unfolding Holds
listed-Holds (updated (some l), db) P h = h l
listed-Holds (updated none, db) P h = tt
listed-Holds (value_error, db) P h = tt

pub update_keeps :
    (user : PublicUser) (name : Chars) (display english job : Option Chars) (role : Option String)
    (email : Option Chars) (db : Users)
    → is_admin user.username db ≡ true
    → Holds
        (λ r. is_admin user.username r.1 ≡ true)
        (admin_update_user user name display english job role email db db db)
unfolding admin_update_user
update_keeps user name display english job role email db a =
    let P : Listed × Users → Type 0 = λ r. is_admin user.username r.1 ≡ true in
    >>=-Holds _ _ P (λ display' b. >>=-Holds _ _ P (λ english' c. >>=-Holds _ _ P (λ job' d.
      >>=-Holds _ _ P (λ email' e. >>-Holds _ _ P (λ o g. listed-Holds _ P (λ l.
        held
          (λ o'.
            is_admin user.username
              (Admin.admin_update_user name display' english' job' role email' db).1
            ≡ true)
          (update_keeps_table user name display' english' job' role email' db a) g))))))

pub delete_keeps :
    (user : PublicUser) (name : Chars) (db : Users)
    → is_admin user.username db ≡ true
    → Holds (λ db'. is_admin user.username db' ≡ true) (admin_delete_user user name db db db)
unfolding admin_delete_user Users.delete
delete_keeps user name db a =
    let P : Users → Type 0 = λ db'. is_admin user.username db' ≡ true in
    reject_if-Holds _ 409 _ P (λ n. or_fail-Holds _ 404 _ P (λ u s.
      reject_if-Holds _ 409 _ P
        (λ g. rw s (reply-Holds _ P (rw (get?-remove user.username name db, n) a)))))
