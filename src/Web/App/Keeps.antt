-- ===== src/Web/App/Keeps.antt =====
-- Changes of the users table that take no role away (src/web/app.py).
use lb_note.Base.{
  ℕ, ◌≡◌, ◌≢◌, refl, sym, ap, ◌∙◌, Option, none, some, Bool, true, false, String, if◌then◌else◌,
  ◌==◌, nat_Eq, list_Eq, string_Eq, Bool-cases, Option-cases, inl, inr, ==_iff, true≢false,
}
use lb_note.Base.Dict.{get?, put, get?-put}
use lb_note.Base.Chars.{Chars, strip}
use lb_note.Web.Auth.Users.{
  Passlib, User, Users, PublicUser, public_user, find, change, has_role, or_role, none_sent,
  sent_or, set_password, create_user, update_profile,
}
use lb_note.Web.Auth.Users
use lb_note.Web.Auth.Admin.{Listed}
use lb_note.Web.Auth.Passwords.{get?-put_ne}
use lb_note.Web.App.Reply.{
  reply, ◌>>=◌, >>=-Holds, reject_if-Holds, or_fail-Holds, reply-Holds, Holds,
}
use lb_note.Web.App.Accounts.{
  change_password, patch_profile, admin_reset_password, admin_create_user, stored,
}

abbrev pub admin_row : Option User → Bool
admin_row none = false
admin_row (some u) = has_role "admin" u.role

-- The account has the role "admin".
abbrev pub is_admin : Chars → Users → Bool
is_admin name db = admin_row (get? name db)

-- Every administrator of one table is one of the other.
abbrev pub KeepsAdmins : Users → Users → Type 0
KeepsAdmins db db' = (x : Chars) → is_admin x db ≡ true → is_admin x db' ≡ true

is_admin-put :
    (x name : Chars) (u : User) (db : Users)
    → is_admin x (put name u db) ≡ (if name == x then has_role "admin" u.role else is_admin x db)
is_admin-put x name u db =
    rw (get?-put x name u db)
      (elim (Bool-cases (name == x)) [ inl y ↦ rw y refl | inr d ↦ rw d refl ])

-- A row that keeps the role of the row before it, if there was one.
pub put_keeps :
    (name : Chars) (new : User) (db : Users)
    → (is_admin name db ≡ true → has_role "admin" new.role ≡ true)
    → KeepsAdmins db (put name new db)
put_keeps name new db same x h = is_admin-put x name new db ∙ elim (Bool-cases (name == x)) [
  | inl y ↦ rw y (same (ap (λ n. is_admin n db) ((==_iff name x).0 y) ∙ h))
  | inr d ↦ rw d h
]

pub role_of :
    (name : Chars) {u : User} (db : Users)
    → get? name db ≡ some u
    → is_admin name db ≡ has_role "admin" u.role
role_of name db s = ap admin_row s

pub change_keeps :
    (name : Chars) (f : User → User) (db : Users)
    → ((u : User)
        → get? name db ≡ some u
        → has_role "admin" u.role ≡ true
        → has_role "admin" (f u).role ≡ true)
    → KeepsAdmins db (change name f db).1
change_keeps name f db same = elim (Option-cases (get? name db)) [
  | inl n ↦ rw n (λ x h. h)
  | inr (u, s) ↦ rw s (put_keeps name (f u) db (λ h. same u s (sym (role_of name db s) ∙ h)))
]

-- An account that a change does not name is as it was.
pub change_other :
    (x name : Chars) (f : User → User) (db : Users)
    → x ≢ name
    → get? x (change name f db).1 ≡ get? x db
change_other x name f db ne = elim (Option-cases (get? name db)) [
  | inl n ↦ rw n refl
  | inr (u, s) ↦ rw s (get?-put_ne x name (f u) db ne)
]

stored-Holds : (r : Bool × Users) (n : ℕ) (P : Users → Type 0) → P r.1 → Holds P (stored r n)
unfolding Holds
stored-Holds (true, db) n P h = h
stored-Holds (false, db) n P h = tt

bind_stored :
    {A : Type 0} (r : Bool × Users) (n : ℕ) (f : Users → A) (P : A → Type 0)
    → P (f r.1)
    → Holds P (stored r n >>= λ db. reply (f db))
unfolding Holds ◌>>=◌
bind_stored (true, db) n f P h = h
bind_stored (false, db) n f P h = tt

module _ (lib : Passlib) where
  pub change_password_keeps :
      (salt : ℕ) (user : PublicUser) (current new : Chars) (db : Users)
      → Holds (KeepsAdmins db) (change_password lib salt user current new db)
  unfolding change_password set_password
  change_password_keeps salt user current new db = reject_if-Holds _ 400 _ (KeepsAdmins db) (λ a.
      reject_if-Holds _ 400 _ (KeepsAdmins db) (λ b.
        reject_if-Holds _ 400 _ (KeepsAdmins db) (λ c.
          stored-Holds _ 404 (KeepsAdmins db) (change_keeps user.username _ db (λ u s h. h)))))

  pub reset_keeps :
      (salt : ℕ) (name new : Chars) (db : Users)
      → Holds (KeepsAdmins db) (admin_reset_password lib salt name new db)
  unfolding admin_reset_password Users.admin_reset_password
  reset_keeps salt name new db =
      reject_if-Holds _ 400 _ (KeepsAdmins db)
        (λ a. stored-Holds _ 404 (KeepsAdmins db) (change_keeps name _ db (λ u s h. h)))

  create_keeps_table :
      (salt now : ℕ) (name pw : Chars) (display : Option Chars) (role : String) (db : Users)
      → KeepsAdmins db (create_user lib salt now name pw display role db).1
  unfolding create_user
  create_keeps_table salt now name pw display role db = elim (Option-cases (get? name db)) [
    | inl n ↦ rw n (put_keeps name _ db (λ h. absurd (true≢false (sym h ∙ ap admin_row n))))
    | inr (u, s) ↦ rw s (λ x h. h)
  ]

  pub create_keeps :
      (salt now : ℕ) (initial name : Chars) (display : Option Chars) (role : String) (db : Users)
      → Holds
          (λ r. KeepsAdmins db r.1)
          (admin_create_user lib salt now initial name display role db)
  unfolding admin_create_user
  create_keeps salt now initial name display role db =
      let P : Option Listed × Users → Type 0 = λ r. KeepsAdmins db r.1 in
      reject_if-Holds _ 422 _ P (λ a. reject_if-Holds _ 422 _ P (λ b. >>=-Holds _ _ P (λ shown c.
        bind_stored _ 409 _ P (create_keeps_table salt now (strip name) initial _ role db))))

update_profile_keeps :
    (name : Chars) (display english job : Option Chars) (db : Users)
    → KeepsAdmins db (update_profile name display english job db).1
unfolding update_profile
update_profile_keeps name display english job db =
    elim (Bool-cases (none_sent display english job)) [
      | inl y ↦ rw y (λ x h. h)
      | inr n ↦ rw n (change_keeps name _ db (λ u s h. h))
    ]

pub profile_keeps :
    (user : PublicUser) (display english job : Option Chars) (db : Users)
    → Holds (λ r. KeepsAdmins db r.1) (patch_profile user display english job db)
unfolding patch_profile
profile_keeps user display english job db =
    let P : PublicUser × Users → Type 0 = λ r. KeepsAdmins db r.1 in
    reject_if-Holds _ 422 _ P (λ a. >>=-Holds _ _ P (λ display' b. >>=-Holds _ _ P (λ english' c.
      >>=-Holds _ _ P (λ job' d.
        or_fail-Holds _ 404 _ P (λ u e.
          reply-Holds _ P (update_profile_keeps user.username display' english' job' db))))))
