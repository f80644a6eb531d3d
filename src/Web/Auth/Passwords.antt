-- ===== src/Web/Auth/Passwords.antt =====
-- The life of a password in the users table (src/web/auth.py).
use lb_note.Base.{
  ℕ, ◌≡◌, ◌≢◌, refl, Option, none, some, Bool, true, false, String, nat_Eq, list_Eq, string_Eq,
  ==_refl, ne→beq,
}
use lb_note.Base.Dict.{get?, put, get?-put}
use lb_note.Base.Chars.{Chars}
use lb_note.Web.Auth.Users.{
  Passlib, User, Users, public_user, find, fresh, create_user, set_password, admin_reset_password,
  verify,
}

-- A row that is written is the row that is found, and no other changes.
pub get?-put_there : (name : Chars) (u : User) (db : Users) → get? name (put name u db) ≡ some u
get?-put_there name u db = simp (get?-put, ==_refl name)

pub get?-put_ne :
    (other name : Chars) (u : User) (db : Users)
    → other ≢ name
    → get? other (put name u db) ≡ get? other db
get?-put_ne other name u db ne = simp (get?-put, ne→beq other name ne)

module _ (lib : Passlib) where
  -- What a password that was set lets in.
  abbrev pub LetsIn : Chars → Chars → Bool → User → Users → Type 0
  LetsIn name pw must u db =
      verify lib name pw db ≡ some (record (public_user name u) { must_change_password = must })

  verify-put :
      (salt : ℕ) (name pw : Chars) (u : User) (db : Users)
      → u.password_hash ≡ lib.hash salt pw
      → verify lib name pw (put name u db) ≡ some (public_user name u)
  unfolding verify
  verify-put salt name pw u db e = rw (get?-put_there name u db, e, lib.verify-hash salt pw) refl

  -- A password that the user sets lets the user in with no duty to change it, one that an
  -- administrator sets lets the user in with that duty; both keep the rest of the account and every
  -- other account, and both report that the account is there.
  pub password_set :
      (salt : ℕ) (name pw : Chars) (db : Users) {u : User}
      → find name db ≡ some u
      → ((set_password lib salt name pw db).0 ≡ true)
        × LetsIn name pw false u (set_password lib salt name pw db).1
        × ((admin_reset_password lib salt name pw db).0 ≡ true)
        × LetsIn name pw true u (admin_reset_password lib salt name pw db).1
        × ((other : Chars)
            → other ≢ name
            → (find other (set_password lib salt name pw db).1 ≡ find other db)
              × (find other (admin_reset_password lib salt name pw db).1 ≡ find other db))
  unfolding set_password admin_reset_password
  password_set salt name pw db {u = u} h = rw h (
    refl,
    verify-put salt name pw
        (record u { password_hash = lib.hash salt pw; must_change_password = false }) db refl,
    refl,
    verify-put salt name pw
        (record u { password_hash = lib.hash salt pw; must_change_password = true }) db refl,
    λ other ne. (get?-put_ne other name _ db ne, get?-put_ne other name _ db ne),
  )

  -- An account that an administrator creates is a new one, whose first password has to be changed; a
  -- name that is taken is refused and nothing changes.
  create_user_effect :
      (salt now : ℕ) (name pw : Chars) (display : Option Chars) (role : String) (db : Users)
      → (find name db ≡ none
          → (u : User) × (create_user lib salt now name pw display role db ≡ (true, put name u db))
            × (u.role ≡ some role)
            × LetsIn name pw true u (put name u db))
        × ((u : User)
            → find name db ≡ some u
            → create_user lib salt now name pw display role db ≡ (false, db))
  unfolding create_user
  create_user_effect salt now name pw display role db = (
    λ h. (
      fresh (lib.hash salt pw) now name display role,
      rw h refl,
      refl,
      verify-put salt name pw (fresh (lib.hash salt pw) now name display role) db refl,
    ),
    λ u h. rw h refl,
  )
