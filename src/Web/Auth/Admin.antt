-- ===== src/Web/Auth/Admin.antt =====
-- The administrator's directory of `UserStore` (src/web/auth.py).
use lb_note.Base.{
  Option, none, some, Bool, true, false, ◌||◌, ◌&&◌, List, [], ◌∷◌, String, if◌then◌else◌, ltb,
  ◌==◌, nat_Eq, string_Eq, map,
}
use lb_note.Base.Dict.{is_some}
use lb_note.Base.Chars.{Chars}
use lb_note.Web.Auth.Users.{User, Users, find, or_text, has_role, change, sent_or, renamed}

-- `_admin_user_shape`.
pub record Listed : Type 0 where
  pub username : Chars
  pub display_name : Chars
  pub role : String
  pub english_name : Option Chars
  pub job_title : Option Chars
  pub email : Option Chars
  pub must_change_password : Bool

abbrev pub admin_user_shape : Chars → User → Listed
admin_user_shape name u = record {
  username = name;
  display_name = or_text u.display_name name;
  role = (if has_role "admin" u.role then "admin" else "user");
  english_name = u.english_name;
  job_title = u.job_title;
  email = u.email;
  must_change_password = u.must_change_password;
}

abbrev pub listed_of : Chars → Option User → Option Listed
listed_of name none = none
listed_of name (some u) = some (admin_user_shape name u)

-- Python's order of texts.
abbrev pub before : Chars → Chars → Bool
before [] [] = false
before [] (d ∷ t) = true
before (c ∷ s) [] = false
before (c ∷ s) (d ∷ t) = ltb c d || ((c == d) && before s t)

-- A stable sort by a name.
module _ {A : Type 0} (name : A → Chars) where
  abbrev pub insert : A → List A → List A
  insert x [] = x ∷ []
  insert x (y ∷ ys) = if before (name y) (name x) then y ∷ insert x ys else x ∷ y ∷ ys

  abbrev pub sort : List A → List A
  sort [] = []
  sort (x ∷ xs) = insert x (sort xs)

-- `list_users`.
unfoldable pub list_users : Users → List Listed
list_users db = sort (λ l. l.display_name) (map (λ (k, u). admin_user_shape k u) db)

abbrev pub has_at : Chars → Bool
has_at [] = false
has_at (c ∷ s) = (c == 64) || has_at s

pub record Entry : Type 0 where
  pub username : Chars
  pub display_name : Chars
  pub email : Option Chars

-- `r["email"] or (username if "@" in username else None)`.
abbrev pub effective_email : Chars → Option Chars → Option Chars
effective_email name (some (c ∷ s)) = some (c ∷ s)
effective_email name (some []) = if has_at name then some name else none
effective_email name none = if has_at name then some name else none

-- `list_directory`.
unfoldable pub list_directory : Users → List Entry
list_directory db =
    sort (λ e. e.display_name)
      (map
        (λ (k, u). record {
          username = k;
          display_name = or_text u.display_name k;
          email = effective_email k u.email;
        })
        db)

abbrev pub role_allowed : Option String → Bool
role_allowed none = true
role_allowed (some r) = (r == "user") || (r == "admin")

pub data Updated : Type 0 where
  value_error : Updated
  updated : Option Listed → Updated

-- `admin_update_user`; a role but 'user' and 'admin' is a `ValueError`.
unfoldable pub admin_update_user :
    Chars
    → Option Chars
    → Option Chars
    → Option Chars
    → Option String
    → Option Chars
    → Users
    → Updated × Users
admin_update_user name display english job role email db =
    if role_allowed role
    then (if is_some display || is_some english || is_some job || is_some role || is_some email
        then (let (found, db') =
              change name
                (λ u. record u {
                  display_name = sent_or display u.display_name;
                  english_name = sent_or english u.english_name;
                  job_title = sent_or job u.job_title;
                  role = sent_or role u.role;
                  email = sent_or email u.email;
                  name_source = renamed display u.name_source;
                })
                db in
            (updated (if found then listed_of name (find name db') else none), db'))
        else (updated (listed_of name (find name db)), db))
    else (value_error, db)
