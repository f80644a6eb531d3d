-- ===== src/Web/App/Tests.antt =====
-- The account handlers at concrete requests.
use lb_note.Base.{
  ◌≤◌, ◌≡◌, ◌++◌, arith, true, refl, none, some, false, List, [], ◌∷◌, String, nat_Eq, list_Eq,
  string_Eq,
}
use lb_note.Base.Dict.{get?}
use lb_note.Base.Chars.{Chars}
use lb_note.Web.Auth.Fakes.{plain_passlib}
use lb_note.Web.Auth.Users.{User, Users, seed, public_user, count_admins}
use lb_note.Web.App.Requests.{Request, update_account, delete_account, serve}
use lb_note.Web.App.Reply.{Holds}
use lb_note.Web.App.Accounts.{admin_delete_user}
use lb_note.Web.App.Keeps.{is_admin}
use lb_note.Web.App.LastAdmin.{Distinct, last_admin_kept}
use lb_note.Web.App.Admins.{HasAdmin, admins_remain}

abbrev kim : Chars
kim = 107 ∷ 105 ∷ 109 ∷ []

abbrev lee : Chars
lee = 108 ∷ 101 ∷ 101 ∷ []

abbrev row : String → User
row role = record {
  password_hash = 7 ∷ kim;
  display_name = some kim;
  role = some role;
  english_name = none;
  job_title = none;
  email = none;
  must_change_password = false;
  name_source = seed;
  created_at = 1;
}

-- Both are administrators; when the handler wrote, a third account had been added.
abbrev two : Users
two = (kim, row "admin") ∷ (lee, row "admin") ∷ []

abbrev three : Users
three = (kim, row "admin") ∷ (lee, row "admin") ∷ (kim ++ lee, row "user") ∷ []

three-Distinct : Distinct three
unfolding get?
three-Distinct = (refl, (refl, (refl, tt)))

three-HasAdmin : HasAdmin three
unfolding get?
three-HasAdmin = (kim, refl)

three_count : count_admins two ≤ count_admins three
unfolding count_admins
three_count = omega arith

lee_there : is_admin lee three ≡ true → is_admin lee two ≡ true
unfolding get?
lee_there h = refl

-- kim deletes lee.
last_admin_kept_example :
    Holds HasAdmin (admin_delete_user (public_user kim (row "admin")) lee two two three)
last_admin_kept_example =
    (last_admin_kept (public_user kim (row "admin")) lee two two three three-Distinct three-HasAdmin
      lee_there three_count).0

-- kim makes lee an administrator, who takes the role from kim and then deletes kim and asks to be
-- deleted.
abbrev takeover : List (Chars × Request)
takeover =
    (kim, update_account lee none none none (some "admin") none)
    ∷ (lee, update_account kim none none none (some "user") none)
    ∷ (lee, delete_account kim)
    ∷ (lee, delete_account lee)
    ∷ []

abbrev people : Users
people = (kim, row "admin") ∷ (lee, row "user") ∷ []

kim_HasAdmin : HasAdmin people
unfolding get?
kim_HasAdmin = (kim, refl)

takeover_run : HasAdmin (serve plain_passlib takeover people)
takeover_run = admins_remain plain_passlib takeover people kim_HasAdmin
