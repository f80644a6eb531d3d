-- ===== src/Web/Auth/Tests.antt =====
-- The accounts, secrets, tokens and glossary at concrete inputs.
use lb_note.Base.{
  ℕ, ◌≡◌, ◌≢◌, ◌≤◌, ◌-◌, refl, sym, Option, none, some, true, false, List, [], ◌∷◌, String, ==_iff,
  nat_Eq, list_Eq, string_Eq, true≢false, is_in, map, if◌then◌else◌, max, min, All, length,
}
use lb_note.Base.Dict.{get?}
use lb_note.Base.Chars.{Chars, strip, is_empty}
use lb_note.Web.Auth.Fakes.{plain_passlib, plain_fernet, plain_jwt}
use lb_note.Web.Auth.Users.{User, Users, seed, find, set_password}
use lb_note.Web.Auth.Secrets.{Key, unset, key, Outcome, returns}
use lb_note.Web.Auth.Credentials.{Vault, set_credential, get_credential, get_google_credential}
use lb_note.Web.Auth.Config.{get_google_oauth_config, get_jira_config}
use lb_note.Web.Auth.Migration.{migrate_encrypt_credentials, migrate_transparent}
use lb_note.Web.Auth.Passwords.{password_set}
use lb_note.Web.Auth.Start.{init, accounts, name_of}
use lb_note.Web.Auth.Accounts.{restart_safe}
use lb_note.Web.Auth.Tokens.{
  granted, refused, wrong_scope, intake_scope, make_token, user_from_token, require_user,
  require_requirement_writer, bot, known,
}
use lb_note.Web.Auth.Access.{token_access, intake_token}
use lb_note.Web.Auth.Stored.{credential_roundtrip}
use lb_note.Web.Auth.Glossary.{Edit, upserts, deletes, edited, global_scope, user_scope}
use lb_note.Web.Auth.Limits.{Within, glossary_bounds}

-- "kim", "lee" and two passwords.
abbrev kim : Chars
kim = 107 ∷ 105 ∷ 109 ∷ []

abbrev lee : Chars
lee = 108 ∷ 101 ∷ 101 ∷ []

abbrev old_pw : Chars
old_pw = 49 ∷ 50 ∷ 51 ∷ []

abbrev new_pw : Chars
new_pw = 57 ∷ 56 ∷ 55 ∷ []

abbrev kim_row : User
kim_row = record {
  password_hash = 7 ∷ old_pw;
  display_name = some kim;
  role = some "admin";
  english_name = none;
  job_title = none;
  email = none;
  must_change_password = true;
  name_source = seed;
  created_at = 1;
}

abbrev people : Users
people = (kim, kim_row) ∷ []

password_set_example : (set_password plain_passlib 3 kim new_pw people).0 ≡ true
unfolding get?
password_set_example = (password_set plain_passlib 3 kim new_pw people refl).0

abbrev vault : Vault
vault = record {
  claude = (lee, record { cred_type = "api_key"; secret = new_pw; updated_at = 4 }) ∷ [];
  google = [];
  oauth = none;
  template = none;
  jira = none;
}

migrate_transparent_example :
    (n : ℕ) × (w : Vault) × (migrate_encrypt_credentials (key plain_fernet) 2 vault
      ≡ returns (n, w))
    × (get_credential (key plain_fernet) lee w ≡ get_credential (key plain_fernet) lee vault)
    × (get_google_credential (key plain_fernet) lee w
        ≡ get_google_credential (key plain_fernet) lee vault)
    × (get_google_oauth_config (key plain_fernet) w
        ≡ get_google_oauth_config (key plain_fernet) vault)
    × (get_jira_config (key plain_fernet) w ≡ get_jira_config (key plain_fernet) vault)
migrate_transparent_example = migrate_transparent plain_fernet 2 lee vault

-- WEB_AUTH_USERS names lee, "lee:987".
abbrev listed_users : Chars
listed_users = 108 ∷ 101 ∷ 101 ∷ 58 ∷ 57 ∷ 56 ∷ 55 ∷ []

abbrev started : Outcome (Users × Vault)
started = init plain_passlib old_pw unset 5 6 kim listed_users true (people, vault)

started_ok : (r : Users × Vault) × (started ≡ returns r)
unfolding init migrate_encrypt_credentials
started_ok = (_, refl)

lee_listed : is_in lee (map name_of (accounts listed_users)) ≡ true
unfolding accounts lb_note.Base.Chars.strip
lee_listed = refl

restart_safe_example : (u : User) × (find lee started_ok.0.0 ≡ some u)
restart_safe_example =
    ((restart_safe plain_passlib old_pw unset 5 6 kim listed_users true people started_ok.0.0 vault
        started_ok.0.1 started_ok.1).0
      lee lee_listed).0

token_access_example :
    user_from_token plain_jwt old_pw 20
      (make_token plain_jwt old_pw 100 10 kim none none)
      none
      people
    ≡ known kim (find kim people)
token_access_example = token_access plain_jwt old_pw 100 10 20 kim none none none people

intake_started :
    (c : ℕ) × (t : Chars) × (make_token plain_jwt old_pw 100 10 kim none (some intake_scope)
      ≡ c ∷ t)
unfolding make_token
intake_started = (_, _, refl)

intake_token_example :
    (require_user plain_jwt old_pw 20 (some (intake_started.0 ∷ intake_started.1)) people
      ≡ refused wrong_scope)
    × (require_requirement_writer plain_jwt old_pw 20
          (some (intake_started.0 ∷ intake_started.1))
          people
        ≡ granted (bot kim))
intake_token_example =
    intake_token plain_jwt old_pw 100 10 20 kim none people intake_started.0 intake_started.1
      intake_started.2

-- "sk" within blanks.
abbrev blank_key : Chars
blank_key = 32 ∷ 115 ∷ 107 ∷ 32 ∷ []

stripped : is_empty (strip blank_key) ≡ false
unfolding strip
stripped = refl

credential_roundtrip_example :
    (w : Vault) × (set_credential (key plain_fernet) 3 8 kim "api_key" blank_key vault ≡ returns w)
    × (get_credential (key plain_fernet) kim w
        ≡ returns
            (some (record { cred_type = "api_key"; secret = strip blank_key; updated_at = 8 })))
    × ((other : Chars) (j : Key)
        → other ≢ kim
        → get_credential j other w ≡ get_credential j other vault)
credential_roundtrip_example =
    (credential_roundtrip (key plain_fernet) 3 8 kim "api_key" blank_key vault tt).0 refl stripped

abbrev edits : List Edit
edits =
    upserts 3 global_scope [] kim lee none
    ∷ upserts 4 user_scope kim lee old_pw (some kim)
    ∷ deletes global_scope [] kim
    ∷ []

glossary_bounds_example : Within (edited edits [])
glossary_bounds_example = glossary_bounds edits
