-- ===== src/Web/Auth/Credentials.antt =====
-- The tables with secrets of `UserStore` (src/web/auth.py) and the methods on them.
use lb_note.Base.{
  ℕ, Option, none, some, Bool, true, false, ◌||◌, List, [], ◌∷◌, String, if◌then◌else◌, ◌==◌,
  nat_Eq, list_Eq, string_Eq,
}
use lb_note.Base.Dict.{Dict, get?, put, remove, is_some, contains}
use lb_note.Base.Chars.{Chars, strip, is_empty}
use lb_note.Web.Auth.Secrets.{
  Key, Outcome, returns, raises, value_error, and_then, enc_secret, dec_secret,
}

-- A row of claude_credentials.
pub record Cred : Type 0 where
  pub cred_type : String
  pub secret : Chars
  pub updated_at : ℕ

-- A row of google_credentials.
pub record Google : Type 0 where
  pub refresh_token : Chars
  pub email : Option Chars
  pub root_folder_id : Option Chars
  pub updated_at : ℕ
  pub invalid_at : Option ℕ

-- The row of app_oauth_config.
pub record OauthConfig : Type 0 where
  pub client_id : Chars
  pub client_secret : Chars
  pub redirect_uri : Chars
  pub updated_at : ℕ

-- The row of app_doc_template.
pub record DocTemplate : Type 0 where
  pub template_id : Chars
  pub template_url : Chars
  pub updated_at : ℕ

-- The row of jira_config.
pub record JiraConfig : Type 0 where
  pub base_url : Chars
  pub email : Chars
  pub api_token : Chars
  pub default_project : Option Chars
  pub updated_at : ℕ

pub record Vault : Type 0 where
  pub claude : Dict Chars Cred
  pub google : Dict Chars Google
  pub oauth : Option OauthConfig
  pub template : Option DocTemplate
  pub jira : Option JiraConfig

-- `_CRED_TYPES`.
abbrev pub is_cred_type : String → Bool
is_cred_type t = (t == "api_key") || (t == "oauth_token")

-- `set_credential`.
unfoldable pub set_credential : Key → ℕ → ℕ → Chars → String → Chars → Vault → Outcome Vault
set_credential k salt now name type secret v =
    if is_cred_type type
    then (if is_empty (strip secret)
        then raises value_error
        else and_then (enc_secret k salt (strip secret)) (λ stored. returns (record v {
          claude =
              put name (record { cred_type = type; secret = stored; updated_at = now }) v.claude;
        })))
    else raises value_error

-- A secret that cannot be read counts as none.
abbrev pub readable : {A : Type 0} → A → Chars → Outcome (Option A)
readable a s = returns (if is_empty s then none else some a)

abbrev pub opened_cred : Key → Option Cred → Outcome (Option Cred)
opened_cred k none = returns none
opened_cred k (some c) =
    and_then (dec_secret k c.secret) (λ s. readable (record c { secret = s }) s)

-- `get_credential`.
unfoldable pub get_credential : Key → Chars → Vault → Outcome (Option Cred)
get_credential k name v = opened_cred k (get? name v.claude)

-- `clear_credential`.
unfoldable pub clear_credential : Chars → Vault → Bool × Vault
clear_credential name v = (contains name v.claude, record v { claude = remove name v.claude })

-- `credential_status`: the type and the time, without the secret.
abbrev pub status_of : Option Cred → Option (String × ℕ)
status_of none = none
status_of (some c) = some (c.cred_type, c.updated_at)

unfoldable pub credential_status : Key → Chars → Vault → Outcome (Option (String × ℕ))
credential_status k name v = and_then (get_credential k name v) (λ c. returns (status_of c))

abbrev pub owners : Dict Chars Cred → List (Chars × String × ℕ)
owners [] = []
owners ((k, c) ∷ d) = (k, c.cred_type, c.updated_at) ∷ owners d

-- `list_credential_owners`.
unfoldable pub list_credential_owners : Vault → List (Chars × String × ℕ)
list_credential_owners v = owners v.claude

abbrev pub google_row : ℕ → Chars → Option Chars → Option Google → Google
google_row now stored email none = record {
  refresh_token = stored;
  email = email;
  root_folder_id = none;
  updated_at = now;
  invalid_at = none;
}
google_row now stored email (some g) = record g {
  refresh_token = stored;
  email = email;
  updated_at = now;
  invalid_at = none;
}

-- `set_google_credential`: connecting again keeps the folder.
unfoldable pub set_google_credential :
    Key → ℕ → ℕ → Chars → Chars → Option Chars → Vault → Outcome Vault
set_google_credential k salt now name token email v =
    if is_empty (strip token)
    then raises value_error
    else and_then (enc_secret k salt (strip token)) (λ stored.
      returns (record v {
        google = put name (google_row now stored email (get? name v.google)) v.google;
      }))

abbrev pub opened_google : Key → Option Google → Outcome (Option Google)
opened_google k none = returns none
opened_google k (some g) =
    and_then (dec_secret k g.refresh_token) (λ s. readable (record g { refresh_token = s }) s)

-- `get_google_credential`.
unfoldable pub get_google_credential : Key → Chars → Vault → Outcome (Option Google)
get_google_credential k name v = opened_google k (get? name v.google)

abbrev pub with_google : (Google → Google) → Chars → Option Google → Vault → Vault
with_google f name none v = v
with_google f name (some g) v = record v { google = put name (f g) v.google }

-- `set_google_root_folder`.
unfoldable pub set_google_root_folder : Chars → Option Chars → Vault → Vault
set_google_root_folder name folder v =
    with_google (λ g. record g { root_folder_id = folder }) name (get? name v.google) v

-- `clear_google_credential`.
unfoldable pub clear_google_credential : Chars → Vault → Bool × Vault
clear_google_credential name v =
    (contains name v.google, record v { google = remove name v.google })

abbrev pub marked : ℕ → Chars → Option Google → Vault → Bool × Vault
marked now name none v = (false, v)
marked now name (some g) v =
    if is_some g.invalid_at
    then (false, v)
    else (true, record v { google = put name (record g { invalid_at = some now }) v.google })

-- `mark_google_credential_invalid`: the first time that it was seen stays.
unfoldable pub mark_google_credential_invalid : ℕ → Chars → Vault → Bool × Vault
mark_google_credential_invalid now name v = marked now name (get? name v.google) v

-- `clear_google_credential_invalid`.
unfoldable pub clear_google_credential_invalid : Chars → Vault → Vault
clear_google_credential_invalid name v =
    with_google (λ g. record g { invalid_at = none }) name (get? name v.google) v

-- `google_status`; `none` is not connected. `needsReconnect` is whether there is a time.
pub record GoogleStatus : Type 0 where
  pub email : Option Chars
  pub updated_at : ℕ
  pub invalid_at : Option ℕ

abbrev pub google_status_of : Option Google → Option GoogleStatus
google_status_of none = none
google_status_of (some g) =
    some (record { email = g.email; updated_at = g.updated_at; invalid_at = g.invalid_at })

unfoldable pub google_status : Key → Chars → Vault → Outcome (Option GoogleStatus)
google_status k name v =
    and_then (get_google_credential k name v) (λ g. returns (google_status_of g))
