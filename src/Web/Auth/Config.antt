-- ===== src/Web/Auth/Config.antt =====
-- The settings of the deployment in `UserStore` (src/web/auth.py): one row each.
use lb_note.Base.{ℕ, Option, none, some, Bool, ◌||◌, [], ◌∷◌, if◌then◌else◌, ◌==◌, nat_Eq}
use lb_note.Base.Dict.{is_some}
use lb_note.Base.Chars.{Chars, strip, is_empty}
use lb_note.Web.Auth.Secrets.{
  Key, Outcome, returns, raises, value_error, and_then, enc_secret, dec_secret,
}
use lb_note.Web.Auth.Credentials.{OauthConfig, DocTemplate, JiraConfig, Vault, readable}

-- `set_google_oauth_config`.
unfoldable pub set_google_oauth_config : Key → ℕ → ℕ → Chars → Chars → Chars → Vault → Outcome Vault
set_google_oauth_config k salt now id secret uri v =
    if is_empty (strip id) || is_empty (strip secret) || is_empty (strip uri)
    then raises value_error
    else and_then (enc_secret k salt (strip secret)) (λ stored. returns (record v {
      oauth = some (record {
        client_id = strip id;
        client_secret = stored;
        redirect_uri = strip uri;
        updated_at = now;
      });
    }))

abbrev pub opened_oauth : Key → Option OauthConfig → Outcome (Option OauthConfig)
opened_oauth k none = returns none
opened_oauth k (some c) =
    and_then (dec_secret k c.client_secret) (λ s. returns (some (record c { client_secret = s })))

-- `get_google_oauth_config`: a secret that cannot be read is empty.
unfoldable pub get_google_oauth_config : Key → Vault → Outcome (Option OauthConfig)
get_google_oauth_config k v = opened_oauth k v.oauth

unfoldable pub clear_google_oauth_config : Vault → Bool × Vault
clear_google_oauth_config v = (is_some v.oauth, record v { oauth = none })

-- `set_doc_template`.
unfoldable pub set_doc_template : ℕ → Chars → Chars → Vault → Outcome Vault
set_doc_template now id url v =
    if is_empty (strip id)
    then raises value_error
    else returns (record v {
      template =
          some (record { template_id = strip id; template_url = strip url; updated_at = now });
    })

abbrev pub named_template : Option DocTemplate → Option DocTemplate
named_template none = none
named_template (some t) = if is_empty (strip t.template_id) then none else some t

-- `get_doc_template` and `clear_doc_template`.
unfoldable pub get_doc_template : Vault → Option DocTemplate
get_doc_template v = named_template v.template

unfoldable pub clear_doc_template : Vault → Bool × Vault
clear_doc_template v = (is_some v.template, record v { template = none })

-- `s.rstrip("/")`.
abbrev pub no_slash : ℕ → Chars → Chars
no_slash c [] = if c == 47 then [] else c ∷ []
no_slash c (d ∷ s) = c ∷ d ∷ s

abbrev pub rstrip_slash : Chars → Chars
rstrip_slash [] = []
rstrip_slash (c ∷ s) = no_slash c (rstrip_slash s)

abbrev pub or_none : Chars → Option Chars
or_none [] = none
or_none (c ∷ s) = some (c ∷ s)

-- `set_jira_config`.
unfoldable pub set_jira_config : Key → ℕ → ℕ → Chars → Chars → Chars → Chars → Vault → Outcome Vault
set_jira_config k salt now url email token project v =
    if is_empty (rstrip_slash (strip url)) || is_empty (strip email) || is_empty (strip token)
    then raises value_error
    else and_then (enc_secret k salt (strip token)) (λ stored. returns (record v {
      jira = some (record {
        base_url = rstrip_slash (strip url);
        email = strip email;
        api_token = stored;
        default_project = or_none (strip project);
        updated_at = now;
      });
    }))

abbrev pub opened_jira : Key → Option JiraConfig → Outcome (Option JiraConfig)
opened_jira k none = returns none
opened_jira k (some c) =
    and_then (dec_secret k c.api_token) (λ s. readable (record c { api_token = s }) s)

-- `get_jira_config`.
unfoldable pub get_jira_config : Key → Vault → Outcome (Option JiraConfig)
get_jira_config k v = opened_jira k v.jira

unfoldable pub clear_jira_config : Vault → Bool × Vault
clear_jira_config v = (is_some v.jira, record v { jira = none })

pub record JiraStatus : Type 0 where
  pub base_url : Chars
  pub email : Chars
  pub default_project : Option Chars

abbrev pub jira_status_of : Option JiraConfig → Option JiraStatus
jira_status_of none = none
jira_status_of (some c) =
    some (record { base_url = c.base_url; email = c.email; default_project = c.default_project })

-- `jira_config_status`, without the token; `none` is not configured.
unfoldable pub jira_config_status : Key → Vault → Outcome (Option JiraStatus)
jira_config_status k v = and_then (get_jira_config k v) (λ c. returns (jira_status_of c))
