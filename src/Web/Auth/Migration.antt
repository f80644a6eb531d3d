-- ===== src/Web/Auth/Migration.antt =====
-- `migrate_encrypt_credentials` (src/web/auth.py): what is still plain is encrypted under the key.
use lb_note.Base.{
  ℕ, suc, ◌+◌, ◌≡◌, refl, sym, Option, none, some, [], ◌∷◌, if◌then◌else◌, ◌==◌, nat_Eq, list_Eq,
  Bool-cases, inl, inr, ◌∙◌,
}
use lb_note.Base.Dict.{Dict, get?}
use lb_note.Base.Chars.{Chars, is_empty, begins}
use lb_note.Web.Auth.Secrets.{
  Fernet, Key, unset, malformed, key, Outcome, returns, raises, runtime_error, enc_prefix, sealed,
  dec_secret, dec-sealed, dec_plain,
}
use lb_note.Web.Auth.Credentials.{
  Cred, Google, OauthConfig, JiraConfig, Vault, get_credential, get_google_credential, opened_cred,
  opened_google,
}
use lb_note.Web.Auth.Config.{get_google_oauth_config, get_jira_config, opened_oauth, opened_jira}

-- One stored text: whether it is encrypted now, and the text.
abbrev pub seal : Fernet → ℕ → Chars → ℕ × Chars
seal f salt s = if begins enc_prefix s then (0, s) else (1, sealed f salt s)

-- The same where an empty text is left alone.
abbrev pub seal_filled : Fernet → ℕ → Chars → ℕ × Chars
seal_filled f salt s = if is_empty s then (0, s) else seal f salt s

abbrev pub migrate_claude : Fernet → ℕ → Dict Chars Cred → ℕ × Dict Chars Cred
migrate_claude f salt [] = (0, [])
migrate_claude f salt ((k, c) ∷ d) =
    let (n, s) = seal f salt c.secret in
    let (m, d') = migrate_claude f (suc salt) d in (n + m, (k, record c { secret = s }) ∷ d')

abbrev pub migrate_google : Fernet → ℕ → Dict Chars Google → ℕ × Dict Chars Google
migrate_google f salt [] = (0, [])
migrate_google f salt ((k, g) ∷ d) =
    let (n, s) = seal f salt g.refresh_token in
    let (m, d') = migrate_google f (suc salt) d in (n + m, (k, record g { refresh_token = s }) ∷ d')

abbrev pub migrate_oauth : Fernet → ℕ → Option OauthConfig → ℕ × Option OauthConfig
migrate_oauth f salt none = (0, none)
migrate_oauth f salt (some c) =
    let (n, s) = seal_filled f salt c.client_secret in (n, some (record c { client_secret = s }))

abbrev pub migrate_jira : Fernet → ℕ → Option JiraConfig → ℕ × Option JiraConfig
migrate_jira f salt none = (0, none)
migrate_jira f salt (some c) =
    let (n, s) = seal_filled f salt c.api_token in (n, some (record c { api_token = s }))

abbrev pub migrate_all : Fernet → ℕ → Vault → ℕ × Vault
migrate_all f salt v =
    let (a, claude) = migrate_claude f salt v.claude in
    let (b, google) = migrate_google f salt v.google in
    let (c, oauth) = migrate_oauth f salt v.oauth in
    let (d, jira) = migrate_jira f salt v.jira in
    (a + b + c + d, record v { claude = claude; google = google; oauth = oauth; jira = jira })

-- `migrate_encrypt_credentials`: how many were encrypted, and the tables.
unfoldable pub migrate_encrypt_credentials : Key → ℕ → Vault → Outcome (ℕ × Vault)
migrate_encrypt_credentials unset salt v = returns (0, v)
migrate_encrypt_credentials malformed salt v = raises runtime_error
migrate_encrypt_credentials (key f) salt v = returns (migrate_all f salt v)

module _ (f : Fernet) where
  -- A text reads the same after it is sealed.
  dec-seal : (salt : ℕ) (s : Chars) → dec_secret (key f) (seal f salt s).1 ≡ dec_secret (key f) s
  dec-seal salt s = elim (Bool-cases (begins enc_prefix s)) [
    | inl y ↦ rw y refl
    | inr n ↦ rw n (dec-sealed f salt s ∙ sym (dec_plain (key f) s n))
  ]

  dec-seal_filled :
      (salt : ℕ) (s : Chars) → dec_secret (key f) (seal_filled f salt s).1 ≡ dec_secret (key f) s
  dec-seal_filled salt [] = refl
  dec-seal_filled salt (c ∷ s) = dec-seal salt (c ∷ s)

  opened_cred-migrate :
      (salt : ℕ) (name : Chars) (d : Dict Chars Cred)
      → opened_cred (key f) (get? name (migrate_claude f salt d).1)
        ≡ opened_cred (key f) (get? name d)
  unfolding get?
  opened_cred-migrate salt name [] = refl
  opened_cred-migrate salt name ((k, c) ∷ d) = elim (Bool-cases (k == name)) [
    | inl y ↦ rw (y, dec-seal salt c.secret) refl
    | inr n ↦ rw n (opened_cred-migrate (suc salt) name d)
  ]

  opened_google-migrate :
      (salt : ℕ) (name : Chars) (d : Dict Chars Google)
      → opened_google (key f) (get? name (migrate_google f salt d).1)
        ≡ opened_google (key f) (get? name d)
  unfolding get?
  opened_google-migrate salt name [] = refl
  opened_google-migrate salt name ((k, g) ∷ d) = elim (Bool-cases (k == name)) [
    | inl y ↦ rw (y, dec-seal salt g.refresh_token) refl
    | inr n ↦ rw n (opened_google-migrate (suc salt) name d)
  ]

  opened_oauth-migrate :
      (salt : ℕ) (o : Option OauthConfig)
      → opened_oauth (key f) (migrate_oauth f salt o).1 ≡ opened_oauth (key f) o
  opened_oauth-migrate salt none = refl
  opened_oauth-migrate salt (some c) = rw (dec-seal_filled salt c.client_secret) refl

  opened_jira-migrate :
      (salt : ℕ) (o : Option JiraConfig)
      → opened_jira (key f) (migrate_jira f salt o).1 ≡ opened_jira (key f) o
  opened_jira-migrate salt none = refl
  opened_jira-migrate salt (some c) = rw (dec-seal_filled salt c.api_token) refl

  -- The migration changes no secret as the code reads it: under the key, every account's credentials,
  -- the OAuth settings and the Jira settings read after it as before it, whether they were plain or
  -- encrypted, and with the rest of their rows.
  pub migrate_transparent :
      (salt : ℕ) (name : Chars) (v : Vault)
      → (n : ℕ) × (w : Vault) × (migrate_encrypt_credentials (key f) salt v ≡ returns (n, w))
        × (get_credential (key f) name w ≡ get_credential (key f) name v)
        × (get_google_credential (key f) name w ≡ get_google_credential (key f) name v)
        × (get_google_oauth_config (key f) w ≡ get_google_oauth_config (key f) v)
        × (get_jira_config (key f) w ≡ get_jira_config (key f) v)
  unfolding migrate_encrypt_credentials get_credential get_google_credential get_google_oauth_config
      get_jira_config
  migrate_transparent salt name v = (
    (migrate_all f salt v).0,
    (migrate_all f salt v).1,
    refl,
    opened_cred-migrate salt name v.claude,
    opened_google-migrate salt name v.google,
    opened_oauth-migrate salt v.oauth,
    opened_jira-migrate salt v.jira,
  )

  seal_twice :
      (salt salt' : ℕ) (s : Chars) → seal f salt' (seal f salt s).1 ≡ (0, (seal f salt s).1)
  seal_twice salt salt' s = elim (Bool-cases (begins enc_prefix s)) [
    | inl y ↦ rw (y, y) refl
    | inr n ↦ rw n refl
  ]

  seal_filled_twice :
      (salt salt' : ℕ) (s : Chars)
      → seal_filled f salt' (seal_filled f salt s).1 ≡ (0, (seal_filled f salt s).1)
  seal_filled_twice salt salt' [] = refl
  seal_filled_twice salt salt' (c ∷ s) = elim (Bool-cases (begins enc_prefix (c ∷ s))) [
    | inl y ↦ rw (y, y) refl
    | inr n ↦ rw n refl
  ]

  migrate_claude_twice :
      (salt salt' : ℕ) (d : Dict Chars Cred)
      → migrate_claude f salt' (migrate_claude f salt d).1 ≡ (0, (migrate_claude f salt d).1)
  migrate_claude_twice salt salt' [] = refl
  migrate_claude_twice salt salt' ((k, c) ∷ d) =
      rw (seal_twice salt salt' c.secret, migrate_claude_twice (suc salt) (suc salt') d) refl

  migrate_google_twice :
      (salt salt' : ℕ) (d : Dict Chars Google)
      → migrate_google f salt' (migrate_google f salt d).1 ≡ (0, (migrate_google f salt d).1)
  migrate_google_twice salt salt' [] = refl
  migrate_google_twice salt salt' ((k, g) ∷ d) =
      rw (seal_twice salt salt' g.refresh_token, migrate_google_twice (suc salt) (suc salt') d) refl

  migrate_oauth_twice :
      (salt salt' : ℕ) (o : Option OauthConfig)
      → migrate_oauth f salt' (migrate_oauth f salt o).1 ≡ (0, (migrate_oauth f salt o).1)
  migrate_oauth_twice salt salt' none = refl
  migrate_oauth_twice salt salt' (some c) = rw (seal_filled_twice salt salt' c.client_secret) refl

  migrate_jira_twice :
      (salt salt' : ℕ) (o : Option JiraConfig)
      → migrate_jira f salt' (migrate_jira f salt o).1 ≡ (0, (migrate_jira f salt o).1)
  migrate_jira_twice salt salt' none = refl
  migrate_jira_twice salt salt' (some c) = rw (seal_filled_twice salt salt' c.api_token) refl

  -- A second migration under the same key encrypts nothing and leaves every table as it is.
  migrate_idempotent :
      (salt salt' : ℕ) (v : Vault)
      → (n : ℕ) × (w : Vault) × (migrate_encrypt_credentials (key f) salt v ≡ returns (n, w))
        × (migrate_encrypt_credentials (key f) salt' w ≡ returns (0, w))
  unfolding migrate_encrypt_credentials
  migrate_idempotent salt salt' v = (
    (migrate_all f salt v).0,
    (migrate_all f salt v).1,
    refl,
    rw
        (
          migrate_claude_twice salt salt' v.claude,
          migrate_google_twice salt salt' v.google,
          migrate_oauth_twice salt salt' v.oauth,
          migrate_jira_twice salt salt' v.jira,
        )
        refl,
  )
