-- ===== src/Web/Auth/Stored.antt =====
-- A secret that is stored reads back (src/web/auth.py).
use lb_note.Base.{
  ℕ, ◌≡◌, ◌≢◌, refl, some, true, false, String, nat_Eq, list_Eq, string_Eq, Bool-cases, inl, inr,
  ne→beq,
}
use lb_note.Base.Dict.{get?-put, get?-put_self}
use lb_note.Base.Chars.{Chars, strip, is_empty, begins}
use lb_note.Web.Auth.Secrets.{
  Key, unset, malformed, key, returns, raises, value_error, enc_prefix, enc_secret, dec_secret,
  dec-sealed, dec_plain,
}
use lb_note.Web.Auth.Credentials.{Vault, is_cred_type, set_credential, get_credential}

-- The key is none that is malformed, and without one the text does not look like a token.
abbrev pub Usable : Key → Chars → Type 0
Usable unset s = begins enc_prefix s ≡ false
Usable malformed s = ⊥
Usable (key f) s = Unit {0}

reads_back :
    (k : Key) (salt : ℕ) (s : Chars)
    → Usable k s
    → (stored : Chars) × (enc_secret k salt s ≡ returns stored) × (dec_secret k stored ≡ returns s)
unfolding enc_secret
reads_back unset salt s h = (s, refl, dec_plain unset s h)
reads_back malformed salt s h = absurd h
reads_back (key f) salt s h = (_, refl, dec-sealed f salt s)

-- The encryption key is not malformed, and where it is not set the secret without its blanks does not begin
-- with the prefix of encrypted texts. A credential of a known type whose secret is not blank is stored, and reads back as the secret without
-- the blanks around it, its type and the time; the other users' credentials read as before, whatever the
-- key. Another type, or a blank secret, is an error of the value.
pub credential_roundtrip :
    (k : Key) (salt now : ℕ) (name : Chars) (type : String) (secret : Chars) (v : Vault)
    → Usable k (strip secret)
    → (is_cred_type type ≡ true
        → is_empty (strip secret) ≡ false
        → (w : Vault) × (set_credential k salt now name type secret v ≡ returns w)
          × (get_credential k name w
              ≡ returns
                  (some (record { cred_type = type; secret = strip secret; updated_at = now })))
          × ((other : Chars) (j : Key)
              → other ≢ name
              → get_credential j other w ≡ get_credential j other v))
      × (is_cred_type type ≡ false
          → set_credential k salt now name type secret v ≡ raises value_error)
      × (is_empty (strip secret) ≡ true
          → set_credential k salt now name type secret v ≡ raises value_error)
unfolding set_credential get_credential
credential_roundtrip k salt now name type secret v u =
    let (stored, e, d) = reads_back k salt (strip secret) u in
    (
      λ t n.
          rw (t, n, e)
            (
              _,
              refl,
              rw
                  (
                    get?-put_self name
                        (record { cred_type = type; secret = stored; updated_at = now }) v.claude,
                    d,
                    n,
                  )
                  refl,
              λ other j ne. rw (get?-put other name _ v.claude, ne→beq other name ne) refl,
            ),
      λ t. rw t refl,
      λ n. elim (Bool-cases (is_cred_type type)) [ inl y ↦ rw (y, n) refl | inr f ↦ rw f refl ],
    )
