-- ===== src/Web/Auth/Tokens.antt =====
-- Tokens and who passes with one (src/web/auth.py). PyJWT is an argument with what its documentation
-- says of HS256: a token decodes, under the key that signed it, to its claims from the time that it was
-- issued until it expires; before that time PyJWT raises `ImmatureSignatureError`.
use lb_note.Base.{
  ℕ, ◌+◌, ◌≡◌, ◌≤◌, ◌<◌, Option, none, some, Bool, true, false, [], ◌∷◌, if◌then◌else◌, ◌==◌,
  nat_Eq, list_Eq, string_Eq,
}
use lb_note.Base.Chars.{Chars}
use lb_note.Web.Auth.Users.{Users, PublicUser, public_user, find, User}

pub record Claims : Type 0 where
  pub sub : Chars
  pub iat : ℕ
  pub exp : ℕ
  pub scope : Option Chars

-- `jwt.decode` returns the claims, or raises `ExpiredSignatureError` or another `PyJWTError`.
pub data Decoded : Type 0 where
  claims : Claims → Decoded
  expired invalid : Decoded

pub record Jwt : Type 0 where
  pub encode : Chars → Claims → Chars
  pub decode : ℕ → Chars → Chars → Decoded
  pub decode-encode :
      (now : ℕ) (secret : Chars) (c : Claims)
      → c.iat ≤ now
      → now < c.exp
      → decode now secret (encode secret c) ≡ claims c
  pub decode_late :
      (now : ℕ) (secret : Chars) (c : Claims)
      → c.iat ≤ now
      → c.exp ≤ now
      → decode now secret (encode secret c) ≡ expired
  pub decode_early :
      (now : ℕ) (secret : Chars) (c : Claims)
      → now < c.iat
      → decode now secret (encode secret c) ≡ invalid

-- `HTTPException`, by its status and its reason.
pub data Refusal : Type 0 where
  not_signed_in token_expired token_invalid wrong_scope unknown_user : Refusal
  must_change_password not_admin : Refusal

abbrev pub status_code : Refusal → ℕ
status_code not_signed_in = 401
status_code token_expired = 401
status_code token_invalid = 401
status_code wrong_scope = 401
status_code unknown_user = 401
status_code must_change_password = 403
status_code not_admin = 403

pub data Access (A : Type 0) : Type 0 where
  granted : A → Access A
  refused : Refusal → Access A

-- "requirement_intake".
abbrev pub intake_scope : Chars
intake_scope =
    114 ∷ 101 ∷ 113 ∷ 117 ∷ 105 ∷ 114 ∷ 101 ∷ 109 ∷ 101 ∷ 110 ∷ 116 ∷ 95 ∷ 105 ∷ 110 ∷ 116 ∷ 97
    ∷ 107 ∷ 101 ∷ []

abbrev pub same_scope : Option Chars → Option Chars → Bool
same_scope none none = true
same_scope none (some t) = false
same_scope (some s) none = false
same_scope (some s) (some t) = s == t

abbrev pub known : Chars → Option User → Access PublicUser
known name none = refused unknown_user
known name (some u) = granted (public_user name u)

abbrev pub or_default : Option ℕ → ℕ → ℕ
or_default none d = d
or_default (some n) d = n

abbrev pub given : Option Chars → (Chars → Access PublicUser) → Access PublicUser
given none f = refused not_signed_in
given (some []) f = refused not_signed_in
given (some (c ∷ t)) f = f (c ∷ t)

-- "bot".
abbrev pub bot_name : Chars
bot_name = 98 ∷ 111 ∷ 116 ∷ []

abbrev pub named : Chars → Chars
named [] = bot_name
named (c ∷ s) = c ∷ s

abbrev pub bot : Chars → PublicUser
bot name = record {
  username = named name;
  display_name = named name;
  role = "bot";
  english_name = none;
  job_title = none;
  must_change_password = false;
}

abbrev pub admin_only : PublicUser → Access PublicUser
admin_only u =
    if u.must_change_password
    then refused must_change_password
    else (if u.role == "admin" then granted u else refused not_admin)

abbrev pub then_admin : Access PublicUser → Access PublicUser
then_admin (granted u) = admin_only u
then_admin (refused r) = refused r

module _ (jwt : Jwt) (secret : Chars) where
  -- `make_token`, with the default time to live.
  unfoldable pub make_token : ℕ → ℕ → Chars → Option ℕ → Option Chars → Chars
  make_token default_ttl now name ttl scope =
      jwt.encode secret
        (record { sub = name; iat = now; exp = now + or_default ttl default_ttl; scope = scope })

  abbrev pub user_of : Option Chars → Users → Decoded → Access PublicUser
  user_of scope db expired = refused token_expired
  user_of scope db invalid = refused token_invalid
  user_of scope db (claims c) =
      if same_scope c.scope scope then known c.sub (find c.sub db) else refused wrong_scope

  -- `user_from_token`.
  unfoldable pub user_from_token : ℕ → Chars → Option Chars → Users → Access PublicUser
  user_from_token now token scope db = user_of scope db (jwt.decode now secret token)

  -- `require_user`, on the token of the Bearer header.
  unfoldable pub require_user : ℕ → Option Chars → Users → Access PublicUser
  unfolding user_from_token
  require_user now token db = given token (λ t. user_from_token now t none db)

  abbrev pub writer_of : Users → Decoded → Access PublicUser
  writer_of db expired = refused token_expired
  writer_of db invalid = refused token_invalid
  writer_of db (claims c) =
      if same_scope c.scope (some intake_scope)
      then granted (bot c.sub)
      else (if same_scope c.scope none
          then then_admin (known c.sub (find c.sub db))
          else refused wrong_scope)

  -- `require_requirement_writer`; the code's answer for the bot has the name and the role only.
  unfoldable pub require_requirement_writer : ℕ → Option Chars → Users → Access PublicUser
  require_requirement_writer now token db =
      given token (λ t. writer_of db (jwt.decode now secret t))
