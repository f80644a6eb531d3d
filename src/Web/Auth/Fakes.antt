-- ===== src/Web/Auth/Fakes.antt =====
-- Stand-ins for passlib, Fernet and PyJWT that have the laws the model asks for.
use lb_note.Base.{
  ℕ, zero, suc, ◌≡◌, refl, ◌∙◌, Option, none, some, [], ◌∷◌, if◌then◌else◌, ltb, ◌==◌, ==_refl,
  nat_Eq, list_Eq, drop, lt→ltb, le→ltb,
}
use lb_note.Base.Chars.{Chars}
use lb_note.Web.Auth.Users.{Passlib}
use lb_note.Web.Auth.Secrets.{Fernet}
use lb_note.Web.Auth.Tokens.{Claims, Decoded, claims, expired, invalid, Jwt}

-- The hash is the salt before the password.
abbrev pub plain_passlib : Passlib
plain_passlib = record {
  hash = λ salt p. salt ∷ p;
  verify = λ p h. p == drop 1 h;
  verify-hash = λ salt p. ==_refl p;
}

abbrev without_salt : Chars → Option Chars
without_salt [] = none
without_salt (c ∷ s) = some s

abbrev pub plain_fernet : Fernet
plain_fernet = record {
  encrypt = λ salt s. salt ∷ s;
  decrypt = without_salt;
  decrypt-encrypt = λ salt s. refl;
}

-- A text that ends at the first 0, and what follows it.
abbrev shifted : Chars → Chars → Chars
shifted [] rest = 0 ∷ rest
shifted (c ∷ s) rest = suc c ∷ shifted s rest

abbrev read_text : Chars → Chars × Chars
read_text [] = ([], [])
read_text (zero ∷ rest) = ([], rest)
read_text (suc c ∷ s) = (c ∷ (read_text s).0, (read_text s).1)

read_text-shifted : (s rest : Chars) → read_text (shifted s rest) ≡ (s, rest)
read_text-shifted [] rest = refl
read_text-shifted (c ∷ s) rest = rw (read_text-shifted s rest) refl

abbrev scope_text : Option Chars → Chars
scope_text none = []
scope_text (some s) = 1 ∷ s

abbrev plain_claims : ℕ → ℕ → Chars → Chars → Claims
plain_claims exp iat sub [] = record { sub = sub; iat = iat; exp = exp; scope = none }
plain_claims exp iat sub (c ∷ s) = record { sub = sub; iat = iat; exp = exp; scope = some s }

abbrev plain_encode : Claims → Chars
plain_encode c = c.exp ∷ c.iat ∷ shifted c.sub (scope_text c.scope)

abbrev at_time : ℕ → Claims → Decoded
at_time now c = if ltb now c.iat then invalid else (if ltb now c.exp then claims c else expired)

abbrev plain_decode : ℕ → Chars → Decoded
plain_decode now [] = invalid
plain_decode now (a ∷ []) = invalid
plain_decode now (exp ∷ iat ∷ s) =
    at_time now (plain_claims exp iat (read_text s).0 (read_text s).1)

plain_scope :
    (exp iat : ℕ) (sub : Chars) (o : Option Chars)
    → plain_claims exp iat sub (scope_text o)
      ≡ record { sub = sub; iat = iat; exp = exp; scope = o }
plain_scope exp iat sub none = refl
plain_scope exp iat sub (some s) = refl

pub plain_decode-encode : (now : ℕ) (c : Claims) → plain_decode now (plain_encode c) ≡ at_time now c
plain_decode-encode now c =
    rw (read_text-shifted c.sub (scope_text c.scope), plain_scope c.exp c.iat c.sub c.scope) refl

abbrev pub plain_jwt : Jwt
plain_jwt = record {
  encode = λ secret c. plain_encode c;
  decode = λ now secret t. plain_decode now t;
  decode-encode = λ now secret c i h.
      plain_decode-encode now c ∙ rw (le→ltb now c.iat i, lt→ltb now c.exp h) refl;
  decode_late = λ now secret c i h.
      plain_decode-encode now c ∙ rw (le→ltb now c.iat i, le→ltb now c.exp h) refl;
  decode_early = λ now secret c h. plain_decode-encode now c ∙ rw (lt→ltb now c.iat h) refl;
}
