-- ===== src/Web/Auth/Access.antt =====
-- Who passes with which token (src/web/auth.py).
use lb_note.Base.{
  ℕ, ◌+◌, ◌≡◌, refl, sym, Option, some, ◌∷◌, arith, if◌then◌else◌, ltb, nat_Eq, list_Eq, string_Eq,
  Bool-cases, inl, inr,
}
use lb_note.Base.Chars.{Chars}
use lb_note.Web.Auth.Users.{Users, find}
use lb_note.Web.Auth.Tokens.{
  Jwt, Claims, claims, expired, invalid, token_invalid, granted, refused, token_expired,
  wrong_scope, same_scope, intake_scope, known, or_default, bot, make_token, user_from_token,
  require_user, require_requirement_writer,
}

module _ (jwt : Jwt) (secret : Chars) where
  decode_at :
      (now : ℕ) (c : Claims)
      → jwt.decode now secret (jwt.encode secret c)
        ≡ (if ltb now c.iat then invalid else (if ltb now c.exp then claims c else expired))
  decode_at now c = elim (Bool-cases (ltb now c.iat)) [
    | inl e ↦ rw (e, jwt.decode_early now secret c (ground arith)) refl
    | inr i ↦ elim (Bool-cases (ltb now c.exp)) [
      | inl y ↦ rw (i, y, jwt.decode-encode now secret c (ground arith) (ground arith)) refl
      | inr n ↦ rw (i, n, jwt.decode_late now secret c (ground arith) (ground arith)) refl
    ]
  ]

  -- A token that was made at `born` for `name` is, at every moment `now`: invalid before it was made,
  -- expired when its time to live is over, refused for its scope when that is not the scope asked for, and
  -- otherwise the user of that name as the table has it now, or refused when the account is gone.
  pub token_access :
      (default_ttl born now : ℕ) (name : Chars) (ttl : Option ℕ) (scope asked : Option Chars)
      (db : Users)
      → user_from_token jwt secret now
          (make_token jwt secret default_ttl born name ttl scope)
          asked
          db
        ≡ (if ltb now born
            then refused token_invalid
            else (if ltb now (born + or_default ttl default_ttl)
                then (if same_scope scope asked
                    then known name (find name db)
                    else refused wrong_scope)
                else refused token_expired))
  unfolding user_from_token make_token
  token_access default_ttl born now name ttl scope asked db =
      let c : Claims = record {
        sub = name;
        iat = born;
        exp = born + or_default ttl default_ttl;
        scope = scope;
      } in
      elim (Bool-cases (ltb now born)) [
        | inl e ↦ rw (decode_at now c, e) refl
        | inr i ↦ elim (Bool-cases (ltb now c.exp)) [
          | inl y ↦ rw (decode_at now c, i, y) refl
          | inr n ↦ rw (decode_at now c, i, n) refl
        ]
      ]

  -- A token for the intake of requirements opens no route of a user at any moment. From the time that it
  -- was made and while it lives it lets the bot of its name write requirements; before and afterwards it
  -- does not. The token is not the empty text.
  pub intake_token :
      (default_ttl born now : ℕ) (name : Chars) (ttl : Option ℕ) (db : Users) (c : ℕ) (t : Chars)
      → make_token jwt secret default_ttl born name ttl (some intake_scope) ≡ c ∷ t
      → (require_user jwt secret now (some (c ∷ t)) db
          ≡ refused (
              if ltb now born
              then token_invalid
              else (if ltb now (born + or_default ttl default_ttl)
                  then wrong_scope
                  else token_expired)))
        × (require_requirement_writer jwt secret now (some (c ∷ t)) db ≡ (
            if ltb now born
            then refused token_invalid
            else (if ltb now (born + or_default ttl default_ttl)
                then granted (bot name)
                else refused token_expired)))
  unfolding require_user user_from_token make_token require_requirement_writer
  intake_token default_ttl born now name ttl db c t e =
      let k : Claims = record {
        sub = name;
        iat = born;
        exp = born + or_default ttl default_ttl;
        scope = some intake_scope;
      } in
      elim (Bool-cases (ltb now born)) [
        | inl b ↦ rw (sym e, decode_at now k, b) (refl, refl)
        | inr i ↦ elim (Bool-cases (ltb now k.exp)) [
          | inl y ↦ rw (sym e, decode_at now k, i, y) (refl, refl)
          | inr n ↦ rw (sym e, decode_at now k, i, n) (refl, refl)
        ]
      ]
