-- ===== src/Web/Auth/Secrets.antt =====
-- Secrets at rest (`_enc_secret`, `_dec_secret` of src/web/auth.py). Fernet is an argument, with what
-- its documentation says: a token decrypts, under the key that made it, to the text that went in.
use lb_note.Base.{
  ℕ, ◌≡◌, refl, Option, none, some, false, [], ◌∷◌, ◌++◌, if◌then◌else◌, drop, length,
}
use lb_note.Base.Chars.{Chars, begins}

pub record Fernet : Type 0 where
  pub encrypt : ℕ → Chars → Chars
  pub decrypt : Chars → Option Chars
  pub decrypt-encrypt : (salt : ℕ) (s : Chars) → decrypt (encrypt salt s) ≡ some s

-- `CRED_ENC_KEY`: empty, no Fernet key, or one.
pub data Key : Type 0 where
  unset malformed : Key
  key : Fernet → Key

pub data Error : Type 0 where
  value_error runtime_error : Error

pub data Outcome (A : Type 0) : Type 0 where
  returns : A → Outcome A
  raises : Error → Outcome A

abbrev pub and_then : {A B : Type 0} → Outcome A → (A → Outcome B) → Outcome B
and_then (returns a) f = f a
and_then (raises e) f = raises e

-- `_ENC_PREFIX`.
abbrev pub enc_prefix : Chars
enc_prefix = 101 ∷ 110 ∷ 99 ∷ 58 ∷ 102 ∷ 101 ∷ 114 ∷ 110 ∷ 101 ∷ 116 ∷ 58 ∷ []

abbrev pub sealed : Fernet → ℕ → Chars → Chars
sealed f salt s = enc_prefix ++ f.encrypt salt s

-- `_enc_secret`.
unfoldable pub enc_secret : Key → ℕ → Chars → Outcome Chars
enc_secret unset salt s = returns s
enc_secret malformed salt s = raises runtime_error
enc_secret (key f) salt s = returns (sealed f salt s)

abbrev pub or_empty : Option Chars → Chars
or_empty none = []
or_empty (some s) = s

abbrev pub open_token : Key → Chars → Outcome Chars
open_token unset token = returns []
open_token malformed token = raises runtime_error
open_token (key f) token = returns (or_empty (f.decrypt token))

-- `_dec_secret`.
unfoldable pub dec_secret : Key → Chars → Outcome Chars
dec_secret k stored =
    if begins enc_prefix stored
    then open_token k (drop (length enc_prefix) stored)
    else returns stored

pub dec-sealed :
    (f : Fernet) (salt : ℕ) (s : Chars) → dec_secret (key f) (sealed f salt s) ≡ returns s
unfolding dec_secret
dec-sealed f salt s = rw (f.decrypt-encrypt salt s) refl

pub dec_plain : (k : Key) (s : Chars) → begins enc_prefix s ≡ false → dec_secret k s ≡ returns s
unfolding dec_secret
dec_plain k s h = rw h refl
