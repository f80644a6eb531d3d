-- ===== src/Web/Auth/Start.antt =====
-- The accounts at the start of the server (`init` of src/web/auth.py). The environment's variables are
-- arguments.
use lb_note.Base.{
  ℕ, zero, suc, Option, none, some, Bool, not, ◌&&◌, List, [], ◌∷◌, if◌then◌else◌, ◌==◌, nat_Eq,
  list_Eq, map, select, is_in,
}
use lb_note.Base.Chars.{Chars, strip, is_empty}
use lb_note.Web.Auth.Secrets.{Key, Outcome, returns, raises, runtime_error, and_then}
use lb_note.Web.Auth.Credentials.{Vault}
use lb_note.Web.Auth.Migration.{migrate_encrypt_credentials}
use lb_note.Web.Auth.Users.{Passlib, Users, seed_user, upsert, delete, usernames, count}

abbrev pub onto_first : ℕ → List Chars → List Chars
onto_first c [] = (c ∷ []) ∷ []
onto_first c (p ∷ ps) = (c ∷ p) ∷ ps

-- `s.split(d)` at one character.
abbrev pub split_on : ℕ → Chars → List Chars
split_on d [] = [] ∷ []
split_on d (c ∷ s) = let ps = split_on d s in if c == d then [] ∷ ps else onto_first c ps

-- `s.split(":", 1)`, with `none` where there is no colon.
abbrev pub add_before : ℕ → Option (Chars × Chars) → Option (Chars × Chars)
add_before c none = none
add_before c (some (a, b)) = some (c ∷ a, b)

abbrev pub split_pair : Chars → Option (Chars × Chars)
split_pair [] = none
split_pair (c ∷ s) = let rest = split_pair s in if c == 58 then some ([], s) else add_before c rest

abbrev pub account_of : Option (Chars × Chars) → List (Chars × Chars) → List (Chars × Chars)
account_of none rest = rest
account_of (some (n, p)) rest =
    if is_empty (strip n)
    then rest
    else (if is_empty (strip p) then rest else (strip n, strip p) ∷ rest)

abbrev pub accounts_in : List Chars → List (Chars × Chars)
accounts_in [] = []
accounts_in (pair ∷ pairs) = account_of (split_pair (strip pair)) (accounts_in pairs)

-- The pairs of `WEB_AUTH_USERS`.
unfoldable pub accounts : Chars → List (Chars × Chars)
accounts spec = if is_empty (strip spec) then [] else accounts_in (split_on 44 (strip spec))

-- The names of `WEB_AUTH_ADMINS`.
unfoldable pub admins : Chars → List Chars
admins spec = select (λ n. not (is_empty n)) (map strip (split_on 44 spec))

abbrev pub name_of : Chars × Chars → Chars
name_of (n, p) = n

abbrev pub drop_unlisted : List Chars → List Chars → Users → Users
drop_unlisted [] listed db = db
drop_unlisted (n ∷ ns) listed db =
    drop_unlisted ns listed (if is_in n listed then db else (delete n db).1)

abbrev pub prune : Bool → List Chars → Users → Users
prune on listed db =
    if not (is_empty listed) && on then drop_unlisted (usernames db) listed db else db

-- "admin".
abbrev pub admin_name : Chars
admin_name = 97 ∷ 100 ∷ 109 ∷ 105 ∷ 110 ∷ []

module _ (lib : Passlib) where
  -- `seed_user` for each pair; a salt is drawn for each.
  abbrev pub seed_all : ℕ → ℕ → List Chars → List (Chars × Chars) → Users → Users
  seed_all salt now bosses [] db = db
  seed_all salt now bosses ((n, p) ∷ pairs) db =
      seed_all (suc salt) now bosses pairs
        (seed_user lib salt now n p none (if is_in n bosses then "admin" else "developer") db)

  abbrev pub ensure_one : ℕ → ℕ → Users → Users
  ensure_one salt now db =
      if count db == 0
      then upsert lib salt now admin_name admin_name none "admin" none none db
      else db

  abbrev pub start_users : ℕ → ℕ → List Chars → List (Chars × Chars) → Bool → Users → Users
  start_users salt now bosses pairs on db =
      ensure_one zero now (prune on (map name_of pairs) (seed_all (suc salt) now bosses pairs db))

  -- `init`: the signing key has to be set, the secrets are migrated, then the accounts.
  unfoldable pub init :
      Chars → Key → ℕ → ℕ → Chars → Chars → Bool → Users × Vault → Outcome (Users × Vault)
  init secret k salt now admin_spec user_spec on (db, v) =
      if is_empty secret
      then raises runtime_error
      else and_then (migrate_encrypt_credentials k salt v)
          (λ r. returns (start_users salt now (admins admin_spec) (accounts user_spec) on db, r.1))
