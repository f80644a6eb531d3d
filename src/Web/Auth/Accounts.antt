-- ===== src/Web/Auth/Accounts.antt =====
-- The accounts after a start (`init` of src/web/auth.py).
use lb_note.Base.{
  ℕ, zero, suc, ◌≡◌, ◌⊎◌, arith, refl, ap, ◌∙◌, none, some, Bool, true, false, not, ◌&&◌, List, [],
  ◌∷◌, ◌==◌, ==_iff, nat_Eq, list_Eq, map, is_in, Bool-cases, inl, inr, true≢false,
}
use lb_note.Base.Dict.{get?}
use lb_note.Base.Chars.{Chars, is_empty}
use lb_note.Web.Auth.Secrets.{Key, unset, malformed, key, returns}
use lb_note.Web.Auth.Credentials.{Vault}
use lb_note.Web.Auth.Migration.{migrate_encrypt_credentials}
use lb_note.Web.Auth.Users.{Passlib, User, Users, find, upsert, usernames, count}
use lb_note.Web.Auth.Passwords.{get?-put_there}
use lb_note.Web.Auth.Start.{
  accounts, admins, name_of, seed_all, prune, ensure_one, start_users, admin_name, init,
}
use lb_note.Web.Auth.Restart.{
  Kept, drop-get?, unlisted_gone, count-some, seed_all-Kept, seed_all-some, seed_all-unlisted,
}

prune-get? :
    (on : Bool) (name : Chars) (listed : List Chars) (db : Users)
    → is_in name listed ≡ true
    → get? name (prune on listed db) ≡ get? name db
prune-get? on name listed db i = elim (Bool-cases (not (is_empty listed) && on)) [
  | inl y ↦ rw y (drop-get? name (usernames db) listed db i)
  | inr f ↦ rw f refl
]

module _ (lib : Passlib) where
  ensure_one_same :
      (salt now : ℕ) (name : Chars) (db : Users) {u : User}
      → get? name db ≡ some u
      → ensure_one lib salt now db ≡ db
  ensure_one_same salt now name db h = rw (count-some name db h) refl

  ensure_one-count : (salt now : ℕ) (db : Users) → (count (ensure_one lib salt now db) == 0) ≡ false
  unfolding upsert
  ensure_one-count salt now db = elim (Bool-cases (count db == 0)) [
    | inl y ↦ rw y (count-some admin_name _ (get?-put_there admin_name _ db))
    | inr f ↦ rw f f
  ]

  start-get? :
      (salt now : ℕ) (bosses : List Chars) (pairs : List (Chars × Chars)) (on : Bool) (db : Users)
      (name : Chars)
      → is_in name (map name_of pairs) ≡ true
      → get? name (start_users lib salt now bosses pairs on db)
        ≡ get? name (seed_all lib (suc salt) now bosses pairs db)
  start-get? salt now bosses pairs on db name i =
      let seeded = seed_all lib (suc salt) now bosses pairs db in
      let (u, e) = seed_all-some lib now bosses (suc salt) pairs name db i in
      let kept = prune-get? on name (map name_of pairs) seeded i in
      ap (get? name)
        (ensure_one_same zero now name (prune on (map name_of pairs) seeded) (kept ∙ e))
      ∙ kept

  first_listed :
      (salt now : ℕ) (bosses : List Chars) (pairs : List (Chars × Chars)) (on : Bool) (db : Users)
      → is_empty pairs ≡ false
      → ensure_one lib zero now
          (prune on (map name_of pairs) (seed_all lib (suc salt) now bosses pairs db))
        ≡ prune on (map name_of pairs) (seed_all lib (suc salt) now bosses pairs db)
  first_listed salt now bosses [] on db h = absurd (true≢false h)
  first_listed salt now bosses ((n, p) ∷ pairs) on db h =
      let here : is_in n (n ∷ map name_of pairs) ≡ true = rw ((==_iff n n).1 refl) refl in
      let (u, e) = seed_all-some lib now bosses (suc salt) ((n, p) ∷ pairs) n db here in
      ensure_one_same zero now n _ (prune-get? on n (n ∷ map name_of pairs) _ here ∙ e)

  -- Without pruning, an account that is not listed stays as it is.
  start-unlisted :
      (salt now : ℕ) (bosses : List Chars) (pairs : List (Chars × Chars)) (on : Bool) (db : Users)
      (name : Chars) {u : User}
      → (not (is_empty (map name_of pairs)) && on) ≡ false
      → is_in name (map name_of pairs) ≡ false
      → get? name db ≡ some u
      → get? name (start_users lib salt now bosses pairs on db) ≡ some u
  start-unlisted salt now bosses pairs on db name off i e =
      let seeded = seed_all lib (suc salt) now bosses pairs db in
      let there = seed_all-unlisted lib now bosses (suc salt) pairs name db i ∙ e in
      rw (off, ensure_one_same zero now name seeded there) there

  no_pruning :
      (pairs : List (Chars × Chars)) (on : Bool)
      → (on ≡ false) ⊎ (pairs ≡ [])
      → (not (is_empty (map name_of pairs)) && on) ≡ false
  no_pruning pairs on (inl o) = ground arith
  no_pruning pairs on (inr n) = rw n refl

  start-none :
      (salt now : ℕ) (bosses : List Chars) (pairs : List (Chars × Chars)) (db : Users)
      (name : Chars)
      → is_empty pairs ≡ false
      → is_in name (map name_of pairs) ≡ false
      → get? name (start_users lib salt now bosses pairs true db) ≡ none
  start-none salt now bosses [] db name h i = absurd (true≢false h)
  start-none salt now bosses ((n, p) ∷ pairs) db name h i =
      ap (get? name) (first_listed salt now bosses ((n, p) ∷ pairs) true db h)
      ∙ unlisted_gone name (n ∷ map name_of pairs)
          (seed_all lib (suc salt) now bosses ((n, p) ∷ pairs) db) i

  started :
      (secret : Chars) (k : Key) (salt now : ℕ) (admin_spec user_spec : Chars) (on : Bool)
      (db db' : Users) (v v' : Vault)
      → init lib secret k salt now admin_spec user_spec on (db, v) ≡ returns (db', v')
      → db' ≡ start_users lib salt now (admins admin_spec) (accounts user_spec) on db
  unfolding init migrate_encrypt_credentials
  started [] k salt now admin_spec user_spec on db db' v v' h = cc h
  started (c ∷ secret) unset salt now admin_spec user_spec on db db' v v' h = cc h
  started (c ∷ secret) malformed salt now admin_spec user_spec on db db' v v' h = cc h
  started (c ∷ secret) (key f) salt now admin_spec user_spec on db db' v v' h = cc h

  -- A start that returns leaves an account for every name of WEB_AUTH_USERS; one that was there before
  -- keeps its password, whatever the variable says, its duty to change it and its address. With pruning
  -- off or no name listed, an account that is not listed stays exactly as it was; with pruning on and at
  -- least one name listed, none of them is left. In every case there is an account.
  pub restart_safe :
      (secret : Chars) (k : Key) (salt now : ℕ) (admin_spec user_spec : Chars) (on : Bool)
      (db db' : Users) (v v' : Vault)
      → init lib secret k salt now admin_spec user_spec on (db, v) ≡ returns (db', v')
      → ((name : Chars)
          → is_in name (map name_of (accounts user_spec)) ≡ true
          → ((u : User) × (find name db' ≡ some u))
            × ((u : User) → find name db ≡ some u → Kept u (find name db')))
        × ((name : Chars)
            → on ≡ true
            → is_empty (accounts user_spec) ≡ false
            → is_in name (map name_of (accounts user_spec)) ≡ false
            → find name db' ≡ none)
        × ((name : Chars) (u : User)
            → (on ≡ false) ⊎ (accounts user_spec ≡ [])
            → is_in name (map name_of (accounts user_spec)) ≡ false
            → find name db ≡ some u
            → find name db' ≡ some u)
        × ((count db' == 0) ≡ false)
  restart_safe secret k salt now admin_spec user_spec on db db' v v' h =
      let bosses = admins admin_spec in
      let pairs = accounts user_spec in
      let e = started secret k salt now admin_spec user_spec on db db' v v' h in
      (
        λ name i. (
          (
            (seed_all-some lib now bosses (suc salt) pairs name db i).0,
            rw e (
                start-get? salt now bosses pairs on db name i
                ∙ (seed_all-some lib now bosses (suc salt) pairs name db i).1),
          ),
          λ u f.
              rw (e, start-get? salt now bosses pairs on db name i)
                (seed_all-Kept lib now bosses (suc salt) pairs name db f),
        ),
        λ name o some_listed i. rw (e, o) (start-none salt now bosses pairs db name some_listed i),
        λ name u off i f.
            rw e (start-unlisted salt now bosses pairs on db name (no_pruning pairs on off) i f),
        rw e (ensure_one-count zero now _),
      )
