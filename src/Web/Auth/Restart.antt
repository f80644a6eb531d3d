-- ===== src/Web/Auth/Restart.antt =====
-- What a start of the server does to the accounts (`init` of src/web/auth.py).
use lb_note.Base.{
  ℕ, suc, ◌≡◌, refl, sym, ap, ◌∙◌, Option, none, some, Bool, true, false, List, [], ◌∷◌, String,
  arith, if◌then◌else◌, ◌==◌, ==_iff, ==_refl, nat_Eq, list_Eq, map, is_in, Bool-cases, inl, inr,
  true≢false, ||_right, ne→beq,
}
use lb_note.Base.Dict.{get?, put, remove, get?-put, get?-remove}
use lb_note.Base.Chars.{Chars}
use lb_note.Web.Auth.Users.{
  Passlib, User, Users, seed_user, seed_row, delete, usernames, key_of, count,
}
use lb_note.Web.Auth.Passwords.{get?-put_there}
use lb_note.Web.Auth.Start.{name_of, seed_all, drop_unlisted}

-- The account is still there, with its password, its duty to change it and its address.
abbrev pub Kept : User → Option User → Type 0
Kept u o =
    (w : User) × (o ≡ some w)
    × (w.password_hash ≡ u.password_hash)
    × (w.must_change_password ≡ u.must_change_password)
    × (w.email ≡ u.email)

pub drop-get? :
    (name : Chars) (ns listed : List Chars) (db : Users)
    → is_in name listed ≡ true
    → get? name (drop_unlisted ns listed db) ≡ get? name db
unfolding delete
drop-get? name [] listed db h = refl
drop-get? name (n ∷ ns) listed db h = elim (Bool-cases (is_in n listed)) [
  | inl y ↦ rw y (drop-get? name ns listed db h)
  | inr f ↦ rw f (
      drop-get? name ns listed (remove n db) h
      ∙ simp
          (get?-remove, ne→beq name n (λ q. true≢false (sym h ∙ ap (λ m. is_in m listed) q ∙ f))))
]

drop-none :
    (name : Chars) (ns listed : List Chars) (db : Users)
    → get? name db ≡ none
    → get? name (drop_unlisted ns listed db) ≡ none
unfolding delete
drop-none name [] listed db h = h
drop-none name (n ∷ ns) listed db h = elim (Bool-cases (is_in n listed)) [
  | inl y ↦ rw y (drop-none name ns listed db h)
  | inr f ↦ rw f (drop-none name ns listed (remove n db) (gone (n == name)))
]
  where
    gone : (b : Bool) → get? name (remove n db) ≡ none
    gone b =
        get?-remove name n db ∙ elim (Bool-cases (n == name)) [ inl y ↦ rw y refl | inr f ↦ rw f h ]

drop_unlisted-none :
    (name : Chars) (ns listed : List Chars) (db : Users)
    → is_in name ns ≡ true
    → is_in name listed ≡ false
    → get? name (drop_unlisted ns listed db) ≡ none
unfolding delete
drop_unlisted-none name [] listed db i o = absurd (true≢false (sym i))
drop_unlisted-none name (n ∷ ns) listed db i o = elim (Bool-cases (name == n)) [
  | inl y ↦
      let e = (==_iff name n).0 y in
      rw (sym (ap (λ m. is_in m listed) e) ∙ o) (
        drop-none name ns listed (remove n db)
          (get?-remove name n db ∙ rw (sym e, ==_refl name) refl))
  | inr f ↦
      drop_unlisted-none name ns listed (if is_in n listed then db else (delete n db).1) (rw f at i)
        o
]

usernames-none :
    (name : Chars) (db : Users) → is_in name (map key_of db) ≡ false → get? name db ≡ none
unfolding get?
usernames-none name [] h = refl
usernames-none name ((k, u) ∷ db) h = elim (Bool-cases (k == name)) [
  | inl y ↦ absurd (true≢false (sym (rw ((==_iff k name).0 y, ==_refl name) refl) ∙ h))
  | inr f ↦ rw f (usernames-none name db (||_right (name == k) _ h))
]

pub unlisted_gone :
    (name : Chars) (listed : List Chars) (db : Users)
    → is_in name listed ≡ false
    → get? name (drop_unlisted (usernames db) listed db) ≡ none
unfolding usernames
unlisted_gone name listed db o = elim (Bool-cases (is_in name (map key_of db))) [
  | inl y ↦ drop_unlisted-none name (map key_of db) listed db y o
  | inr f ↦ drop-none name (map key_of db) listed db (usernames-none name db f)
]

-- A table with a row is not empty.
pub count-some :
    (name : Chars) (db : Users) {u : User} → get? name db ≡ some u → (count db == 0) ≡ false
unfolding count get?
count-some name [] h = cc h
count-some name (x ∷ db) h = ground arith

Kept-refl : (u : User) (o : Option User) → o ≡ some u → Kept u o
Kept-refl u o e = (u, e, refl, refl, refl)

-- What a row of the table is and stays.
Kept-trans :
    (u : User) (o o' : Option User) → Kept u o → ((w : User) → o ≡ some w → Kept w o') → Kept u o'
Kept-trans u o o' (w, e, h, m, a) f =
    let (x, e', h', m', a') = f w e in (x, e', h' ∙ h, m' ∙ m, a' ∙ a)

module _ (lib : Passlib) (now : ℕ) (bosses : List Chars) where
  seed_user-Kept :
      (salt : ℕ) (n p : Chars) (role : String) (name : Chars) (db : Users) {u : User}
      → get? name db ≡ some u
      → Kept u (get? name (seed_user lib salt now n p none role db))
  unfolding seed_user
  seed_user-Kept salt n p role name db {u = u} h = elim (Bool-cases (n == name)) [
    | inl y ↦
        let e = (==_iff n name).0 y in
        rw (get?-put name n (seed_row lib salt now n p none role (get? n db)) db, y, e, h)
          (seed_row lib salt now name p none role (some u), refl, refl, refl, refl)
    | inr f ↦
        rw (get?-put name n (seed_row lib salt now n p none role (get? n db)) db, f)
          (Kept-refl u (get? name db) h)
  ]

  pub seed_all-Kept :
      (salt : ℕ) (pairs : List (Chars × Chars)) (name : Chars) (db : Users) {u : User}
      → get? name db ≡ some u
      → Kept u (get? name (seed_all lib salt now bosses pairs db))
  seed_all-Kept salt [] name db {u = u} h = Kept-refl u (get? name db) h
  seed_all-Kept salt ((n, p) ∷ pairs) name db {u = u} h =
      Kept-trans u _ _
        (seed_user-Kept salt n p (if is_in n bosses then "admin" else "developer") name db h)
        (λ w e. seed_all-Kept (suc salt) pairs name _ e)

  -- A name that is not listed keeps its row.
  pub seed_all-unlisted :
      (salt : ℕ) (pairs : List (Chars × Chars)) (name : Chars) (db : Users)
      → is_in name (map name_of pairs) ≡ false
      → get? name (seed_all lib salt now bosses pairs db) ≡ get? name db
  unfolding seed_user
  seed_all-unlisted salt [] name db i = refl
  seed_all-unlisted salt ((n, p) ∷ pairs) name db i = elim (Bool-cases (name == n)) [
    | inl y ↦ absurd (true≢false (sym (rw y refl) ∙ i))
    | inr f ↦
        seed_all-unlisted (suc salt) pairs name _ (rw f at i)
        ∙ get?-put name n _ db
        ∙ rw (ne→beq name n (λ q. true≢false (sym ((==_iff name n).1 q) ∙ f))) refl
  ]

  pub seed_all-some :
      (salt : ℕ) (pairs : List (Chars × Chars)) (name : Chars) (db : Users)
      → is_in name (map name_of pairs) ≡ true
      → (u : User) × (get? name (seed_all lib salt now bosses pairs db) ≡ some u)
  unfolding seed_user
  seed_all-some salt [] name db i = absurd (true≢false (sym i))
  seed_all-some salt ((n, p) ∷ pairs) name db i = elim (Bool-cases (name == n)) [
    | inl y ↦
        let row =
          seed_row lib salt now n p none (if is_in n bosses then "admin" else "developer")
            (get? n db) in
        let (w, e, _, _, _) =
          seed_all-Kept (suc salt) pairs name (put n row db) {u = row}
            (ap (λ m. get? m (put n row db)) ((==_iff name n).0 y) ∙ get?-put_there n row db) in
        (w, e)
    | inr f ↦ seed_all-some (suc salt) pairs name _ (rw f at i)
  ]
