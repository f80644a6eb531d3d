-- ===== src/Web/App/LastAdmin.antt =====
-- The guards that keep a last administrator (src/web/app.py), when other requests run between the reads
-- of a handler and its write.
use lb_note.Base.{
  ℕ, ◌≤◌, ◌≡◌, ◌≢◌, ◌⊎◌, refl, sym, ap, ◌∙◌, Option, none, some, Bool, true, false, ◌||◌, ◌&&◌, [],
  ◌∷◌, String, arith, leb, if◌then◌else◌, ◌==◌, nat_Eq, list_Eq, string_Eq, Bool-cases, inl, inr,
  ==_iff, ==_refl, true≢false, ne→beq,
}
use lb_note.Base.Dict.{get?, remove, get?-remove, is_some}
use lb_note.Base.Chars.{Chars}
use lb_note.Web.Auth.Users.{User, Users, PublicUser, count_admins, has_role, sent_or, find}
use lb_note.Web.Auth.Users
use lb_note.Web.Auth.Admin.{Listed, role_allowed}
use lb_note.Web.Auth.Admin
use lb_note.Web.App.Reply.{
  >>=-Holds, reject_if, >>-Holds, reply, fails, Holds-mono, held, reject_if-Holds, or_fail-Holds,
  reply-Holds, Holds,
}
use lb_note.Web.App.Accounts.{
  is_admin_row, demotion, role_guard, admin_update_user, admin_delete_user,
}
use lb_note.Web.App.Keeps.{admin_row, is_admin, KeepsAdmins, change_keeps, change_other}
use lb_note.Web.App.Guards.{row_is_admin, listed-Holds}
use lb_note.Web.App.Admins.{HasAdmin}

-- The names are the key of the table.
abbrev pub Distinct : Users → Type 0
Distinct [] = Unit {0}
Distinct ((k, u) ∷ db) = (get? k db ≡ none) × Distinct db

-- An administrator of the rest of the table is one of the table.
below :
    (k : Chars) (u : User) (db : Users) (x : Chars)
    → get? k db ≡ none
    → is_admin x db ≡ true
    → (x ≢ k) × (is_admin x ((k, u) ∷ db) ≡ true)
unfolding get?
below k u db x n h =
    let ne : x ≢ k = λ e. true≢false (sym h ∙ ap (λ y. is_admin y db) e ∙ ap admin_row n) in
    (ne, rw (ne→beq x k ne) h)

here :
    (k : Chars) (u : User) (db : Users)
    → has_role "admin" u.role ≡ true
    → is_admin k ((k, u) ∷ db) ≡ true
unfolding get?
here k u db a = rw (==_refl k) a

some_admin : (db : Users) → Distinct db → 1 ≤ count_admins db → HasAdmin db
unfolding count_admins
some_admin [] d h = absurd (omega arith)
some_admin ((k, u) ∷ db) (n, d) h = elim (Bool-cases (has_role "admin" u.role)) [
  | inl a ↦ (k, here k u db a)
  | inr b ↦ let (x, y) = some_admin db d (rw b at h) in (x, (below k u db x n y).1)
]

-- Of two administrators, one is not that of the name.
another :
    (name : Chars) (db : Users)
    → Distinct db
    → 2 ≤ count_admins db
    → (x : Chars) × (x ≢ name) × (is_admin x db ≡ true)
unfolding count_admins
another name [] d h = absurd (omega arith)
another name ((k, u) ∷ db) (n, d) h = elim (Bool-cases (has_role "admin" u.role)) [
  | inl a ↦ elim (Bool-cases (k == name)) [
    | inl y ↦
        let h' = rw a at h in
        let (x, z) = some_admin db d (unfold count_admins in omega (arith, h')) in
        let (ne, w) = below k u db x n z in (x, λ e. ne (e ∙ sym ((==_iff k name).0 y)), w)
    | inr f ↦ (k, λ e. true≢false (sym ((==_iff k name).1 e) ∙ f), here k u db a)
  ]
  | inr b ↦ let (x, ne, y) = another name db d (rw b at h) in (x, ne, (below k u db x n y).1)
]

-- Someone else is an administrator, when one is needed.
other_admin :
    (name : Chars) (db : Users)
    → Distinct db
    → (is_admin name db ≡ true → 2 ≤ count_admins db)
    → HasAdmin db
    → (x : Chars) × (x ≢ name) × (is_admin x db ≡ true)
other_admin name db d two (x, a) = elim (Bool-cases (is_admin name db)) [
  | inl y ↦ another name db d (two y)
  | inr n ↦ (x, λ e. true≢false (sym a ∙ ap (λ y. is_admin y db) e ∙ n), a)
]

removed_keeps :
    (x name : Chars) (db : Users)
    → x ≢ name
    → is_admin x db ≡ true
    → is_admin x (remove name db) ≡ true
removed_keeps x name db ne a = rw (get?-remove x name db, ne→beq x name ne) a

-- Another account's row is as it was after an update.
updated_other :
    (x name : Chars) (display english job : Option Chars) (role : Option String)
    (email : Option Chars) (db : Users)
    → x ≢ name
    → get? x (Admin.admin_update_user name display english job role email db).1 ≡ get? x db
unfolding Admin.admin_update_user
updated_other x name display english job role email db ne = elim (Bool-cases (role_allowed role)) [
  | inl y ↦
      elim (Bool-cases
        (is_some display || is_some english || is_some job || is_some role || is_some email)) [
          | inl z ↦ rw (y, z) (change_other x name _ db ne)
          | inr z ↦ rw (y, z) refl
        ]
  | inr n ↦ rw n refl
]

-- A role that is not sent, or is "admin", takes no administrator away.
abbrev Harmless : Option String → Type 0
Harmless role =
    (r : Option String) → has_role "admin" r ≡ true → has_role "admin" (sent_or role r) ≡ true

updated_keeps :
    (name : Chars) (display english job : Option Chars) (role : Option String)
    (email : Option Chars) (db : Users)
    → Harmless role
    → KeepsAdmins db (Admin.admin_update_user name display english job role email db).1
unfolding Admin.admin_update_user
updated_keeps name display english job role email db same = elim (Bool-cases (role_allowed role)) [
  | inl y ↦
      elim (Bool-cases
        (is_some display || is_some english || is_some job || is_some role || is_some email)) [
          | inl z ↦ rw (y, z) (change_keeps name _ db (λ u s h. same u.role h))
          | inr z ↦ rw (y, z) (λ x h. h)
        ]
  | inr n ↦ rw n (λ x h. h)
]

-- What the guard on a role has seen when it passes.
abbrev Seen : Chars → Option String → Users → Users → Type 0
Seen name role got counted = Harmless role ⊎ (is_admin name got ≡ true → 2 ≤ count_admins counted)

counted_two :
    (b : Bool) (n : ℕ) → Holds (λ (x : Unit {0}). b ≡ true → 2 ≤ n) (reject_if (leb n 1) 409)
unfolding Holds reject_if
counted_two b n = elim (Bool-cases (leb n 1)) [ inl y ↦ rw y tt | inr f ↦ rw f (λ h. ground arith) ]

demotion-Seen :
    (user : PublicUser) (name : Chars) (o : Option User) (counted : Users)
    → Holds
        (λ (x : Unit {0}). admin_row o ≡ true → 2 ≤ count_admins counted)
        (demotion user name o counted)
unfolding Holds
demotion-Seen user name none counted = tt
demotion-Seen user name (some u) counted = elim (Bool-cases (is_admin_row u)) [
  | inl y ↦ rw y (
      reject_if-Holds _ 409 _ _
        (λ self. counted_two (has_role "admin" u.role) (count_admins counted)))
  | inr n ↦ rw n (λ h. absurd (true≢false (sym (row_is_admin u.role h) ∙ n)))
]

role_guard-Seen :
    (user : PublicUser) (name : Chars) (role : Option String) (got counted : Users)
    → Holds (λ o. Seen name role got counted) (role_guard user name role got counted)
role_guard-Seen user name none got counted = reply-Holds _ _ (inl (λ r h. h))
role_guard-Seen user name (some r) got counted =
    reject_if-Holds _ 422 _ (λ o. Seen name (some r) got counted)
      (λ q. elim (Bool-cases (r == "user")) [
        | inl y ↦
            rw y (Holds-mono _ _ _ (λ o h. inr h) (demotion-Seen user name (get? name got) counted))
        | inr n ↦ rw n (reply-Holds _ _ (inl (λ s h. ground arith)))
      ])

found-Holds :
    (b : Bool) (db : Users) → HasAdmin db → Holds HasAdmin (if b then reply db else fails 404)
unfolding Holds
found-Holds true db h = h
found-Holds false db h = tt

-- The handlers for the deletion and the update of an account, the row of which is read in `got`, while
-- `counted` is the table when the administrators are counted and `db` the table that is written: an
-- administrator is there afterwards when one was there before, if the account was an administrator's
-- already in `got` when it is in `db`, and `db` has not fewer administrators than were counted.
pub last_admin_kept :
    (user : PublicUser) (name : Chars) (got counted db : Users)
    → Distinct db
    → HasAdmin db
    → (is_admin name db ≡ true → is_admin name got ≡ true)
    → count_admins counted ≤ count_admins db
    → Holds HasAdmin (admin_delete_user user name got counted db)
      × ((display english job : Option Chars) (role : Option String) (email : Option Chars)
          → Holds
              (λ r. HasAdmin r.1)
              (admin_update_user user name display english job role email got counted db))
unfolding admin_delete_user admin_update_user Users.delete
last_admin_kept user name got counted db d has same more = (
  reject_if-Holds _ 409 _ HasAdmin (λ self. or_fail-Holds _ 404 _ HasAdmin (λ u s.
      reject_if-Holds _ 409 _ HasAdmin (λ g.
        let (x, ne, a) = other_admin name db d (two u s g) has in
        found-Holds (is_some (get? name db)) (remove name db) (x, removed_keeps x name db ne a)))),
  λ display english job role email.
      let P : Listed × Users → Type 0 = λ r. HasAdmin r.1 in
      >>=-Holds _ _ P (λ display' b. >>=-Holds _ _ P (λ english' c. >>=-Holds _ _ P (λ job' e.
        >>=-Holds _ _ P (λ email' f. >>-Holds _ _ P (λ o g. listed-Holds _ P (λ l.
          written display' english' job' role email' (
            held (λ o'. Seen name role got counted) (role_guard-Seen user name role got counted)
              g))))))),
)
  where
    two :
        (u : User)
        → get? name got ≡ some u
        → (is_admin_row u && leb (count_admins counted) 1) ≡ false
        → is_admin name db ≡ true
        → 2 ≤ count_admins db
    two u s g a =
        let r = row_is_admin u.role (sym (ap admin_row s) ∙ same a) in ground (arith, r, more)

    written :
        (display english job : Option Chars) (role : Option String) (email : Option Chars)
        → Seen name role got counted
        → HasAdmin (Admin.admin_update_user name display english job role email db).1
    written display english job role email (inl h) =
        (has.0, updated_keeps name display english job role email db h has.0 has.1)
    written display english job role email (inr h) =
        let (x, ne, a) = other_admin name db d (λ q. omega (arith, h (same q), more)) has in
        (x, ap admin_row (updated_other x name display english job role email db ne) ∙ a)
