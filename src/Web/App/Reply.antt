-- ===== src/Web/App/Reply.antt =====
-- Replies of handlers (src/web/app.py), and the gates that stand before them.
use lb_note.Base.{
  ℕ, ◌≡◌, refl, subst, Option, none, some, Bool, true, false, if◌then◌else◌, ◌==◌, string_Eq,
}
use lb_note.Web.Auth.Users.{PublicUser}
use lb_note.Web.Auth.Tokens.{Access, granted, refused, status_code}

pub data Reply {ℓ} (A : Type ℓ) : Type ℓ where
  reply : A → Reply A
  fails : ℕ → Reply A

infixl 5 ◌>>=◌ ◌>>◌
unfoldable pub ◌>>=◌ {ℓ κ} : {A : Type ℓ} {B : Type κ} → Reply A → (A → Reply B) → Reply B
reply a >>= f = f a
fails n >>= f = fails n

unfoldable pub ◌>>◌ {ℓ κ} : {A : Type ℓ} {B : Type κ} → Reply A → Reply B → Reply B
m >> k = m >>= λ ignored. k

unfoldable pub reject_if : Bool → ℕ → Reply (Unit {0})
reject_if b n = if b then fails n else reply tt

unfoldable pub or_fail {ℓ} : {A : Type ℓ} → Option A → ℕ → Reply A
or_fail none n = fails n
or_fail (some a) n = reply a

-- What holds of every value that is replied.
unfoldable pub Holds {ℓ} : {A : Type ℓ} → (A → Type 0) → Reply A → Type 0
Holds P (reply a) = P a
Holds P (fails n) = Unit {0}

pub reply-Holds {ℓ} : {A : Type ℓ} (a : A) (P : A → Type 0) → P a → Holds P (reply a)
unfolding Holds
reply-Holds a P h = h

pub Holds-all {ℓ} : {A : Type ℓ} (m : Reply A) (P : A → Type 0) → ((a : A) → P a) → Holds P m
unfolding Holds
Holds-all (reply a) P h = h a
Holds-all (fails n) P h = tt

reply_same {ℓ} : {A : Type ℓ} {a b : A} → reply b ≡ reply a → b ≡ a
reply_same e = cc e

pub Holds-mono {ℓ} :
    {A : Type ℓ} (m : Reply A) (P Q : A → Type 0) → ((a : A) → P a → Q a) → Holds P m → Holds Q m
unfolding Holds
Holds-mono (reply a) P Q f h = f a h
Holds-mono (fails n) P Q f h = tt

-- What holds of every reply holds of the one that there is.
pub held {ℓ} : {A : Type ℓ} {m : Reply A} {a : A} (P : A → Type 0) → Holds P m → m ≡ reply a → P a
unfolding Holds
held {m = reply b} {a = a} P h e = subst P (reply_same e) h
held {m = fails n} {a = a} P h e = cc e

pub >>=-Holds {ℓ κ} :
    {A : Type ℓ} {B : Type κ} (m : Reply A) (f : A → Reply B) (P : B → Type 0)
    → ((a : A) → m ≡ reply a → Holds P (f a))
    → Holds P (m >>= f)
unfolding Holds ◌>>=◌
>>=-Holds (reply a) f P h = h a refl
>>=-Holds (fails n) f P h = tt

pub >>-Holds {ℓ κ} :
    {A : Type ℓ} {B : Type κ} (m : Reply A) (k : Reply B) (P : B → Type 0)
    → ((a : A) → m ≡ reply a → Holds P k)
    → Holds P (m >> k)
unfolding ◌>>◌
>>-Holds m k P h = >>=-Holds m (λ a. k) P h

pub reject_if-Holds {ℓ} :
    {A : Type ℓ} (b : Bool) (n : ℕ) (k : Reply A) (P : A → Type 0)
    → (b ≡ false → Holds P k)
    → Holds P (reject_if b n >> k)
unfolding Holds ◌>>=◌ ◌>>◌ reject_if
reject_if-Holds true n k P h = tt
reject_if-Holds false n k P h = h refl

pub or_fail-Holds {ℓ κ} :
    {A : Type ℓ} {B : Type κ} (o : Option A) (n : ℕ) (f : A → Reply B) (P : B → Type 0)
    → ((a : A) → o ≡ some a → Holds P (f a))
    → Holds P (or_fail o n >>= f)
unfolding Holds ◌>>=◌ or_fail
or_fail-Holds none n f P h = tt
or_fail-Holds (some a) n f P h = h a refl

-- The dependency of a handler: its user, or the status of the refusal.
abbrev pub allowed : Access PublicUser → Reply PublicUser
allowed (granted u) = reply u
allowed (refused r) = fails (status_code r)

-- `require_user_active`.
abbrev pub require_user_active : Access PublicUser → Reply PublicUser
require_user_active (granted u) = if u.must_change_password then fails 403 else reply u
require_user_active (refused r) = fails (status_code r)

abbrev pub only_admin : PublicUser → Reply PublicUser
only_admin u = if u.role == "admin" then reply u else fails 403

-- `require_admin`.
abbrev pub require_admin : Access PublicUser → Reply PublicUser
require_admin a = require_user_active a >>= only_admin
