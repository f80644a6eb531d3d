-- ===== src/Web/Jobs/Purge.antt =====
-- What a purge of the jobs takes (src/web/app.py).
use lb_note.Base.{
  ℕ, ◌+◌, ◌≡◌, refl, sym, ap, ◌∙◌, Option, none, some, Bool, true, false, ◌&&◌, [], ◌∷◌,
  if◌then◌else◌, ltb, ◌==◌, ==_refl, ==_iff, ne→beq, nat_Eq, list_Eq, Bool-cases, Option-cases, inl,
  inr, true≢false,
}
use lb_note.Base.Dict.{
  Dict, get?, put, remove, get?-put, get?-remove, get?-put_self, contains, or_default,
}
use lb_note.Base.Chars.{Chars}
use lb_note.Web.Jobs.Registry.{
  Job, is_terminal, Registry, set_default, observe, forget, is_due, drop_due, purge_finished_jobs,
}

-- The keys are distinct, as a Python dict has them.
abbrev pub Unique : {V : Type 0} → Dict Chars V → Type 0
Unique [] = Unit {0}
Unique ((k, v) ∷ d) = (get? k d ≡ none) × Unique d

-- The times after every job was looked at.
abbrev seen_at : ℕ → Option Job → Option ℕ → Option ℕ
seen_at now none o = o
seen_at now (some j) o = if is_terminal j then some (or_default now o) else none

set_default-get? :
    (id : Chars) (now : ℕ) (f : Dict Chars ℕ)
    → get? id (set_default id now f) ≡ some (or_default now (get? id f))
set_default-get? id now f = elim (Option-cases (get? id f)) [
  | inl n ↦ rw n (get?-put_self id now f)
  | inr (t, s) ↦ rw s s
]

set_default_other :
    (id k : Chars) (now : ℕ) (f : Dict Chars ℕ)
    → (k == id) ≡ false
    → get? id (set_default k now f) ≡ get? id f
set_default_other id k now f d = elim (Bool-cases (contains k f)) [
  | inl y ↦ rw y refl
  | inr n ↦ rw n (rw (get?-put id k now f, d) refl)
]

abbrev looked : ℕ → Chars → Job → Dict Chars ℕ → Dict Chars ℕ
looked now k j f = if is_terminal j then set_default k now f else remove k f

looked_other :
    (id k : Chars) (now : ℕ) (j : Job) (f : Dict Chars ℕ)
    → (k == id) ≡ false
    → get? id (looked now k j f) ≡ get? id f
looked_other id k now j f d = elim (Bool-cases (is_terminal j)) [
  | inl t ↦ rw t (set_default_other id k now f d)
  | inr t ↦ rw (t, get?-remove id k f, d) refl
]

looked_self :
    (id : Chars) (now : ℕ) (j : Job) (f : Dict Chars ℕ)
    → get? id (looked now id j f) ≡ seen_at now (some j) (get? id f)
looked_self id now j f = elim (Bool-cases (is_terminal j)) [
  | inl t ↦ rw t (set_default-get? id now f)
  | inr t ↦ rw (t, get?-remove id id f, ==_refl id) refl
]

get?-cons :
    {V : Type 0} (id k : Chars) (v : V) (d : Dict Chars V)
    → get? id ((k, v) ∷ d) ≡ (if k == id then some v else get? id d)
unfolding get?
get?-cons id k v d = refl

observe-get? :
    (id : Chars) (now : ℕ) (js : Dict Chars Job) (f : Dict Chars ℕ)
    → Unique js
    → get? id (observe now js f) ≡ seen_at now (get? id js) (get? id f)
unfolding get?
observe-get? id now [] f u = refl
observe-get? id now ((k, j) ∷ js) f (u, us) =
    observe-get? id now js (looked now k j f) us ∙ elim (Bool-cases (k == id)) [
      | inl y ↦
          let e = (==_iff k id).0 y in
          rw y (
            ap (λ o. seen_at now o (get? id (looked now k j f))) (ap (λ i. get? i js) (sym e) ∙ u)
            ∙ ap (λ i. get? id (looked now i j f)) e
            ∙ looked_self id now j f)
      | inr d ↦ rw (d, looked_other id k now j f d) refl
    ]

get?-nil : {V : Type 0} (id : Chars) → get? {V = V} id [] ≡ none
unfolding get?
get?-nil id = refl

beq_flip : (i k : Chars) → (i == k) ≡ false → (k == i) ≡ false
beq_flip i k x = ne→beq i k (λ e. true≢false (sym ((==_iff i k).1 e) ∙ x))

-- The times stay distinct.
Unique-put : {V : Type 0} (k : Chars) (v : V) (d : Dict Chars V) → Unique d → Unique (put k v d)
unfolding put
Unique-put k v [] u = (get?-nil k, tt)
Unique-put k v ((i, w) ∷ d) (n, u) = elim (Bool-cases (i == k)) [
  | inl y ↦ rw y (n, u)
  | inr x ↦ rw x (rw (get?-put i k v d, beq_flip i k x) n, Unique-put k v d u)
]

Unique-remove : {V : Type 0} (k : Chars) (d : Dict Chars V) → Unique d → Unique (remove k d)
unfolding remove
Unique-remove k [] u = tt
Unique-remove k ((i, w) ∷ d) (n, u) = elim (Bool-cases (i == k)) [
  | inl y ↦ rw y (Unique-remove k d u)
  | inr x ↦ rw x (rw (get?-remove i k d) (rw (beq_flip i k x) n), Unique-remove k d u)
]

observe-Unique :
    (now : ℕ) (js : Dict Chars Job) (f : Dict Chars ℕ) → Unique f → Unique (observe now js f)
observe-Unique now [] f u = u
observe-Unique now ((k, j) ∷ js) f u =
    observe-Unique now js (looked now k j f) (elim (Bool-cases (is_terminal j)) [
      | inl t ↦ rw t (elim (Bool-cases (contains k f)) [
        | inl y ↦ rw y u
        | inr n ↦ rw n (Unique-put k now f u)
      ])
      | inr t ↦ rw t (Unique-remove k f u)
    ])

-- What is left of a job by the times that are looked through.
abbrev left : ℕ → ℕ → Option ℕ → Option Job → Option Job
left now ttl none o = o
left now ttl (some at) o = if ltb (at + ttl) now then none else o

abbrev no_job : Option Job
no_job = none

if_same : (b : Bool) → no_job ≡ (if b then no_job else no_job)
if_same true = refl
if_same false = refl

-- A job and the decision on its own time.
kept_or_gone :
    (id : Chars) (now ttl at : ℕ) (r : Registry)
    → get? id (if is_due now ttl id at r then forget id r else r).jobs
      ≡ left now ttl (some at) (get? id r.jobs)
kept_or_gone id now ttl at r = elim (Option-cases (get? id r.jobs)) [
  | inl n ↦ rw (n, get?-remove id id r.jobs, ==_refl id) (if_same (ltb (at + ttl) now))
  | inr (j, s) ↦ elim (Bool-cases (ltb (at + ttl) now)) [
    | inl y ↦ rw (s, y, get?-remove id id r.jobs, ==_refl id) refl
    | inr f ↦ rw (s, f, s) refl
  ]
]

kept_other :
    (id k : Chars) (b : Bool) (r : Registry)
    → (k == id) ≡ false
    → get? id (if b then forget k r else r).jobs ≡ get? id r.jobs
kept_other id k true r d = rw (get?-remove id k r.jobs, d) refl
kept_other id k false r d = refl

drop_due-get? :
    (id : Chars) (now ttl : ℕ) (fs : Dict Chars ℕ) (r : Registry)
    → Unique fs
    → get? id (drop_due now ttl fs r).1.jobs ≡ left now ttl (get? id fs) (get? id r.jobs)
unfolding get?
drop_due-get? id now ttl [] r u = refl
drop_due-get? id now ttl ((k, at) ∷ fs) r (n, u) =
    let r' = if is_due now ttl k at r then forget k r else r in
    drop_due-get? id now ttl fs r' u ∙ elim (Bool-cases (k == id)) [
      | inl y ↦
          let e = (==_iff k id).0 y in
          rw y (
            ap (λ o. left now ttl o (get? id r'.jobs)) (ap (λ i. get? i fs) (sym e) ∙ n)
            ∙ ap (λ i. get? id (if is_due now ttl i at r then forget i r else r).jobs) e
            ∙ kept_or_gone id now ttl at r)
      | inr d ↦ rw d (ap (left now ttl (get? id fs)) (kept_other id k (is_due now ttl k at r) r d))
    ]

purge-get? :
    (now ttl : ℕ) (id : Chars) (r : Registry)
    → Unique r.jobs
    → Unique r.finished_at
    → get? id (purge_finished_jobs now ttl r).1.jobs
      ≡ left now ttl (seen_at now (get? id r.jobs) (get? id r.finished_at)) (get? id r.jobs)
unfolding purge_finished_jobs
purge-get? now ttl id r u v =
    let seen = observe now r.jobs r.finished_at in
    drop_due-get? id now ttl seen (record r { finished_at = seen })
      (observe-Unique now r.jobs r.finished_at v)
    ∙ ap (λ o. left now ttl o (get? id r.jobs)) (observe-get? id now r.jobs r.finished_at u)

-- A purge leaves every job that is queued or processed as it is, and takes a job that ended if and only
-- if it was first seen so longer ago than the time to live; one that is seen so for the first time is
-- kept. Jobs and times have distinct keys.
pub purge_effect :
    (now ttl : ℕ) (id : Chars) (r : Registry) (j : Job)
    → Unique r.jobs
    → Unique r.finished_at
    → get? id r.jobs ≡ some j
    → get? id (purge_finished_jobs now ttl r).1.jobs ≡ (
        if is_terminal j && ltb (or_default now (get? id r.finished_at) + ttl) now
        then none
        else some j)
purge_effect now ttl id r j u v h =
    purge-get? now ttl id r u v
    ∙ elim (Bool-cases (is_terminal j)) [ inl t ↦ rw (h, t) refl | inr t ↦ rw (h, t) refl ]
