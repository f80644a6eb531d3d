-- ===== src/Web/Jobs/Slots.antt =====
-- The counters of the jobs agree with the threads and stay within the slots (src/web/app.py).
use lb_note.Base.{
  ℕ, ◌+◌, ◌≤◌, ◌≡◌, refl, sym, ◌∙◌, Option, none, some, Bool, true, false, ◌&&◌, List, [], ◌∷◌,
  arith, ◌==◌, nat_Eq, list_Eq, is_in, Bool-cases, Option-cases, inl, inr, ltb→lt, some_injective,
}
use lb_note.Base.Dict.{Dict, get?, put, is_some}
use lb_note.Base.Chars.{Chars}
use lb_note.Web.Jobs.Registry.{
  Job, queued, processing, cancelled, failed, done, Meta, Registry, empty, mark_job, submit,
  init_job_meta, set_phase, cancel_of, owned, observe, is_due, forget, drop_due,
  purge_finished_jobs, is_stalled, stalled, scan, scan_stt_stalls, ai_job_cancel, progress_report,
}
use lb_note.Web.Jobs.Worker.{
  Stage, before_stt, let_in, in_stt, between, before_llm, in_llm, ended, Answer, answered, stopped,
  auth_expired, out_of_memory, broken, raised, llm_leave, unless_cancelled, advance, weight,
  threads, in_stt_call, holds_stt, holds_llm, may_go, System, Limits, Action, submits, goes_on,
  cancels_job, scans, purges, reports, worker_step, act, acts,
}

-- The counters are as they were.
abbrev pub SameCounts : Registry → Registry → Type 0
SameCounts r q = (q.stt_active ≡ r.stt_active) × (q.llm_active ≡ r.llm_active)

SameCounts-trans : (r p q : Registry) → SameCounts r p → SameCounts p q → SameCounts r q
SameCounts-trans r p q (a, b) (c, d) = (c ∙ a, d ∙ b)

drop_due-SameCounts :
    (now ttl : ℕ) (fs : Dict Chars ℕ) (r : Registry) → SameCounts r (drop_due now ttl fs r).1
drop_due-SameCounts now ttl [] r = (refl, refl)
drop_due-SameCounts now ttl ((id, at) ∷ fs) r = elim (Bool-cases (is_due now ttl id at r)) [
  | inl y ↦ rw y (drop_due-SameCounts now ttl fs (forget id r))
  | inr n ↦ rw n (drop_due-SameCounts now ttl fs r)
]

stalled-SameCounts :
    (mark_error : Bool) (id : Chars) (m : Meta) (r : Registry)
    → SameCounts r (stalled mark_error id m r)
unfolding mark_job
stalled-SameCounts true id m r = (refl, refl)
stalled-SameCounts false id m r = (refl, refl)

scan-SameCounts :
    (now bound : ℕ) (mark_error : Bool) (ms : Dict Chars Meta) (r : Registry)
    → SameCounts r (scan now bound mark_error ms r).1
scan-SameCounts now bound mark_error [] r = (refl, refl)
scan-SameCounts now bound mark_error ((id, m) ∷ ms) r =
    elim (Bool-cases (is_stalled now bound id m r)) [
      | inl y ↦ rw y (
          SameCounts-trans r (stalled mark_error id m r)
            (scan now bound mark_error ms (stalled mark_error id m r)).1
            (stalled-SameCounts mark_error id m r)
            (scan-SameCounts now bound mark_error ms (stalled mark_error id m r)))
      | inr n ↦ rw n (scan-SameCounts now bound mark_error ms r)
    ]

cancel_of-SameCounts :
    (id : Chars) (o : Option Job) (r : Registry) → SameCounts r (cancel_of id o r)
unfolding mark_job
cancel_of-SameCounts id (some queued) r = elim (Bool-cases (is_in id r.cancels)) [
  | inl y ↦ rw y (refl, refl)
  | inr n ↦ rw n (refl, refl)
]
cancel_of-SameCounts id (some processing) r = elim (Bool-cases (is_in id r.cancels)) [
  | inl y ↦ rw y (refl, refl)
  | inr n ↦ rw n (refl, refl)
]
cancel_of-SameCounts id (some cancelled) r = (refl, refl)
cancel_of-SameCounts id (some (failed c)) r = (refl, refl)
cancel_of-SameCounts id (some (done d)) r = (refl, refl)
cancel_of-SameCounts id none r = (refl, refl)

ai_job_cancel-SameCounts :
    (id user : Chars) (r : Registry) → SameCounts r (ai_job_cancel id user r).1
unfolding ai_job_cancel
ai_job_cancel-SameCounts id user r =
    elim (Bool-cases (is_some (get? id r.jobs) && owned user (get? id r.owners))) [
      | inl y ↦ rw y (cancel_of-SameCounts id (get? id r.jobs) r)
      | inr n ↦ rw n (refl, refl)
    ]

-- A thread that moves takes its weight from where it was to where it is.
threads-put :
    (p : Stage → Bool) (id : Chars) (w new : Stage) (ws : Dict Chars Stage)
    → get? id ws ≡ some w
    → threads p (put id new ws) + weight (p w) ≡ threads p ws + weight (p new)
unfolding get? put
threads-put p id w new [] h = cc h
threads-put p id w new ((k, v) ∷ ws) h = elim (Bool-cases (k == id)) [
  | inl y ↦ rw (y, sym (some_injective (rw y at h))) (omega arith)
  | inr n ↦ rw n (omega (arith, threads-put p id w new ws (sym (rw n refl) ∙ h)))
]

-- A new thread waits, and weighs nothing.
threads-put_new :
    (p : Stage → Bool) (id : Chars) (new : Stage) (ws : Dict Chars Stage)
    → get? id ws ≡ none
    → threads p (put id new ws) ≡ threads p ws + weight (p new)
unfolding get? put
threads-put_new p id new [] h = omega arith
threads-put_new p id new ((k, v) ∷ ws) h = elim (Bool-cases (k == id)) [
  | inl y ↦ cc (rw y at h)
  | inr n ↦ rw n (omega (arith, threads-put_new p id new ws (sym (rw n refl) ∙ h)))
]

-- What a stage does to the counters.
abbrev pub Accounts : Stage → Registry → Stage × Registry → Type 0
Accounts w r (v, q) =
    (weight (in_stt_call w) ≤ r.stt_active
      → q.stt_active + weight (in_stt_call w) ≡ r.stt_active + weight (in_stt_call v))
    × (weight (holds_llm w) ≤ r.llm_active
        → q.llm_active + weight (holds_llm w) ≡ r.llm_active + weight (holds_llm v))

unless_cancelled-Accounts :
    (id : Chars) (w s : Stage) (next r : Registry)
    → in_stt_call w ≡ false
    → holds_llm w ≡ false
    → Accounts w r (s, next)
    → Accounts w r (unless_cancelled id s next r)
unfolding mark_job
unless_cancelled-Accounts id w s next r a b h = elim (Bool-cases (is_in id r.events)) [
  | inl y ↦ rw (y, a, b) (λ k. omega arith, λ k. omega arith)
  | inr n ↦ rw n h
]

raised-SameCounts : (id : Chars) (a : Answer) (r : Registry) → SameCounts r (raised id a r)
unfolding mark_job
raised-SameCounts id (answered d) r = (refl, refl)
raised-SameCounts id stopped r = (refl, refl)
raised-SameCounts id auth_expired r = (refl, refl)
raised-SameCounts id out_of_memory r = (refl, refl)
raised-SameCounts id broken r = (refl, refl)

pub advance-Accounts :
    (now : ℕ) (id : Chars) (a : Answer) (w : Stage) (r : Registry)
    → Accounts w r (advance now id a w r)
unfolding advance mark_job set_phase
advance-Accounts now id a before_stt r =
    unless_cancelled-Accounts id before_stt let_in r r refl refl
      (λ k. omega arith, λ k. omega arith)
advance-Accounts now id a let_in r = (λ k. omega arith, λ k. omega arith)
advance-Accounts now id (answered d) in_stt r = (λ k. omega (arith, k), λ k. omega arith)
advance-Accounts now id stopped in_stt r = (λ k. omega (arith, k), λ k. omega arith)
advance-Accounts now id auth_expired in_stt r = (λ k. omega (arith, k), λ k. omega arith)
advance-Accounts now id out_of_memory in_stt r = (λ k. omega (arith, k), λ k. omega arith)
advance-Accounts now id broken in_stt r = (λ k. omega (arith, k), λ k. omega arith)
advance-Accounts now id a between r =
    unless_cancelled-Accounts id between before_llm _ r refl refl
      (λ k. omega arith, λ k. omega arith)
advance-Accounts now id a before_llm r =
    unless_cancelled-Accounts id before_llm in_llm _ r refl refl
      (λ k. omega arith, λ k. omega arith)
advance-Accounts now id a in_llm r = (
  λ k. omega (arith, k, (raised-SameCounts id a (llm_leave r)).0),
  λ k. omega (arith, k, (raised-SameCounts id a (llm_leave r)).1),
)
advance-Accounts now id a ended r = (λ k. omega arith, λ k. omega arith)

-- The counters say how many threads call, which hold the semaphore, and its slots are enough.
abbrev pub Counted : Limits → System → Type 0
Counted lim s =
    (s.registry.stt_active ≡ threads in_stt_call s.workers)
    × (s.registry.llm_active ≡ threads holds_llm s.workers)
    × (threads holds_stt s.workers ≤ lim.stt_slots)
    × (threads holds_llm s.workers ≤ lim.llm_slots)

kept_counts :
    (lim : Limits) (s : System) (r : Registry)
    → SameCounts s.registry r
    → Counted lim s
    → Counted lim (record s { registry = r })
kept_counts lim s r (a, b) (h, k, m, n) = (a ∙ h, b ∙ k, m, n)

at_most :
    (p : Stage → Bool) (id : Chars) (w : Stage) (ws : Dict Chars Stage)
    → get? id ws ≡ some w
    → weight (p w) ≤ threads p ws
unfolding get?
at_most p id w [] h = cc h
at_most p id w ((k, v) ∷ ws) h = elim (Bool-cases (k == id)) [
  | inl y ↦ rw (sym (some_injective (rw y at h))) (omega arith)
  | inr n ↦ omega (arith, at_most p id w ws (sym (rw n refl) ∙ h))
]

-- A thread takes a slot only when one is free.
abbrev Fits : Limits → Stage → Dict Chars Stage → Stage → Type 0
Fits lim w ws v =
    (threads holds_stt ws + weight (holds_stt v) ≤ lim.stt_slots + weight (holds_stt w))
    × (threads holds_llm ws + weight (holds_llm v) ≤ lim.llm_slots + weight (holds_llm w))

advance-Fits :
    (lim : Limits) (now : ℕ) (id : Chars) (a : Answer) (w : Stage) (ws : Dict Chars Stage)
    (r : Registry)
    → may_go lim w ws ≡ true
    → threads holds_stt ws ≤ lim.stt_slots
    → threads holds_llm ws ≤ lim.llm_slots
    → Fits lim w ws (advance now id a w r).0
unfolding advance
advance-Fits lim now id a before_stt ws r go h k = elim (Bool-cases (is_in id r.events)) [
  | inl y ↦ rw y (omega (arith, h), omega (arith, k))
  | inr n ↦ rw n (omega (arith, ltb→lt _ _ go), omega (arith, k))
]
advance-Fits lim now id a let_in ws r go h k = (omega (arith, h), omega (arith, k))
advance-Fits lim now id (answered d) in_stt ws r go h k = (omega (arith, h), omega (arith, k))
advance-Fits lim now id stopped in_stt ws r go h k = (omega (arith, h), omega (arith, k))
advance-Fits lim now id auth_expired in_stt ws r go h k = (omega (arith, h), omega (arith, k))
advance-Fits lim now id out_of_memory in_stt ws r go h k = (omega (arith, h), omega (arith, k))
advance-Fits lim now id broken in_stt ws r go h k = (omega (arith, h), omega (arith, k))
advance-Fits lim now id a between ws r go h k = elim (Bool-cases (is_in id r.events)) [
  | inl y ↦ rw y (omega (arith, h), omega (arith, k))
  | inr n ↦ rw n (omega (arith, h), omega (arith, k))
]
advance-Fits lim now id a before_llm ws r go h k = elim (Bool-cases (is_in id r.events)) [
  | inl y ↦ rw y (omega (arith, h), omega (arith, k))
  | inr n ↦ rw n (omega (arith, h), omega (arith, ltb→lt _ _ go))
]
advance-Fits lim now id a in_llm ws r go h k = (omega (arith, h), omega (arith, k))
advance-Fits lim now id a ended ws r go h k = (omega (arith, h), omega (arith, k))

worker-Counted :
    (lim : Limits) (now : ℕ) (id : Chars) (a : Answer) (w : Stage) (s : System)
    → get? id s.workers ≡ some w
    → Counted lim s
    → Counted lim (worker_step lim now id a (some w) s)
worker-Counted lim now id a w s g (e, f, m, n) = elim (Bool-cases (may_go lim w s.workers)) [
  | inr held ↦ rw held (e, f, m, n)
  | inl free ↦
      let v = (advance now id a w s.registry).0 in
      let (stt, llm) = advance-Accounts now id a w s.registry in
      let (i, j) = advance-Fits lim now id a w s.workers s.registry free m n in
      let c = at_most in_stt_call id w s.workers g in
      let d = at_most holds_llm id w s.workers g in
      rw free (
        omega (arith, stt (rw e c), e, threads-put in_stt_call id w v s.workers g),
        omega (arith, llm (rw f d), f, threads-put holds_llm id w v s.workers g),
        omega (arith, i, threads-put holds_stt id w v s.workers g),
        omega (arith, j, threads-put holds_llm id w v s.workers g),
      )
]

act-Counted : (lim : Limits) (a : Action) (s : System) → Counted lim s → Counted lim (act lim a s)
unfolding act scan_stt_stalls purge_finished_jobs progress_report submit init_job_meta
act-Counted lim (submits now id user) s (e, f, m, n) = elim (Option-cases (get? id s.workers)) [
  | inr (w, g) ↦ rw g (e, f, m, n)
  | inl g ↦ rw g (
    omega (arith, e, threads-put_new in_stt_call id before_stt s.workers g),
    omega (arith, f, threads-put_new holds_llm id before_stt s.workers g),
    omega (arith, m, threads-put_new holds_stt id before_stt s.workers g),
    omega (arith, n, threads-put_new holds_llm id before_stt s.workers g),
  )
]
act-Counted lim (goes_on now id a) s h = elim (Option-cases (get? id s.workers)) [
  | inl g ↦ rw g h
  | inr (w, g) ↦ rw g (worker-Counted lim now id a w s g h)
]
act-Counted lim (cancels_job id user) s h =
    kept_counts lim s (ai_job_cancel id user s.registry).1
      (ai_job_cancel-SameCounts id user s.registry) h
act-Counted lim (scans now) s h =
    kept_counts lim s (scan now lim.stall lim.mark_error s.registry.meta s.registry).1
      (scan-SameCounts now lim.stall lim.mark_error s.registry.meta s.registry) h
act-Counted lim (purges now) s h =
    kept_counts lim s (purge_finished_jobs now lim.retention s.registry).1
      (drop_due-SameCounts now lim.retention (observe now s.registry.jobs s.registry.finished_at) _)
      h
act-Counted lim (reports now id p) s h =
    kept_counts lim s (progress_report now id p s.registry) (refl, refl) h

acts-Counted :
    (lim : Limits) (more : List Action) (s : System) → Counted lim s → Counted lim (acts lim more s)
unfolding acts
acts-Counted lim [] s h = h
acts-Counted lim (a ∷ more) s h = acts-Counted lim more (act lim a s) (act-Counted lim a s h)

-- However the submissions, the threads, the cancellations, the watchdog and the purges interleave, the
-- two counters say how many threads are in each call, and no more threads hold a semaphore than it has
-- slots.
pub counters_agree :
    (lim : Limits) (as_made : List Action)
    → Counted lim (acts lim as_made (record { registry = empty; workers = [] }))
counters_agree lim as_made = acts-Counted lim as_made _ (refl, refl, omega arith, omega arith)
