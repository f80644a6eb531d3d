-- ===== src/Web/Jobs/Cancel.antt =====
-- A cancellation holds (src/web/app.py).
use lb_note.Base.{
  ℕ, ◌≡◌, ◌⊎◌, refl, sym, ap, subst, ◌∙◌, Option, none, some, Bool, true, false, ◌&&◌, List, [],
  ◌∷◌, if◌then◌else◌, ◌==◌, ==_iff, ==_refl, nat_Eq, list_Eq, is_in, is_in-cons, is_in_first,
  Bool-cases, Option-cases, inl, inr, true≢false,
}
use lb_note.Base.Dict.{Dict, get?, put, get?-put, get?-remove, is_some}
use lb_note.Base.Chars.{Chars}
use lb_note.Web.Jobs.Registry.{
  Job, queued, processing, cancelled, failed, done, is_live, Meta, Registry, mark_job, submit,
  init_job_meta, set_phase, cancel_of, owned, observe, is_due, forget, drop_due,
  purge_finished_jobs, is_stalled, stalled, fire, stt_stalled, claude_auth_expired,
  stt_vram_exhausted, job_phase, waiting_llm, summarizing, scan, scan_stt_stalls, ai_job_cancel,
  progress_report,
}
use lb_note.Web.Jobs.Worker.{
  Stage, before_stt, let_in, in_stt, between, before_llm, in_llm, ended, Answer, answered, stopped,
  auth_expired, out_of_memory, broken, finish, raised, engine_code, llm_enter, stt_leave, llm_leave,
  unless_cancelled, advance, may_go, System, Limits, Action, submits, goes_on, cancels_job, scans,
  purges, reports, worker_step, act, acts,
}

abbrev pub not_done : Option Job → Bool
not_done none = true
not_done (some queued) = true
not_done (some processing) = true
not_done (some cancelled) = true
not_done (some (failed c)) = true
not_done (some (done d)) = false

-- The thread has not asked for the summary, or is over.
abbrev pub is_early : Option Stage → Bool
is_early none = false
is_early (some before_stt) = true
is_early (some let_in) = true
is_early (some in_stt) = true
is_early (some between) = true
is_early (some before_llm) = true
is_early (some in_llm) = false
is_early (some ended) = true

-- The event stays set, and the job does not become done.
abbrev Safe : Chars → Registry → Registry → Type 0
Safe id r q =
    (is_in id r.events ≡ true → is_in id q.events ≡ true)
    × (not_done (get? id r.jobs) ≡ true → not_done (get? id q.jobs) ≡ true)

Safe-trans : (id : Chars) (r p q : Registry) → Safe id r p → Safe id p q → Safe id r q
Safe-trans id r p q (a, b) (c, d) = (λ h. c (a h), λ h. d (b h))

mark-Safe :
    (id k : Chars) (j : Job) (r : Registry)
    → (not_done (some j) ≡ true) ⊎ ((k == id) ≡ false)
    → Safe id r (mark_job k j r)
unfolding mark_job
mark-Safe id k j r (inl n) = (
  λ h. h,
  λ h.
      rw (get?-put id k j r.jobs) (elim (Bool-cases (k == id)) [ inl y ↦ rw y n | inr d ↦ rw d h ]),
)
mark-Safe id k j r (inr d) = (λ h. h, λ h. rw (get?-put id k j r.jobs, d) h)

forget-Safe : (id k : Chars) (r : Registry) → Safe id r (forget k r)
forget-Safe id k r = (
  λ h. h,
  λ h.
      rw (get?-remove id k r.jobs)
        (elim (Bool-cases (k == id)) [ inl y ↦ rw y refl | inr d ↦ rw d h ]),
)

drop_due-Safe :
    (id : Chars) (now ttl : ℕ) (fs : Dict Chars ℕ) (r : Registry)
    → Safe id r (drop_due now ttl fs r).1
drop_due-Safe id now ttl [] r = (λ h. h, λ h. h)
drop_due-Safe id now ttl ((k, at) ∷ fs) r = elim (Bool-cases (is_due now ttl k at r)) [
  | inl y ↦ rw y (
      Safe-trans id r (forget k r) (drop_due now ttl fs (forget k r)).1 (forget-Safe id k r)
        (drop_due-Safe id now ttl fs (forget k r)))
  | inr n ↦ rw n (drop_due-Safe id now ttl fs r)
]

fire-Safe : (id k : Chars) (r : Registry) → Safe id r (fire k r)
fire-Safe id k r = elim (Bool-cases (is_in k r.cancels)) [
  | inl y ↦ rw y (λ h. is_in-cons id k r.events h, λ h. h)
  | inr n ↦ rw n (λ h. h, λ h. h)
]

stalled-Safe :
    (id : Chars) (mark_error : Bool) (k : Chars) (m : Meta) (r : Registry)
    → Safe id r (stalled mark_error k m r)
stalled-Safe id false k m r = (λ h. h, λ h. h)
stalled-Safe id true k m r =
    let warned = record r { meta = put k (record m { warning = true }) r.meta } in
    let failing = mark_job k (failed (some stt_stalled)) warned in
    Safe-trans id r failing (fire k failing)
      (mark-Safe id k (failed (some stt_stalled)) warned (inl refl)) (fire-Safe id k failing)

scan-Safe :
    (id : Chars) (now bound : ℕ) (mark_error : Bool) (ms : Dict Chars Meta) (r : Registry)
    → Safe id r (scan now bound mark_error ms r).1
scan-Safe id now bound mark_error [] r = (λ h. h, λ h. h)
scan-Safe id now bound mark_error ((k, m) ∷ ms) r = elim (Bool-cases (is_stalled now bound k m r)) [
  | inl y ↦ rw y (
      Safe-trans id r (stalled mark_error k m r)
        (scan now bound mark_error ms (stalled mark_error k m r)).1
        (stalled-Safe id mark_error k m r)
        (scan-Safe id now bound mark_error ms (stalled mark_error k m r)))
  | inr n ↦ rw n (scan-Safe id now bound mark_error ms r)
]

if-Safe : (id : Chars) (b : Bool) (r q : Registry) → Safe id r q → Safe id r (if b then q else r)
if-Safe id true r q h = h
if-Safe id false r q h = (λ e. e, λ e. e)

cancel_of-Safe : (id k : Chars) (o : Option Job) (r : Registry) → Safe id r (cancel_of k o r)
cancel_of-Safe id k (some queued) r =
    if-Safe id (is_in k r.cancels) r (mark_job k cancelled (fire k r)) (
      Safe-trans id r (fire k r) (mark_job k cancelled (fire k r)) (fire-Safe id k r)
        (mark-Safe id k cancelled (fire k r) (inl refl)))
cancel_of-Safe id k (some processing) r =
    if-Safe id (is_in k r.cancels) r (fire k r) (fire-Safe id k r)
cancel_of-Safe id k (some cancelled) r = (λ h. h, λ h. h)
cancel_of-Safe id k (some (failed c)) r = (λ h. h, λ h. h)
cancel_of-Safe id k (some (done d)) r = (λ h. h, λ h. h)
cancel_of-Safe id k none r = (λ h. h, λ h. h)

ai_job_cancel-Safe : (id k user : Chars) (r : Registry) → Safe id r (ai_job_cancel k user r).1
unfolding ai_job_cancel
ai_job_cancel-Safe id k user r =
    elim (Bool-cases (is_some (get? k r.jobs) && owned user (get? k r.owners))) [
      | inl y ↦ rw y (cancel_of-Safe id k (get? k r.jobs) r)
      | inr n ↦ rw n (λ h. h, λ h. h)
    ]

-- An end that is not done, or that is another job's.
finish-Safe :
    (id k : Chars) (j : Job) (r : Registry)
    → (not_done (some j) ≡ true) ⊎ ((k == id) ≡ false)
    → Safe id r (finish k j r)
finish-Safe id k j r h = ((mark-Safe id k j r h).0, (mark-Safe id k j r h).1)

raised-Safe :
    (id k : Chars) (a : Answer) (r : Registry) → (k == id) ≡ false → Safe id r (raised k a r)
raised-Safe id k (answered d) r h = finish-Safe id k (done d) r (inr h)
raised-Safe id k stopped r h = finish-Safe id k cancelled r (inr h)
raised-Safe id k auth_expired r h = finish-Safe id k (failed (some claude_auth_expired)) r (inr h)
raised-Safe id k out_of_memory r h = finish-Safe id k (failed (some stt_vram_exhausted)) r (inr h)
raised-Safe id k broken r h = finish-Safe id k (failed (engine_code (job_phase k r))) r (inr h)

unless-Safe :
    (id k : Chars) (w : Stage) (next r : Registry)
    → (k == id) ≡ false
    → Safe id r next
    → Safe id r (unless_cancelled k w next r).1
unless-Safe id k w next r d h = elim (Bool-cases (is_in k r.events)) [
  | inl y ↦ rw y (finish-Safe id k cancelled r (inr d))
  | inr n ↦ rw n h
]

-- A stage of another thread.
other-Safe :
    (id : Chars) (now : ℕ) (k : Chars) (a : Answer) (w : Stage) (r : Registry)
    → (k == id) ≡ false
    → Safe id r (advance now k a w r).1
unfolding advance set_phase mark_job
other-Safe id now k a before_stt r d = unless-Safe id k let_in r r d (λ h. h, λ h. h)
other-Safe id now k a let_in r d = mark-Safe id k processing r (inr d)
other-Safe id now k (answered x) in_stt r d = (λ h. h, λ h. h)
other-Safe id now k stopped in_stt r d = raised-Safe id k stopped (stt_leave r) d
other-Safe id now k auth_expired in_stt r d = raised-Safe id k auth_expired (stt_leave r) d
other-Safe id now k out_of_memory in_stt r d = raised-Safe id k out_of_memory (stt_leave r) d
other-Safe id now k broken in_stt r d = raised-Safe id k broken (stt_leave r) d
other-Safe id now k a between r d =
    unless-Safe id k before_llm (set_phase now k waiting_llm r) r d (λ h. h, λ h. h)
other-Safe id now k a before_llm r d =
    unless-Safe id k in_llm (llm_enter (set_phase now k summarizing r)) r d (λ h. h, λ h. h)
other-Safe id now k a in_llm r d = raised-Safe id k a (llm_leave r) d
other-Safe id now k a ended r d = (λ h. h, λ h. h)

-- A stage of the thread itself, once its event is set.
own_stage :
    (now : ℕ) (id : Chars) (a : Answer) (w : Stage) (r : Registry)
    → is_in id r.events ≡ true
    → is_early (some w) ≡ true
    → not_done (get? id r.jobs) ≡ true
    → (is_early (some (advance now id a w r).0) ≡ true)
      × (is_in id (advance now id a w r).1.events ≡ true)
      × (not_done (get? id (advance now id a w r).1.jobs) ≡ true)
unfolding advance set_phase mark_job
own_stage now id a before_stt r e w n =
    rw e (refl, e, (finish-Safe id id cancelled r (inl refl)).1 n)
own_stage now id a let_in r e w n = (refl, e, (mark-Safe id id processing r (inl refl)).1 n)
own_stage now id (answered d) in_stt r e w n = (refl, e, n)
own_stage now id stopped in_stt r e w n = (refl, e, (finish-Safe id id cancelled r (inl refl)).1 n)
own_stage now id auth_expired in_stt r e w n =
    (refl, e, (finish-Safe id id (failed (some claude_auth_expired)) r (inl refl)).1 n)
own_stage now id out_of_memory in_stt r e w n =
    (refl, e, (finish-Safe id id (failed (some stt_vram_exhausted)) r (inl refl)).1 n)
own_stage now id broken in_stt r e w n = (
  refl,
  e,
  (finish-Safe id id (failed (engine_code (job_phase id (stt_leave r)))) r (inl refl)).1 n,
)
own_stage now id a between r e w n = rw e (refl, e, (finish-Safe id id cancelled r (inl refl)).1 n)
own_stage now id a before_llm r e w n =
    rw e (refl, e, (finish-Safe id id cancelled r (inl refl)).1 n)
own_stage now id a in_llm r e w n = cc w
own_stage now id a ended r e w n = (refl, e, n)

abbrev pub Doomed : Chars → System → Type 0
Doomed id s =
    (is_early (get? id s.workers) ≡ true)
    × (is_in id s.registry.events ≡ true)
    × (not_done (get? id s.registry.jobs) ≡ true)

Safe-Doomed :
    (id : Chars) (s : System) (r : Registry)
    → Safe id s.registry r
    → Doomed id s
    → Doomed id (record s { registry = r })
Safe-Doomed id s r (a, b) (w, e, n) = (w, a e, b n)

worker-Doomed :
    (lim : Limits) (id : Chars) (now : ℕ) (k : Chars) (a : Answer) (w : Stage) (s : System)
    → get? k s.workers ≡ some w
    → Doomed id s
    → Doomed id (worker_step lim now k a (some w) s)
worker-Doomed lim id now k a w s g (early, e, n) = elim (Bool-cases (may_go lim w s.workers)) [
  | inr held ↦ rw held (early, e, n)
  | inl free ↦
      let next = advance now k a w s.registry in
      elim (Bool-cases (k == id)) [
        | inr other ↦
            let (x, y) = other-Safe id now k a w s.registry other in
            rw free (rw (get?-put id k next.0 s.workers, other) early, x e, y n)
        | inl same ↦
            let q = (==_iff k id).0 same in
            let own =
              own_stage now k a w s.registry
                (subst (λ i. is_in i s.registry.events ≡ true) (sym q) e)
                (ap is_early (sym g)
                  ∙ subst (λ i. is_early (get? i s.workers) ≡ true) (sym q) early)
                (subst (λ i. not_done (get? i s.registry.jobs) ≡ true) (sym q) n) in
            rw free (
              rw (get?-put id k next.0 s.workers, same) own.0,
              subst (λ i. is_in i next.1.events ≡ true) q own.1,
              subst (λ i. not_done (get? i next.1.jobs) ≡ true) q own.2,
            )
      ]
]

act-Doomed :
    (lim : Limits) (id : Chars) (a : Action) (s : System) → Doomed id s → Doomed id (act lim a s)
unfolding act submit init_job_meta mark_job scan_stt_stalls purge_finished_jobs progress_report
act-Doomed lim id (submits now k user) s (early, e, n) = elim (Option-cases (get? k s.workers)) [
  | inr (w, g) ↦ rw g (early, e, n)
  | inl g ↦ rw g (
    rw (get?-put id k before_stt s.workers)
        (elim (Bool-cases (k == id)) [ inl y ↦ rw y refl | inr d ↦ rw d early ]),
    e,
    (mark-Safe id k queued s.registry (inl refl)).1 n,
  )
]
act-Doomed lim id (goes_on now k a) s h = elim (Option-cases (get? k s.workers)) [
  | inl g ↦ rw g h
  | inr (w, g) ↦ rw g (worker-Doomed lim id now k a w s g h)
]
act-Doomed lim id (cancels_job k user) s h =
    Safe-Doomed id s (ai_job_cancel k user s.registry).1 (ai_job_cancel-Safe id k user s.registry) h
act-Doomed lim id (scans now) s h =
    Safe-Doomed id s (scan now lim.stall lim.mark_error s.registry.meta s.registry).1
      (scan-Safe id now lim.stall lim.mark_error s.registry.meta s.registry) h
act-Doomed lim id (purges now) s h =
    Safe-Doomed id s (purge_finished_jobs now lim.retention s.registry).1
      (drop_due-Safe id now lim.retention (observe now s.registry.jobs s.registry.finished_at) _) h
act-Doomed lim id (reports now k p) s h = h

acts-Doomed :
    (lim : Limits) (id : Chars) (more : List Action) (s : System)
    → Doomed id s
    → Doomed id (acts lim more s)
unfolding acts
acts-Doomed lim id [] s h = h
acts-Doomed lim id (a ∷ more) s h = acts-Doomed lim id more (act lim a s) (act-Doomed lim id a s h)

live_not_done : (o : Option Job) → is_live o ≡ true → not_done o ≡ true
live_not_done none h = refl
live_not_done (some queued) h = refl
live_not_done (some processing) h = refl
live_not_done (some cancelled) h = refl
live_not_done (some (failed c)) h = refl
live_not_done (some (done d)) h = absurd (true≢false (sym h))

cancel_of-events :
    (id : Chars) (o : Option Job) (r : Registry)
    → is_live o ≡ true
    → is_in id r.cancels ≡ true
    → is_in id (cancel_of id o r).events ≡ true
unfolding mark_job
cancel_of-events id none r l c = absurd (true≢false (sym l))
cancel_of-events id (some queued) r l c = rw c (is_in_first id r.events)
cancel_of-events id (some processing) r l c = rw c (is_in_first id r.events)
cancel_of-events id (some cancelled) r l c = absurd (true≢false (sym l))
cancel_of-events id (some (failed x)) r l c = absurd (true≢false (sym l))
cancel_of-events id (some (done x)) r l c = absurd (true≢false (sym l))

live_some : (o : Option Job) → is_live o ≡ true → is_some o ≡ true
live_some none h = absurd (true≢false (sym h))
live_some (some j) h = refl

asked :
    (id user : Chars) (r : Registry)
    → is_live (get? id r.jobs) ≡ true
    → get? id r.owners ≡ some user
    → (ai_job_cancel id user r).1 ≡ cancel_of id (get? id r.jobs) r
unfolding ai_job_cancel
asked id user r l o = rw (live_some (get? id r.jobs) l, o, ==_refl user) refl

cancel-Doomed :
    (id user : Chars) (s : System)
    → is_early (get? id s.workers) ≡ true
    → is_live (get? id s.registry.jobs) ≡ true
    → get? id s.registry.owners ≡ some user
    → is_in id s.registry.cancels ≡ true
    → Doomed id (record s { registry = (ai_job_cancel id user s.registry).1 })
cancel-Doomed id user s w l o c = (
  w,
  rw (asked id user s.registry l o) (cancel_of-events id (get? id s.registry.jobs) s.registry l c),
  (ai_job_cancel-Safe id id user s.registry).1 (live_not_done (get? id s.registry.jobs) l),
)

-- When the owner of a job that is queued or processed cancels it, and its thread has not begun the
-- summary, the job never becomes done, whatever the threads, the watchdog, the purges and the users do
-- afterwards and in whatever order.
pub cancel_holds :
    (lim : Limits) (id user : Chars) (s : System) (later : List Action)
    → is_early (get? id s.workers) ≡ true
    → is_live (get? id s.registry.jobs) ≡ true
    → get? id s.registry.owners ≡ some user
    → is_in id s.registry.cancels ≡ true
    → not_done (get? id (acts lim later (act lim (cancels_job id user) s)).registry.jobs) ≡ true
unfolding act
cancel_holds lim id user s later w l o c =
    (acts-Doomed lim id later _ (cancel-Doomed id user s w l o c)).2
