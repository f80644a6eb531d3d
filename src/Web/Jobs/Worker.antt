-- ===== src/Web/Jobs/Worker.antt =====
-- The thread of a job, `_run_ai_job` of src/web/app.py, cut at the points where other threads may run,
-- and the whole of the threads. What the transcription and the summary answer is an argument.
use lb_note.Base.{
  ℕ, ◌+◌, ◌-◌, Option, none, some, Bool, true, false, not, List, [], ◌∷◌, if◌then◌else◌, ltb, ◌==◌,
  nat_Eq, list_Eq, select, is_in,
}
use lb_note.Base.Dict.{Dict, get?, put, contains}
use lb_note.Base.Chars.{Chars}
use lb_note.Web.Jobs.Registry.{
  Phase, waiting_stt, transcribing, waiting_llm, summarizing, Code, claude_auth_expired,
  stt_vram_exhausted, stt_engine_error, Diag, Job, processing, cancelled, failed, done, Progress,
  Registry, mark_job, set_phase, job_phase, progress_report, submit, purge_finished_jobs,
  scan_stt_stalls, ai_job_cancel,
}

-- Where the thread is: before a semaphore, through the test for a cancellation, in the call, between
-- the two calls, or at its end.
pub data Stage : Type 0 where
  before_stt let_in in_stt between before_llm in_llm ended : Stage

-- A call returns, is cancelled, or raises.
pub data Answer : Type 0 where
  answered : Diag → Answer
  stopped auth_expired out_of_memory broken : Answer

abbrev pub engine_code : Option Phase → Option Code
engine_code none = none
engine_code (some waiting_stt) = some stt_engine_error
engine_code (some transcribing) = some stt_engine_error
engine_code (some waiting_llm) = none
engine_code (some summarizing) = none

-- The `finally` that forgets the event.
abbrev pub finish : Chars → Job → Registry → Registry
finish id j r =
    let marked = mark_job id j r in
    record marked { cancels = select (λ c. not (c == id)) marked.cancels }

-- What an exception leaves, which the handlers at the end of the thread tell apart.
abbrev pub raised : Chars → Answer → Registry → Registry
raised id (answered d) r = finish id (done d) r
raised id stopped r = finish id cancelled r
raised id auth_expired r = finish id (failed (some claude_auth_expired)) r
raised id out_of_memory r = finish id (failed (some stt_vram_exhausted)) r
raised id broken r = finish id (failed (engine_code (job_phase id r))) r

abbrev pub stt_enter : Registry → Registry
stt_enter r = record r { stt_active = r.stt_active + 1 }

abbrev pub stt_leave : Registry → Registry
stt_leave r = record r { stt_active = r.stt_active - 1 }

abbrev pub llm_enter : Registry → Registry
llm_enter r = record r { llm_active = r.llm_active + 1 }

abbrev pub llm_leave : Registry → Registry
llm_leave r = record r { llm_active = r.llm_active - 1 }

-- `_job_cancelled` before the rest.
abbrev pub unless_cancelled : Chars → Stage → Registry → Registry → Stage × Registry
unless_cancelled id s next r =
    if is_in id r.events then (ended, finish id cancelled r) else (s, next)

abbrev pub after_stt : Chars → Answer → Registry → Stage × Registry
after_stt id (answered d) r = (between, r)
after_stt id stopped r = (ended, raised id stopped r)
after_stt id auth_expired r = (ended, raised id auth_expired r)
after_stt id out_of_memory r = (ended, raised id out_of_memory r)
after_stt id broken r = (ended, raised id broken r)

-- `_run_ai_job`, one stage; a stage before a semaphore has acquired it when it goes on.
unfoldable pub advance : ℕ → Chars → Answer → Stage → Registry → Stage × Registry
advance now id a before_stt r = unless_cancelled id let_in r r
advance now id a let_in r =
    (in_stt, stt_enter (set_phase now id transcribing (mark_job id processing r)))
advance now id a in_stt r = after_stt id a (stt_leave r)
advance now id a between r = unless_cancelled id before_llm (set_phase now id waiting_llm r) r
advance now id a before_llm r =
    unless_cancelled id in_llm (llm_enter (set_phase now id summarizing r)) r
advance now id a in_llm r = (ended, raised id a (llm_leave r))
advance now id a ended r = (ended, r)

-- The threads with the tables.
pub record System : Type 0 where
  pub registry : Registry
  pub workers : Dict Chars Stage

-- STT_CONCURRENCY, LLM_CONCURRENCY, JOB_RETENTION_SEC, STT_STALL_SEC and STT_STALL_MARK_ERROR.
pub record Limits : Type 0 where
  pub stt_slots : ℕ
  pub llm_slots : ℕ
  pub retention : ℕ
  pub stall : ℕ
  pub mark_error : Bool

-- The semaphore is held from the test on; the counter counts the calls.
abbrev pub in_stt_call : Stage → Bool
in_stt_call before_stt = false
in_stt_call let_in = false
in_stt_call in_stt = true
in_stt_call between = false
in_stt_call before_llm = false
in_stt_call in_llm = false
in_stt_call ended = false

abbrev pub holds_stt : Stage → Bool
holds_stt before_stt = false
holds_stt let_in = true
holds_stt in_stt = true
holds_stt between = false
holds_stt before_llm = false
holds_stt in_llm = false
holds_stt ended = false

abbrev pub holds_llm : Stage → Bool
holds_llm before_stt = false
holds_llm let_in = false
holds_llm in_stt = false
holds_llm between = false
holds_llm before_llm = false
holds_llm in_llm = true
holds_llm ended = false

abbrev pub weight : Bool → ℕ
weight true = 1
weight false = 0

-- How many threads are where a test says.
abbrev pub threads : (Stage → Bool) → Dict Chars Stage → ℕ
threads p [] = 0
threads p ((id, w) ∷ ws) = weight (p w) + threads p ws

-- Whether the semaphore lets the thread go on.
abbrev pub may_go : Limits → Stage → Dict Chars Stage → Bool
may_go lim before_stt ws = ltb (threads holds_stt ws) lim.stt_slots
may_go lim let_in ws = true
may_go lim in_stt ws = true
may_go lim between ws = true
may_go lim before_llm ws = ltb (threads holds_llm ws) lim.llm_slots
may_go lim in_llm ws = true
may_go lim ended ws = true

pub data Action : Type 0 where
  submits : (now : ℕ) (id user : Chars) → Action
  goes_on : (now : ℕ) (id : Chars) (a : Answer) → Action
  cancels_job : (id user : Chars) → Action
  scans : (now : ℕ) → Action
  purges : (now : ℕ) → Action
  reports : (now : ℕ) (id : Chars) (p : Progress) → Action

abbrev pub moved : Chars → Stage × Registry → System → System
moved id (w, r) s = record { registry = r; workers = put id w s.workers }

abbrev pub worker_step : Limits → ℕ → Chars → Answer → Option Stage → System → System
worker_step lim now id a none s = s
worker_step lim now id a (some w) s =
    if may_go lim w s.workers then moved id (advance now id a w s.registry) s else s

-- One step of the whole; an id is drawn once.
unfoldable pub act : Limits → Action → System → System
act lim (submits now id user) s =
    if contains id s.workers
    then s
    else record { registry = submit now id user s.registry; workers = put id before_stt s.workers }
act lim (goes_on now id a) s = worker_step lim now id a (get? id s.workers) s
act lim (cancels_job id user) s = record s { registry = (ai_job_cancel id user s.registry).1 }
act lim (scans now) s = record s {
  registry = (scan_stt_stalls now lim.stall lim.mark_error s.registry).1;
}
act lim (purges now) s = record s {
  registry = (purge_finished_jobs now lim.retention s.registry).1;
}
act lim (reports now id p) s = record s { registry = progress_report now id p s.registry }

unfoldable pub acts : Limits → List Action → System → System
acts lim [] s = s
acts lim (a ∷ more) s = acts lim more (act lim a s)
