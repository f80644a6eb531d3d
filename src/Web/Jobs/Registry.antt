-- ===== src/Web/Jobs/Registry.antt =====
-- The tables of the jobs and the functions on them (src/web/app.py). Times are those of the monotonic
-- clock. An event that cancels is known by its job: `cancels` are the jobs with an event in
-- `_job_cancels`, `events` those whose event is set, which the worker reads though the table forgot it.
use lb_note.Base.{
  ℕ, suc, ◌+◌, Option, none, some, Bool, true, false, not, ◌||◌, ◌&&◌, List, [], ◌∷◌, String,
  if◌then◌else◌, ltb, ◌==◌, nat_Eq, list_Eq, string_Eq, is_in,
}
use lb_note.Base.Dict.{Dict, get?, put, remove, contains, is_some, or_default}
use lb_note.Base.Chars.{Chars}

pub data Phase : Type 0 where
  waiting_stt transcribing waiting_llm summarizing : Phase

pub data Kind : Type 0 where
  stt llm : Kind

pub data Code : Type 0 where
  claude_auth_expired stt_vram_exhausted stt_engine_error stt_stalled : Code

-- What `_job_diag` says of a result.
pub record Diag : Type 0 where
  pub summary_empty : Bool
  pub actions_empty : Bool
  pub unparsed : ℕ
  pub worker_failures : ℕ
  pub low_quality : Bool
  pub summarized : Bool

-- A value of `_jobs`, by its status.
pub data Job : Type 0 where
  queued processing cancelled : Job
  failed : Option Code → Job
  done : Diag → Job

pub record Progress : Type 0 where
  pub stage : String
  pub count : Option (ℕ × ℕ)

-- A value of `_job_meta`; `warning` is whether it is "stt_stalled".
pub record Meta : Type 0 where
  pub kind : Kind
  pub created_at : ℕ
  pub started_at : Option ℕ
  pub phase : Phase
  pub phase_at : ℕ
  pub warning : Bool
  pub progress : Option Progress
  pub progress_at : Option ℕ

pub record Registry : Type 0 where
  pub jobs : Dict Chars Job
  pub owners : Dict Chars Chars
  pub cancels : List Chars
  pub events : List Chars
  pub finished_at : Dict Chars ℕ
  pub meta : Dict Chars Meta
  pub stt_active : ℕ
  pub llm_active : ℕ

abbrev pub empty : Registry
empty = record {
  jobs = [];
  owners = [];
  cancels = [];
  events = [];
  finished_at = [];
  meta = [];
  stt_active = 0;
  llm_active = 0;
}

-- `_JOB_TERMINAL_STATUSES`.
abbrev pub is_terminal : Job → Bool
is_terminal queued = false
is_terminal processing = false
is_terminal cancelled = true
is_terminal (failed c) = true
is_terminal (done d) = true

abbrev pub is_live : Option Job → Bool
is_live none = false
is_live (some j) = not (is_terminal j)

-- `_mark_job`.
unfoldable pub mark_job : Chars → Job → Registry → Registry
mark_job id j r = record r { jobs = put id j r.jobs }

abbrev pub new_meta : ℕ → Kind → Phase → Meta
new_meta now k p = record {
  kind = k;
  created_at = now;
  started_at = none;
  phase = p;
  phase_at = now;
  warning = false;
  progress = none;
  progress_at = none;
}

abbrev pub first_phase : Kind → Phase
first_phase stt = waiting_stt
first_phase llm = waiting_llm

-- `_init_job_meta`.
unfoldable pub init_job_meta : ℕ → Chars → Kind → Registry → Registry
init_job_meta now id k r = record r { meta = put id (new_meta now k (first_phase k)) r.meta }

abbrev pub starts : Phase → Bool
starts waiting_stt = false
starts transcribing = true
starts waiting_llm = false
starts summarizing = true

abbrev pub first_start : ℕ → Phase → Option ℕ → Option ℕ
first_start now p (some t) = some t
first_start now p none = if starts p then some now else none

abbrev pub in_phase : ℕ → Phase → Meta → Meta
in_phase now p m = record m {
  phase = p;
  phase_at = now;
  progress = none;
  started_at = first_start now p m.started_at;
}

-- `_set_phase`.
unfoldable pub set_phase : ℕ → Chars → Phase → Registry → Registry
set_phase now id p r = record r {
  meta = put id (in_phase now p (or_default (new_meta now stt p) (get? id r.meta))) r.meta;
}

abbrev pub with_progress : ℕ → Progress → Chars → Option Meta → Dict Chars Meta → Dict Chars Meta
with_progress now p id none d = d
with_progress now p id (some m) d =
    put id (record m { progress = some p; progress_at = some now }) d

-- `_progress_reporter`: a job that is gone has no place for it.
unfoldable pub progress_report : ℕ → Chars → Progress → Registry → Registry
progress_report now id p r = record r { meta = with_progress now p id (get? id r.meta) r.meta }

abbrev pub phase_of : Option Meta → Option Phase
phase_of none = none
phase_of (some m) = some m.phase

-- `_job_phase`.
unfoldable pub job_phase : Chars → Registry → Option Phase
job_phase id r = phase_of (get? id r.meta)

-- The registration of `ai_process`.
unfoldable pub submit : ℕ → Chars → Chars → Registry → Registry
submit now id user r = init_job_meta now id stt (record r {
  jobs = put id queued r.jobs;
  owners = put id user r.owners;
  cancels = id ∷ r.cancels;
})

-- When a job that ended was first seen so.
abbrev pub set_default : Chars → ℕ → Dict Chars ℕ → Dict Chars ℕ
set_default id now f = if contains id f then f else put id now f

abbrev pub observe : ℕ → Dict Chars Job → Dict Chars ℕ → Dict Chars ℕ
observe now [] f = f
observe now ((id, j) ∷ js) f =
    observe now js (if is_terminal j then set_default id now f else remove id f)

abbrev pub forget : Chars → Registry → Registry
forget id r = record r {
  jobs = remove id r.jobs;
  owners = remove id r.owners;
  finished_at = remove id r.finished_at;
  meta = remove id r.meta;
}

abbrev pub is_due : ℕ → ℕ → Chars → ℕ → Registry → Bool
is_due now ttl id at r = not (contains id r.jobs) || ltb (at + ttl) now

abbrev pub drop_due : ℕ → ℕ → Dict Chars ℕ → Registry → ℕ × Registry
drop_due now ttl [] r = (0, r)
drop_due now ttl ((id, at) ∷ rest) r =
    let due = is_due now ttl id at r in
    let (n, r') = drop_due now ttl rest (if due then forget id r else r) in
    ((if due && contains id r.jobs then suc n else n), r')

-- `_purge_finished_jobs`: how many jobs go, and what stays.
unfoldable pub purge_finished_jobs : ℕ → ℕ → Registry → ℕ × Registry
purge_finished_jobs now ttl r =
    let seen = observe now r.jobs r.finished_at in
    drop_due now ttl seen (record r { finished_at = seen })

abbrev pub is_transcribing : Phase → Bool
is_transcribing transcribing = true
is_transcribing waiting_stt = false
is_transcribing waiting_llm = false
is_transcribing summarizing = false

abbrev pub is_processing : Option Job → Bool
is_processing (some processing) = true
is_processing (some queued) = false
is_processing (some cancelled) = false
is_processing (some (failed c)) = false
is_processing (some (done d)) = false
is_processing none = false

-- A job that transcribes for longer than the bound.
abbrev pub is_stalled : ℕ → ℕ → Chars → Meta → Registry → Bool
is_stalled now bound id m r =
    is_transcribing m.phase && is_processing (get? id r.jobs) && ltb (m.phase_at + bound) now

abbrev pub fire : Chars → Registry → Registry
fire id r = record r { events = if is_in id r.cancels then id ∷ r.events else r.events }

abbrev pub stalled : Bool → Chars → Meta → Registry → Registry
stalled mark_error id m r =
    let warned = record r { meta = put id (record m { warning = true }) r.meta } in
    if mark_error then fire id (mark_job id (failed (some stt_stalled)) warned) else warned

abbrev pub scan : ℕ → ℕ → Bool → Dict Chars Meta → Registry → List Chars × Registry
scan now bound mark_error [] r = ([], r)
scan now bound mark_error ((id, m) ∷ rest) r =
    let hit = is_stalled now bound id m r in
    let (found, r') =
      scan now bound mark_error rest (if hit then stalled mark_error id m r else r) in
    ((if hit && not m.warning then id ∷ found else found), r')

-- `_scan_stt_stalls`: the jobs that are found to stall for the first time.
unfoldable pub scan_stt_stalls : ℕ → ℕ → Bool → Registry → List Chars × Registry
scan_stt_stalls now bound mark_error r = scan now bound mark_error r.meta r

-- The owner of the job asks; another user, or no owner, is as if there were no job.
abbrev pub owned : Chars → Option Chars → Bool
owned user none = false
owned user (some o) = o == user

abbrev pub cancel_of : Chars → Option Job → Registry → Registry
cancel_of id (some queued) r = if is_in id r.cancels then mark_job id cancelled (fire id r) else r
cancel_of id (some processing) r = if is_in id r.cancels then fire id r else r
cancel_of id (some cancelled) r = r
cancel_of id (some (failed c)) r = r
cancel_of id (some (done d)) r = r
cancel_of id none r = r

-- `ai_job_cancel`: the status that is answered, with `none` for 404.
unfoldable pub ai_job_cancel : Chars → Chars → Registry → Option Job × Registry
ai_job_cancel id user r =
    if is_some (get? id r.jobs) && owned user (get? id r.owners)
    then (let r' = cancel_of id (get? id r.jobs) r in (get? id r'.jobs, r'))
    else (none, r)
