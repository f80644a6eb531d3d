-- ===== src/Web/Jobs/Views.antt =====
-- What a job looks like to its owner and to an administrator (src/web/app.py). A text for the user is a
-- constructor of `Hint`.
use lb_note.Base.{
  ℕ, zero, suc, ◌+◌, ◌-◌, min, Option, none, some, Bool, true, false, not, ◌&&◌, List, [], ◌∷◌,
  String, if◌then◌else◌, ltb, leb, ◌==◌, nat_Eq, list_Eq, string_Eq, select, length, take, distinct,
}
use lb_note.Base.Dict.{Dict, get?}
use lb_note.Base.Chars.{Chars}
use lb_note.Web.GpuStatus.{Pressure, fine, tight, insufficient, unknown}
use lb_note.Web.Jobs.Registry.{
  Phase, waiting_stt, transcribing, waiting_llm, summarizing, Code, claude_auth_expired,
  stt_vram_exhausted, stt_engine_error, stt_stalled, Diag, Job, queued, processing, cancelled,
  failed, done, Progress, Meta, Registry, is_live, is_transcribing, owned,
}

-- `_queue_snapshot_locked`.
pub record Queue : Type 0 where
  pub stt_slots : ℕ
  pub stt_active : ℕ
  pub stt_queued : ℕ
  pub stt_stalled : ℕ
  pub llm_slots : ℕ
  pub llm_active : ℕ
  pub llm_queued : ℕ

abbrev pub is_waiting_stt : Phase → Bool
is_waiting_stt waiting_stt = true
is_waiting_stt transcribing = false
is_waiting_stt waiting_llm = false
is_waiting_stt summarizing = false

abbrev pub is_waiting_llm : Phase → Bool
is_waiting_llm waiting_llm = true
is_waiting_llm waiting_stt = false
is_waiting_llm transcribing = false
is_waiting_llm summarizing = false

abbrev pub live_in : Registry → (Phase → Bool) → Chars × Meta → Bool
live_in r p (id, m) = p m.phase && is_live (get? id r.jobs)

abbrev pub is_stuck : Chars × Meta → Bool
is_stuck (id, m) = is_transcribing m.phase && m.warning

unfoldable pub queue_snapshot : ℕ → ℕ → Registry → Queue
queue_snapshot stt_slots llm_slots r = record {
  stt_slots = stt_slots;
  stt_active = r.stt_active;
  stt_queued = length (select (live_in r is_waiting_stt) r.meta);
  stt_stalled = min (length (select is_stuck r.meta)) r.stt_active;
  llm_slots = llm_slots;
  llm_active = r.llm_active;
  llm_queued = length (select (live_in r is_waiting_llm) r.meta);
}

pub data Hint : Type 0 where
  sign_in_again engine_failed engine_silent unreadable_answer : Hint
  out_of_vram : Option (ℕ × ℕ) → Hint
  steps_failed : ℕ → Hint
  poor_quality backend_off suspected_stall blocked_ahead : Hint
  gpu_taken : ℕ → ℕ → Hint
  jobs_ahead : ℕ → Hint
  waits_stt waits_llm waits transcribes works : Hint
  summarizes : Hint
  windows : ℕ → ℕ → Hint
  merges grounds localizes finishes : Hint

-- `_empty_output_hint`.
unfoldable pub empty_output_hint : Diag → Option Hint
empty_output_hint d =
    if not d.summary_empty && not d.actions_empty
    then none
    else (if ltb 0 d.unparsed
        then some unreadable_answer
        else (if ltb 0 d.worker_failures
            then some (steps_failed d.worker_failures)
            else (if d.low_quality
                then some poor_quality
                else (if d.summary_empty && not d.summarized then some backend_off else none))))

abbrev pub counted : Option (ℕ × ℕ) → Hint
counted none = summarizes
counted (some (ready, total)) = if ltb 0 total then windows ready total else summarizes

abbrev pub stage_hint : String → Hint
stage_hint stage =
    if stage == "reduce"
    then merges
    else (if stage == "critic"
        then grounds
        else (if stage == "localize"
            then localizes
            else (if stage == "finalize" then finishes else summarizes)))

-- `_summarizing_hint`.
unfoldable pub summarizing_hint : Option Progress → Hint
summarizing_hint none = summarizes
summarizing_hint (some p) = if p.stage == "analyze" then counted p.count else stage_hint p.stage

-- What an owner polls: the pressure of the GPU comes with its free and required megabytes.
pub record View : Type 0 where
  pub job : Job
  pub phase : Option Phase
  pub warning : Bool
  pub elapsed : Option ℕ
  pub phase_elapsed : Option ℕ
  pub progress : Option Progress
  pub ahead : Option ℕ
  pub queue : Queue

abbrev pub when_live : {A : Type 0} → Job → Option A → Option A
when_live queued o = o
when_live processing o = o
when_live cancelled o = none
when_live (failed c) o = none
when_live (done d) o = none

-- The jobs that wait and were made before.
abbrev pub earlier : Registry → Chars → ℕ → Chars × Meta → Bool
earlier r id created (other, m) =
    not (other == id)
    && is_waiting_stt m.phase
    && ltb m.created_at created
    && is_live (get? other r.jobs)

abbrev pub ahead_of : Registry → Chars → Job → Meta → Option ℕ
ahead_of r id queued m =
    if is_waiting_stt m.phase
    then some (r.stt_active + length (select (earlier r id m.created_at) r.meta))
    else none
ahead_of r id processing m = none
ahead_of r id cancelled m = none
ahead_of r id (failed c) m = none
ahead_of r id (done d) m = none

abbrev pub warned : Job → Bool → Bool
warned j w = is_live (some j) && w

abbrev pub view_of : ℕ → Queue → Chars → Registry → Job → Option Meta → View
view_of now q id r j none = record {
  job = j;
  phase = none;
  warning = false;
  elapsed = none;
  phase_elapsed = none;
  progress = none;
  ahead = none;
  queue = q;
}
view_of now q id r j (some m) = record {
  job = j;
  phase = some m.phase;
  warning = warned j m.warning;
  elapsed = when_live j (some (now - m.created_at));
  phase_elapsed = when_live j (some (now - m.phase_at));
  progress = when_live j m.progress;
  ahead = ahead_of r id j m;
  queue = q;
}

abbrev pub found : ℕ → Queue → Chars → Chars → Registry → Option Job → Option View
found now q id user r none = none
found now q id user r (some j) =
    if owned user (get? id r.owners) then some (view_of now q id r j (get? id r.meta)) else none

-- `ai_job`, with `none` for 404; the hint and the GPU are beside it.
unfoldable pub ai_job : ℕ → ℕ → ℕ → Chars → Chars → Registry → Option View
unfolding queue_snapshot
ai_job now stt_slots llm_slots id user r =
    found now (queue_snapshot stt_slots llm_slots r) id user r (get? id r.jobs)

abbrev pub failed_hint : Option Code → Option (ℕ × ℕ) → Option Hint
failed_hint none gpu = none
failed_hint (some claude_auth_expired) gpu = some sign_in_again
failed_hint (some stt_vram_exhausted) gpu = some (out_of_vram gpu)
failed_hint (some stt_engine_error) gpu = some engine_failed
failed_hint (some stt_stalled) gpu = some engine_silent

abbrev pub is_insufficient : Pressure → Bool
is_insufficient insufficient = true
is_insufficient fine = false
is_insufficient tight = false
is_insufficient unknown = false

abbrev pub line_hint : Option ℕ → Hint
line_hint none = waits_stt
line_hint (some zero) = waits_stt
line_hint (some (suc n)) = jobs_ahead (suc n)

abbrev pub queued_hint : Pressure → ℕ × ℕ → View → Option Phase → Hint
queued_hint p (free, required) v (some waiting_stt) =
    if ltb 0 v.queue.stt_stalled
    then blocked_ahead
    else (if (v.queue.stt_active == 0) && is_insufficient p
        then gpu_taken free required
        else line_hint v.ahead)
queued_hint p g v (some waiting_llm) = waits_llm
queued_hint p g v (some transcribing) = waits
queued_hint p g v (some summarizing) = waits
queued_hint p g v none = waits

abbrev pub processing_hint : Option Progress → Option Phase → Hint
processing_hint g (some transcribing) = transcribes
processing_hint g (some summarizing) = summarizing_hint g
processing_hint g (some waiting_stt) = works
processing_hint g (some waiting_llm) = works
processing_hint g none = works

abbrev pub hint_of : Pressure → ℕ × ℕ → Option (ℕ × ℕ) → View → Job → Option Hint
hint_of p g oom v (failed c) = failed_hint c oom
hint_of p g oom v (done d) = empty_output_hint d
hint_of p g oom v cancelled = none
hint_of p g oom v queued =
    if v.warning then some suspected_stall else some (queued_hint p g v v.phase)
hint_of p g oom v processing =
    if v.warning then some suspected_stall else some (processing_hint v.progress v.phase)

-- `_job_reason_hint`: `oom` is the GPU of a job that failed for want of memory, where it was read.
unfoldable pub job_reason_hint : Pressure → ℕ × ℕ → Option (ℕ × ℕ) → View → Option Hint
unfolding empty_output_hint summarizing_hint
job_reason_hint p g oom v = hint_of p g oom v v.job

-- `_pending_results_locked`: the results that a restart would lose, the oldest first.
pub record Pending : Type 0 where
  pub id : Chars
  pub owner : Option Chars
  pub age : Option ℕ

abbrev pub is_done : Chars × Job → Bool
is_done (id, queued) = false
is_done (id, processing) = false
is_done (id, cancelled) = false
is_done (id, failed c) = false
is_done (id, done d) = true

abbrev pub age_of : ℕ → Option ℕ → Option ℕ
age_of now none = none
age_of now (some at) = some (now - at)

abbrev pub pending : ℕ → Registry → Dict Chars Job → List Pending
pending now r [] = []
pending now r ((id, j) ∷ js) =
    record { id = id; owner = get? id r.owners; age = age_of now (get? id r.finished_at) }
    ∷ pending now r js

abbrev pub age_or_zero : Option ℕ → ℕ
age_or_zero none = 0
age_or_zero (some n) = n

abbrev pub by_age : Pending → List Pending → List Pending
by_age x [] = x ∷ []
by_age x (y ∷ ys) =
    if leb (age_or_zero y.age) (age_or_zero x.age) then x ∷ y ∷ ys else y ∷ by_age x ys

abbrev pub sort_by_age : List Pending → List Pending
sort_by_age [] = []
sort_by_age (x ∷ xs) = by_age x (sort_by_age xs)

abbrev pub owners_of : List Pending → List Chars
owners_of [] = []
owners_of (p ∷ ps) = elim p.owner [ none ↦ owners_of ps | some o ↦ o ∷ owners_of ps ]

pub record PendingResults : Type 0 where
  pub count : ℕ
  pub owners : ℕ
  pub items : List Pending

unfoldable pub pending_results : ℕ → Registry → PendingResults
pending_results now r =
    let items = sort_by_age (pending now r (select is_done r.jobs)) in
    record {
      count = length items;
      owners = length (distinct (owners_of items));
      items = take 20 items;
    }
