-- ===== src/Web/Jobs/Tests.antt =====
-- The jobs at concrete sequences of steps.
use lb_note.Base.{◌≡◌, refl, some, true, false, List, [], ◌∷◌, nat_Eq, list_Eq}
use lb_note.Base.Dict.{get?}
use lb_note.Base.Chars.{Chars}
use lb_note.Web.Jobs.Registry.{queued, processing, cancelled, Registry, empty, purge_finished_jobs}
use lb_note.Web.Jobs.Worker.{
  before_stt, Answer, answered, stopped, System, Limits, Action, submits, goes_on, cancels_job,
  scans, purges, act, acts,
}
use lb_note.Web.Jobs.Slots.{Counted, counters_agree}
use lb_note.Web.Jobs.Cancel.{not_done, cancel_holds}
use lb_note.Web.Jobs.Purge.{purge_effect}

abbrev one : Chars
one = 1 ∷ []

abbrev two : Chars
two = 2 ∷ []

abbrev kim : Chars
kim = 107 ∷ 105 ∷ 109 ∷ []

abbrev limits : Limits
limits = record { stt_slots = 1; llm_slots = 1; retention = 100; stall = 50; mark_error = true }

abbrev start : System
start = record { registry = empty; workers = [] }

abbrev good : Answer
good = answered (record {
  summary_empty = false;
  actions_empty = false;
  unparsed = 0;
  worker_failures = 0;
  low_quality = false;
  summarized = true;
})

-- Two jobs and one slot; the first stalls and is marked, and the second goes on when it lets go.
abbrev stall : List Action
stall =
    submits 1 one kim
    ∷ submits 2 two kim
    ∷ goes_on 3 one good
    ∷ goes_on 4 one good
    ∷ goes_on 5 two good
    ∷ scans 90
    ∷ goes_on 91 one good
    ∷ goes_on 92 two good
    ∷ goes_on 93 one good
    ∷ purges 94
    ∷ []

counters_agree_example : Counted limits (acts limits stall start)
counters_agree_example = counters_agree limits stall

abbrev waiting : System
waiting = record {
  registry = record empty {
    jobs = (one, queued) ∷ [];
    owners = (one, kim) ∷ [];
    cancels = one ∷ [];
  };
  workers = (one, before_stt) ∷ [];
}

cancel_holds_example :
    not_done (
      get? one
        (acts limits
          (goes_on 3 one good ∷ goes_on 4 one good ∷ [])
          (act limits (cancels_job one kim) waiting)).registry.jobs)
    ≡ true
unfolding get?
cancel_holds_example =
    cancel_holds limits one kim waiting (goes_on 3 one good ∷ goes_on 4 one good ∷ []) refl refl
      refl refl

abbrev six : List Answer
six = good ∷ good ∷ good ∷ good ∷ good ∷ stopped ∷ []

-- A job that was cancelled, first seen so at 5.
abbrev old : Registry
old = record empty { jobs = (one, cancelled) ∷ (two, processing) ∷ []; finished_at = (one, 5) ∷ [] }

purge_effect_example : get? two (purge_finished_jobs 200 100 old).1.jobs ≡ some processing
unfolding get?
purge_effect_example = purge_effect 200 100 two old processing (refl, (refl, tt)) (refl, tt) refl
