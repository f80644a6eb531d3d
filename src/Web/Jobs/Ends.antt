-- ===== src/Web/Jobs/Ends.antt =====
-- The thread of a job comes to its end and leaves nothing held (src/web/app.py).
use lb_note.Base.{
  ℕ, ◌+◌, ◌≡◌, Option, none, some, Bool, true, false, List, [], ◌∷◌, nat_Eq, list_Eq, is_in,
}
use lb_note.Base.Dict.{get?}
use lb_note.Base.Chars.{Chars}
use lb_note.Web.Jobs.Registry.{Job, is_terminal, Registry}
use lb_note.Web.Jobs.Worker.{
  Stage, before_stt, let_in, in_stt, between, before_llm, in_llm, ended, Answer, advance, weight,
  in_stt_call, holds_llm,
}

-- The thread with nobody between its stages: the answers to its calls, one for each stage.
unfoldable pub run : ℕ → Chars → List Answer → Stage × Registry → Stage × Registry
run now id [] at = at
run now id (a ∷ rest) (w, r) = run now id rest (advance now id a w r)

-- Stages that are left at most.
abbrev rank : Stage → ℕ
rank before_stt = 6
rank let_in = 5
rank in_stt = 4
rank between = 3
rank before_llm = 2
rank in_llm = 1
rank ended = 0

abbrev over : Option Job → Bool
over none = false
over (some j) = is_terminal j

-- At its end a job has a status that stays, and no event.
abbrev Closed : Chars → Stage × Registry → Type 0
Closed id (before_stt, r) = Unit {0}
Closed id (let_in, r) = Unit {0}
Closed id (in_stt, r) = Unit {0}
Closed id (between, r) = Unit {0}
Closed id (before_llm, r) = Unit {0}
Closed id (in_llm, r) = Unit {0}
Closed id (ended, r) = (over (get? id r.jobs) ≡ true) × (is_in id r.cancels ≡ false)

-- What a thread holds on top of what was held.
abbrev Holding : ℕ → ℕ → Stage × Registry → Type 0
Holding stt llm (w, r) =
    (r.stt_active ≡ stt + weight (in_stt_call w)) × (r.llm_active ≡ llm + weight (holds_llm w))
