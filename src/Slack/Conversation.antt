-- ===== src/Slack/Conversation.antt =====
-- The conversations that wait for an answer (src/slack_bot/conversation.py), with the monotonic clock
-- in microseconds.
use lb_note.Base.{
  ℕ, ◌+◌, Option, none, some, Bool, not, String, ltb, if◌then◌else◌, select, ◌==◌, string_Eq,
  pair_Eq,
}
use lb_note.Base.Dict.{Dict, get?, put, remove}

pub data State : Type 0 where
  awaiting_text awaiting_more : State

pub record Convo : Type 0 where
  pub user : String
  pub state : State
  pub at : ℕ

abbrev pub Key : Type 0
Key = String × String

abbrev pub Convos : Type 0
Convos = Dict Key Convo

-- `TTL_SEC`.
abbrev pub ttl : ℕ
ttl = 300000000

-- `now - v["at"] <= TTL_SEC`.
abbrev pub alive : ℕ → Key × Convo → Bool
alive now (k, c) = not (ltb (c.at + ttl) now)

abbrev pub sweep : ℕ → Convos → Convos
sweep now d = select (alive now) d

unfoldable pub start : ℕ → Key → String → State → Convos → Convos
start now k user s d = put k (record { user = user; state = s; at = now }) (sweep now d)

-- The tail of `get`: another user's conversation is not shown.
abbrev pub shown : ℕ → Key → String → Option Convo → Convos → Option State × Convos
shown now k user none d = (none, d)
shown now k user (some c) d =
    if c.user == user then (some c.state, put k (record c { at = now }) d) else (none, d)

-- `get`.
unfoldable pub active : ℕ → Key → String → Convos → Option State × Convos
active now k user d = shown now k user (get? k (sweep now d)) (sweep now d)

abbrev pub moved : ℕ → Key → String → State → Option Convo → Convos → Convos
moved now k user s none d = d
moved now k user s (some c) d =
    if c.user == user then put k (record c { state = s; at = now }) d else d

unfoldable pub set_state : ℕ → Key → String → State → Convos → Convos
set_state now k user s d = moved now k user s (get? k d) d

unfoldable pub clear : Key → Convos → Convos
clear k d = remove k d
