-- ===== src/Slack/Bot.antt =====
-- The routing of messages (src/slack_bot/bot.py).
use lb_note.Base.{
  ℕ, Option, none, some, Bool, false, ◌||◌, ◌&&◌, ◌+◌, List, [], ◌∷◌, String, if◌then◌else◌, leb,
  ◌==◌, string_Eq, nat_Eq, list_Eq,
}
use lb_note.Base.Dict.{Dict, get?}
use lb_note.Base.Chars.{Chars, strip, lstrip, is_space, is_empty}
use lb_note.Slack.Conversation.{State, active}
use lb_note.Slack.Requirements.{
  Message, help_text, failed, Bot, requirement_start, requirement_reply,
}
use lb_note.Slack.Commands.{Call, World, handle_reset, handle_status, handle_notice}

-- `_MENTION_RE.sub("", text)`: a mention at the start, with the spaces around it.
abbrev pub after_name : Chars → Option Chars
after_name [] = none
after_name (c ∷ s) = let rest = after_name s in if c == 62 then some (lstrip s) else rest

-- At least one character stands before the closing bracket.
abbrev pub after_at : Chars → Option Chars
after_at [] = none
after_at (c ∷ s) = if c == 62 then none else after_name s

abbrev pub mention_end : Chars → Option Chars
mention_end [] = none
mention_end (c ∷ []) = none
mention_end (c ∷ d ∷ s) = if (c == 60) && (d == 64) then after_at s else none

abbrev pub or_whole : Chars → Option Chars → Chars
or_whole s none = s
or_whole s (some t) = t

unfoldable pub strip_mention : Chars → Chars
strip_mention s = or_whole s (mention_end (lstrip s))

pub data Command : Type 0 where
  reset status notice requirement help : Command

-- `_ALIASES`.
abbrev pub aliases : Dict Chars Command
aliases =
    (48708 ∷ 48264 ∷ 52488 ∷ 44592 ∷ 54868 ∷ [], reset)
    ∷ (114 ∷ 101 ∷ 115 ∷ 101 ∷ 116 ∷ [], reset)
    ∷ (49345 ∷ 53468 ∷ [], status)
    ∷ (115 ∷ 116 ∷ 97 ∷ 116 ∷ 117 ∷ 115 ∷ [], status)
    ∷ (44277 ∷ 51648 ∷ [], notice)
    ∷ (110 ∷ 111 ∷ 116 ∷ 105 ∷ 99 ∷ 101 ∷ [], notice)
    ∷ (50836 ∷ 44396 ∷ 49324 ∷ 54637 ∷ [], requirement)
    ∷ (114 ∷ 101 ∷ 113 ∷ [], requirement)
    ∷ (104 ∷ 101 ∷ 108 ∷ 112 ∷ [], help)
    ∷ []

-- `lower`, as far as a key of the table can tell: no other capital has one of its letters.
abbrev pub lower : Chars → Chars
lower [] = []
lower (c ∷ s) = (if leb 65 c && leb c 90 then c + 32 else c) ∷ lower s

abbrev pub word : Chars → Chars
word [] = []
word (c ∷ s) = let rest = word s in if is_space c then [] else c ∷ rest

abbrev pub after_word : Chars → Chars
after_word [] = []
after_word (c ∷ s) = let rest = after_word s in if is_space c then c ∷ s else rest

abbrev pub mem : String → List String → Bool
mem x [] = false
mem x (y ∷ ys) = (x == y) || mem x ys

-- `_channel_allowed`.
abbrev pub channel_allowed : World → String → Bool
channel_allowed w channel = is_empty w.allowed || mem channel w.allowed

-- What the bot says, in a thread if one is named, and the calls that it makes.
pub record Out : Type 0 where
  pub says : List (Option String × Message)
  pub calls : List Call

abbrev pub silent : Out
silent = record { says = []; calls = [] }

abbrev pub say : Message → Out
say m = record { says = (none, m) ∷ []; calls = [] }

-- `_say_threaded`.
abbrev pub say_threaded : Message → String → Out
say_threaded m thread = record {
  says = ((if thread == "" then none else some thread), m) ∷ [];
  calls = [];
}

-- A handler that raises is answered with a general text.
abbrev pub said : Option Message × List Call → Out
said (none, cs) = record { says = (none, failed) ∷ []; calls = cs }
said (some m, cs) = record { says = (none, m) ∷ []; calls = cs }

abbrev pub run_command :
    World → ℕ → ℕ → Option Command → Chars → String → String → String → Bot → Out × Bot
run_command w now later (some reset) rest user channel thread b = (said (handle_reset w user), b)
run_command w now later (some status) rest user channel thread b = (say (handle_status w), b)
run_command w now later (some notice) rest user channel thread b =
    let (m, cs) = handle_notice w channel user in (said (some m, cs), b)
run_command w now later (some requirement) rest user channel thread b =
    let (m, b') =
      requirement_start now later w.created (channel, thread) user rest (w.reporter user) b in
    (say_threaded m thread, b')
run_command w now later (some help) rest user channel thread b = (say help_text, b)
run_command w now later none rest user channel thread b = (say help_text, b)

-- `dispatch`.
unfoldable pub dispatch : World → ℕ → ℕ → Chars → String → String → String → Bot → Out × Bot
unfolding strip_mention
dispatch w now later text user channel thread b =
    if channel_allowed w channel
    then (let s = strip (strip_mention text) in
        run_command w now later (get? (lower (word s)) aliases) (strip (after_word s)) user channel
          thread b)
    else (silent, b)

pub record Event : Type 0 where
  pub bot_id : Bool
  pub subtype : Bool
  pub thread_ts : String
  pub ts : String
  pub channel : String
  pub user : String
  pub text : Chars

abbrev pub answered : String → Option Message × Bot → Out × Bot
answered thread (none, b) = (silent, b)
answered thread (some m, b) = (record { says = (some thread, m) ∷ []; calls = [] }, b)

abbrev pub continue_thread : World → ℕ → ℕ → Event → Bot → Out × Bot
continue_thread w now later e b = answered e.thread_ts (
    requirement_reply now later w.created (e.channel, e.thread_ts) e.user
      (strip (strip_mention e.text)) (w.reporter e.user) b)

-- `handle_message_event`.
unfoldable pub handle_message_event : World → ℕ → ℕ → Event → Bot → Out × Bot
handle_message_event w now later e b =
    if e.bot_id || e.subtype
    then (silent, b)
    else (if e.thread_ts == "" then (silent, b) else continue_thread w now later e b)

abbrev pub mention_in : World → ℕ → ℕ → ℕ → Event → Option State × Bot → Out × Bot
mention_in w now now' later e (some s, b) = continue_thread w now' later e b
mention_in w now now' later e (none, b) =
    dispatch w now' later e.text e.user e.channel (if e.thread_ts == "" then e.ts else e.thread_ts)
      b

-- `_route_mention`: the lookup of the conversation is a call of its own, at its own time.
unfoldable pub route_mention : World → ℕ → ℕ → ℕ → Event → Bot → Out × Bot
route_mention w now now' later e b =
    if e.thread_ts == ""
    then mention_in w now now' later e (none, b)
    else (let (s, convos) = active now (e.channel, e.thread_ts) e.user b.convos in
        mention_in w now now' later e (s, record b { convos = convos }))
