-- ===== src/Slack/Requirements.antt =====
-- The requirement dialogue (src/slack_bot/handlers.py): one function per handler, on the
-- conversations and the requirements that the server has taken.
use lb_note.Base.{
  ℕ, Option, none, some, List, [], ◌∷◌, ◌++◌, String, if◌then◌else◌, ◌==◌, string_Eq, nat_Eq,
  list_Eq,
}
use lb_note.Base.Chars.{Chars, strip, is_empty}
use lb_note.Slack.Conversation.{
  State, awaiting_text, awaiting_more, Key, Convos, start, active, set_state, clear,
}

-- The texts that the handlers answer with, one constructor for each.
pub data Message : Type 0 where
  prompt confirm_more finished save_error ask_content : Message
  received : ℕ → Message
  no_email no_account reset_failed dm_failed reset_sent : Message
  unreachable disk_full healthy : Message
  notice_error no_notice post_failed : Message
  notice_text : Chars → Chars → Message
  posted_in : String → Message
  help_text failed : Message

abbrev pub Requirement : Type 0
Requirement = Chars × Option String

pub record Bot : Type 0 where
  pub convos : Convos
  pub saved : List Requirement

-- `_YES`.
abbrev pub yes : Chars
yes = 50696 ∷ []

-- `client.create_requirement`: the server takes the text and answers with its number, or the call
-- raises. The answer is the server's.
abbrev pub taken : Requirement → Bot → Bot
taken r b = record b { saved = b.saved ++ r ∷ [] }

abbrev pub save_and_ask_more : ℕ → Option ℕ → Key → String → Requirement → Bot → Message × Bot
save_and_ask_more later none k user r b = (save_error, b)
save_and_ask_more later (some n) k user r b =
    (confirm_more, record (taken r b) { convos = set_state later k user awaiting_more b.convos })

abbrev pub save_once : Option ℕ → Requirement → Bot → Message × Bot
save_once none r b = (save_error, b)
save_once (some n) r b = (received n, taken r b)

-- `requirement_start`; the thread is the second half of the key, and empty for a slash command.
unfoldable pub requirement_start :
    ℕ → ℕ → Option ℕ → Key → String → Chars → Option String → Bot → Message × Bot
requirement_start now later answer k user inline reporter b =
    if k.1 == ""
    then (if is_empty (strip inline)
        then (ask_content, b)
        else save_once answer (strip inline, reporter) b)
    else (if is_empty (strip inline)
        then (prompt, record b { convos = start now k user awaiting_text b.convos })
        else save_and_ask_more later answer k user (strip inline, reporter)
            (record b { convos = start now k user awaiting_text b.convos }))

-- What follows in `requirement_reply` once the state is known.
abbrev pub reply_in :
    ℕ → Option ℕ → Key → String → Chars → Option String → Option State → Bot → Option Message × Bot
reply_in later answer k user body reporter none b = (none, b)
reply_in later answer k user body reporter (some awaiting_more) b =
    if body == yes
    then (some prompt, record b { convos = set_state later k user awaiting_text b.convos })
    else (some finished, record b { convos = clear k b.convos })
reply_in later answer k user body reporter (some awaiting_text) b =
    if is_empty body
    then (some prompt, b)
    else (let (m, b') = save_and_ask_more later answer k user (body, reporter) b in (some m, b'))

-- `requirement_reply`.
unfoldable pub requirement_reply :
    ℕ → ℕ → Option ℕ → Key → String → Chars → Option String → Bot → Option Message × Bot
requirement_reply now later answer k user text reporter b =
    let (s, convos) = active now k user b.convos in
    reply_in later answer k user (strip text) reporter s (record b { convos = convos })
