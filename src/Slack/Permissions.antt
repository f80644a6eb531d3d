-- ===== src/Slack/Permissions.antt =====
-- Whom the bot serves (src/slack_bot/bot.py and handlers.py).
use lb_note.Base.{
  ℕ, ◌≡◌, refl, sym, ap, ◌∙◌, ==_iff, Option, none, some, true, ◌||◌, List, [], String, ◌==◌,
  string_Eq, Bool-cases, inl, inr, All, true≢false,
}
use lb_note.Base.Chars.{Chars, strip, is_empty}
use lb_note.Slack.Conversation.{State}
use lb_note.Slack.Requirements.{Message, Bot}
use lb_note.Slack.Commands.{
  Call, reset_password, direct, post, Reset, done, not_found, refused, broke, World, reset_answer,
  reset_of, handle_reset, role_of, is_admin, notice_of, handle_notice,
}
use lb_note.Slack.Bot.{
  Command, reset, status, notice, requirement, help, said, answered, run_command, dispatch, Event,
  mention_in, handle_message_event, route_mention, channel_allowed,
}

-- Only the account named like the email of the caller's own profile is reset, only the caller gets a
-- password, and a text is posted in a channel only where the account of that email is an administrator's.
abbrev pub Permitted : World → String → Call → Type 0
Permitted w user (reset_password name pw) = w.email user ≡ some name
Permitted w user (direct to pw) = to ≡ user
Permitted w user (post channel m) =
    (name : String) × (w.email user ≡ some name) × (w.role name ≡ some "admin")

reset_answer-Permitted :
    (w : World) (user name : String) (r : Reset)
    → w.email user ≡ some name
    → All (Permitted w user) (reset_answer w user name r).1
reset_answer-Permitted w user name done e = (e, (refl, tt))
reset_answer-Permitted w user name not_found e = (e, tt)
reset_answer-Permitted w user name refused e = (e, tt)
reset_answer-Permitted w user name broke e = (e, tt)

reset_of-Permitted :
    (w : World) (user : String) (email : Option String)
    → w.email user ≡ email
    → All (Permitted w user) (reset_of w user email).1
reset_of-Permitted w user none e = tt
reset_of-Permitted w user (some name) e = elim (Bool-cases (name == "")) [
  | inl y ↦ rw y tt
  | inr n ↦ rw n (reset_answer-Permitted w user name w.reset e)
]

-- Who passes the test for an administrator.
admin_email :
    (w : World) (o : Option String)
    → is_admin (role_of w o) ≡ true
    → (name : String) × (o ≡ some name) × (w.role name ≡ some "admin")
admin_email w none h = absurd (true≢false (sym h))
admin_email w (some name) h = elim (Bool-cases (name == "")) [
  | inl y ↦ absurd (true≢false (sym h ∙ rw y refl))
  | inr n ↦ (name, refl, admin_role (w.role name) (sym (rw n refl) ∙ h))
]
  where
    admin_role : (r : Option String) → is_admin r ≡ true → r ≡ some "admin"
    admin_role none h = absurd (true≢false (sym h))
    admin_role (some r) h = ap some ((==_iff r "admin").0 h)

notice_of-Permitted :
    (w : World) (user channel : String) (n : Option (Option (Chars × Chars)))
    → All (Permitted w user) (notice_of w channel user n).1
notice_of-Permitted w user channel none = tt
notice_of-Permitted w user channel (some none) = tt
notice_of-Permitted w user channel (some (some (title, body))) =
    elim (Bool-cases (is_empty (strip body))) [
      | inl y ↦ rw y tt
      | inr n ↦ elim (Bool-cases (is_admin (role_of w (w.email user)))) [
        | inl a ↦ rw (n, a) (admin_email w (w.email user) a, tt)
        | inr o ↦ rw (n, o) tt
      ]
    ]

said-calls : (r : Option Message × List Call) → (said r).calls ≡ r.1
said-calls (none, cs) = refl
said-calls (some m, cs) = refl

run_command-Permitted :
    (w : World) (now later : ℕ) (c : Option Command) (rest : Chars) (user channel thread : String)
    (b : Bot)
    → All (Permitted w user) (run_command w now later c rest user channel thread b).0.calls
unfolding handle_reset handle_notice
run_command-Permitted w now later (some reset) rest user channel thread b =
    rw (said-calls (handle_reset w user)) (reset_of-Permitted w user (w.email user) refl)
run_command-Permitted w now later (some status) rest user channel thread b = tt
run_command-Permitted w now later (some notice) rest user channel thread b =
    notice_of-Permitted w user channel w.notice
run_command-Permitted w now later (some requirement) rest user channel thread b = tt
run_command-Permitted w now later (some help) rest user channel thread b = tt
run_command-Permitted w now later none rest user channel thread b = tt

dispatch-Permitted :
    (w : World) (now later : ℕ) (text : Chars) (user channel thread : String) (b : Bot)
    → All (Permitted w user) (dispatch w now later text user channel thread b).0.calls
unfolding dispatch
dispatch-Permitted w now later text user channel thread b =
    elim (Bool-cases (channel_allowed w channel)) [
      | inl y ↦ rw y (run_command-Permitted w now later _ _ user channel thread b)
      | inr n ↦ rw n tt
    ]

answered-calls : (t : String) (r : Option Message × Bot) → (answered t r).0.calls ≡ []
answered-calls t (none, b) = refl
answered-calls t (some m, b) = refl

mention_in-Permitted :
    (w : World) (now now' later : ℕ) (e : Event) (s : Option State × Bot)
    → All (Permitted w e.user) (mention_in w now now' later e s).0.calls
mention_in-Permitted w now now' later e (some s, b) = rw (answered-calls e.thread_ts _) tt
mention_in-Permitted w now now' later e (none, b) =
    dispatch-Permitted w now' later e.text e.user e.channel _ b

-- Whatever a mention says and whatever the outside answers, the bot resets no account but the one
-- named like the email that Slack answers for the caller, sends a password to nobody but the caller, and
-- posts a notice only where the server's role for that email is that of an administrator.
pub route_mention-Permitted :
    (w : World) (now now' later : ℕ) (e : Event) (b : Bot)
    → All (Permitted w e.user) (route_mention w now now' later e b).0.calls
unfolding route_mention
route_mention-Permitted w now now' later e b = elim (Bool-cases (e.thread_ts == "")) [
  | inl y ↦ rw y (dispatch-Permitted w now' later e.text e.user e.channel e.ts b)
  | inr n ↦ rw n (mention_in-Permitted w now now' later e _)
]

-- What is said is said in that thread.
abbrev pub InThread : String → Option String × Message → Type 0
InThread t (where', m) = where' ≡ some t

answered-InThread : (t : String) (r : Option Message × Bot) → All (InThread t) (answered t r).0.says
answered-InThread t (none, b) = tt
answered-InThread t (some m, b) = (refl, tt)

-- A message without a mention never runs a command: the bot makes no call of one, says things only in
-- the thread of the message, and leaves the state as it is on a message that a bot wrote, that has a
-- subtype, or that stands in no thread.
pub handle_message_event_quiet :
    (w : World) (now later : ℕ) (e : Event) (b : Bot)
    → ((handle_message_event w now later e b).0.calls ≡ [])
      × All (InThread e.thread_ts) (handle_message_event w now later e b).0.says
      × ((e.bot_id || e.subtype || (e.thread_ts == "")) ≡ true
          → (handle_message_event w now later e b).1 ≡ b)
unfolding handle_message_event
handle_message_event_quiet w now later e b = elim (Bool-cases (e.bot_id || e.subtype)) [
  | inl y ↦ rw y (refl, tt, λ h. refl)
  | inr n ↦ elim (Bool-cases (e.thread_ts == "")) [
    | inl t ↦ rw (n, t) (refl, tt, λ h. refl)
    | inr f ↦
        rw (n, f)
          (
            answered-calls e.thread_ts _,
            answered-InThread e.thread_ts _,
            λ h. absurd (true≢false (sym h)),
          )
  ]
]
