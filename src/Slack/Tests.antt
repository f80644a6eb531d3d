-- ===== src/Slack/Tests.antt =====
-- Runs of the Slack bot (src/slack_bot), and its theorems at concrete inputs.
use lb_note.Base.{
  if◌then◌else◌, ◌==◌, true≢false, sym, ==_iff, ◌≡◌, refl, none, some, true, false, List, [], ◌∷◌,
  string_Eq, pair_Eq, nat_Eq, arith, All, ==_iff,
}
use lb_note.Base.Dict.{get?, put}
use lb_note.Base.Chars.{Chars, strip}
use lb_note.Slack.Conversation.{awaiting_text, awaiting_more, Key, sweep, active, set_state}
use lb_note.Slack.Requirements.{prompt, confirm_more, Bot, requirement_start, requirement_reply}
use lb_note.Slack.Dialogue.{
  Stepped, thread_step, requirement_reply_effect, requirement_reply_ignored,
}
use lb_note.Slack.Threads.{
  requirement_start_waits, Event, started, replied, handle_all, Says, handle_all-Says,
}
use lb_note.Slack.Commands.{World, done, reset_password, direct, handle_reset}
use lb_note.Slack.Bot as Routing
use lb_note.Slack.Bot.{dispatch, route_mention, handle_message_event, strip_mention}
use lb_note.Slack.Permissions.{
  Permitted, InThread, route_mention-Permitted, handle_message_event_quiet,
}

abbrev thread : Key
thread = ("C1", "17.5")

-- The user asked at time 10, and waits for the prompt's answer.
abbrev waiting : Bot
waiting = record {
  convos = (thread, record { user = "U1"; state = awaiting_text; at = 10 }) ∷ [];
  saved = [];
}

-- "hi", with spaces around it.
abbrev hi : Chars
hi = 32 ∷ 104 ∷ 105 ∷ 10 ∷ []

stripped : strip hi ≡ 104 ∷ 105 ∷ []
unfolding strip
stripped = refl

-- A text is saved without the spaces, and the thread waits for a yes.
saved_text : requirement_reply 20 21 (some 7) thread "U1" hi none waiting ≡ (
  some confirm_more,
  record {
    convos = (thread, record { user = "U1"; state = awaiting_more; at = 21 }) ∷ [];
    saved = (104 ∷ 105 ∷ [], none) ∷ [];
  },
)
unfolding requirement_reply active set_state strip get? put
saved_text = refl

found :
    get? thread (sweep 20 waiting.convos)
    ≡ some (record { user = "U1"; state = awaiting_text; at = 10 })
unfolding get?
found = refl

requirement_reply_effect_example :
    Stepped thread waiting
      (sweep 20 waiting.convos)
      (thread_step awaiting_text (strip hi) (some 7) none)
      (requirement_reply 20 21 (some 7) thread "U1" hi none waiting)
requirement_reply_effect_example =
    requirement_reply_effect 20 21 (some 7) thread "U1" hi none waiting
      {c = record { user = "U1"; state = awaiting_text; at = 10 }} found refl

run_out : get? thread (sweep 300000011 waiting.convos) ≡ none
unfolding get?
run_out = refl

requirement_reply_ignored_example :
    requirement_reply 300000011 300000012 none thread "U1" hi none waiting
    ≡ (none, record waiting { convos = sweep 300000011 waiting.convos })
requirement_reply_ignored_example =
    requirement_reply_ignored 300000011 300000012 none thread "U1" hi none waiting
      (λ c h. cc (run_out, h))

blank : strip (32 ∷ []) ≡ []
unfolding strip
blank = refl

requirement_start_waits_example :
    ((requirement_start 10 11 none thread "U2" (32 ∷ []) none waiting).0 ≡ prompt)
    × (get? thread (
          sweep 300000010
            (requirement_start 10 11 none thread "U2" (32 ∷ []) none waiting).1.convos)
        ≡ some (record { user = "U2"; state = awaiting_text; at = 10 }))
requirement_start_waits_example =
    requirement_start_waits 10 11 300000010 none thread "U2" (32 ∷ []) none waiting
      (λ q. true≢false (sym ((==_iff "17.5" "").1 q))) blank (omega arith)

abbrev messages : List Event
messages = started 10 11 none thread "U2" [] none ∷ replied 20 21 (some 1) thread "U2" hi none ∷ []

handle_all-Says_example : All Says (handle_all messages waiting).saved
handle_all-Says_example = handle_all-Says messages waiting tt

abbrev world : World
world = record {
  email = λ user. if user == "U1" then some "kim@lb.kr" else none;
  temp_pw = "s3cret";
  reset = done;
  dm_sent = true;
  up = true;
  disk = some (42, 1);
  notice = some none;
  role = λ name. none;
  post_sent = true;
  notice_channel = "";
  allowed = [];
  reporter = λ user. none;
  created = none;
}

-- "<@U0> reset".
abbrev mention : Routing.Event
mention = record {
  bot_id = false;
  subtype = false;
  thread_ts = "";
  ts = "18.0";
  channel = "C1";
  user = "U1";
  text = 60 ∷ 64 ∷ 85 ∷ 48 ∷ 62 ∷ 32 ∷ 82 ∷ 101 ∷ 115 ∷ 101 ∷ 116 ∷ [];
}

reset_run :
    (route_mention world 10 11 12 mention waiting).0.calls
    ≡ reset_password "kim@lb.kr" "s3cret" ∷ direct "U1" "s3cret" ∷ []
unfolding route_mention dispatch strip_mention strip get? handle_reset
reset_run = refl

route_mention-Permitted_example :
    All (Permitted world "U1") (route_mention world 10 11 12 mention waiting).0.calls
route_mention-Permitted_example = route_mention-Permitted world 10 11 12 mention waiting

handle_message_event_quiet_example :
    ((handle_message_event world 10 11 mention waiting).0.calls ≡ [])
    × All (InThread "") (handle_message_event world 10 11 mention waiting).0.says
    × (true ≡ true → (handle_message_event world 10 11 mention waiting).1 ≡ waiting)
handle_message_event_quiet_example = handle_message_event_quiet world 10 11 mention waiting
