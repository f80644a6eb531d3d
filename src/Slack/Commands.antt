-- ===== src/Slack/Commands.antt =====
-- The commands of the bot (src/slack_bot/handlers.py). What Slack and the server answer to a call is
-- an argument, and a handler returns its text, or `none` where it raises, with the calls it makes.
use lb_note.Base.{
  ℕ, ◌*◌, Option, none, some, Bool, false, List, [], ◌∷◌, String, if◌then◌else◌, leb, ◌==◌,
  string_Eq,
}
use lb_note.Base.Chars.{Chars, strip, is_empty}
use lb_note.Slack.Requirements.{
  Message, no_email, no_account, reset_failed, dm_failed, reset_sent, unreachable, disk_full,
  healthy, notice_error, no_notice, post_failed, notice_text, posted_in,
}

-- Calls that change something outside: a password that is set, a direct message with a password to
-- a user, a text posted in a channel.
pub data Call : Type 0 where
  reset_password : String → String → Call
  direct : String → String → Call
  post : String → Message → Call

-- `reset_password` returns, raises `UserNotFound` or another `LBNoteError`, or something else.
pub data Reset : Type 0 where
  done not_found refused broke : Reset

-- What is outside answers.
pub record World : Type 0 where
  -- The address in the profile that `users_info(user=…)` answers, with none for a call that raises.
  pub email : String → Option String
  pub temp_pw : String
  pub reset : Reset
  pub dm_sent : Bool
  pub up : Bool
  pub disk : Option (ℕ × ℕ)
  pub notice : Option (Option (Chars × Chars))
  pub role : String → Option String
  pub post_sent : Bool
  pub notice_channel : String
  pub allowed : List String
  -- `_reporter_of` of bot.py.
  pub reporter : String → Option String
  pub created : Option ℕ

abbrev pub reset_answer : World → String → String → Reset → Option Message × List Call
reset_answer w user name done = (
  (if w.dm_sent then some reset_sent else some dm_failed),
  reset_password name w.temp_pw ∷ direct user w.temp_pw ∷ [],
)
reset_answer w user name not_found = (some no_account, reset_password name w.temp_pw ∷ [])
reset_answer w user name refused = (some reset_failed, reset_password name w.temp_pw ∷ [])
reset_answer w user name broke = (none, reset_password name w.temp_pw ∷ [])

abbrev pub reset_of : World → String → Option String → Option Message × List Call
reset_of w user none = (some no_email, [])
reset_of w user (some name) =
    if name == "" then (some no_email, []) else reset_answer w user name w.reset

-- `handle_reset`.
unfoldable pub handle_reset : World → String → Option Message × List Call
handle_reset w user = reset_of w user (w.email user)

abbrev pub status_of : Option (ℕ × ℕ) → Message
status_of none = healthy
status_of (some (n, d)) = if leb (90 * d) n then disk_full else healthy

-- `handle_status`: the disk's percentage is a quotient, and `none` if it cannot be read.
unfoldable pub handle_status : World → Message
handle_status w = if w.up then status_of w.disk else unreachable

-- The role of the caller: no email, and a lookup that raises, give none.
abbrev pub role_of : World → Option String → Option String
role_of w none = none
role_of w (some name) = if name == "" then none else w.role name

abbrev pub is_admin : Option String → Bool
is_admin none = false
is_admin (some r) = r == "admin"

abbrev pub publish : World → String → Message → Message × List Call
publish w channel text =
    let target = if w.notice_channel == "" then channel else w.notice_channel in
    ((if w.post_sent then posted_in target else post_failed), post target text ∷ [])

abbrev pub notice_of :
    World → String → String → Option (Option (Chars × Chars)) → Message × List Call
notice_of w channel user none = (notice_error, [])
notice_of w channel user (some none) = (no_notice, [])
notice_of w channel user (some (some (title, body))) =
    if is_empty (strip body)
    then (no_notice, [])
    else (if is_admin (role_of w (w.email user))
        then publish w channel (notice_text (strip title) (strip body))
        else (notice_text (strip title) (strip body), []))

-- `handle_notice`; `none` is a lookup of the notice that raises.
unfoldable pub handle_notice : World → String → String → Message × List Call
handle_notice w channel user = notice_of w channel user w.notice

-- `get_user_role` of src/slack_bot/lbnote_client.py, on the list of users that the server answers.
unfoldable pub get_user_role : String → List (String × Option String) → Option String
get_user_role name [] = none
get_user_role name ((user, role) ∷ users) = if user == name then role else get_user_role name users
