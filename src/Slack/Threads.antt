-- ===== src/Slack/Threads.antt =====
-- Conversations over time (src/slack_bot/conversation.py) and over sequences of messages.
use lb_note.Base.{
  ℕ, ◌+◌, ◌≤◌, ◌≡◌, ◌≢◌, refl, Option, none, some, true, false, not, List, [], ◌∷◌, String, ◌==◌,
  ==_refl, string_Eq, pair_Eq, nat_Eq, list_Eq, Bool-cases, inl, inr, ne→beq, ap, sym, le→ltb, All,
  All-append,
}
use lb_note.Base.Dict.{get?, put}
use lb_note.Base.Chars.{Chars, strip, is_empty}
use lb_note.Slack.Conversation.{
  State, awaiting_text, awaiting_more, Convo, Key, Convos, ttl, alive, sweep, start, active,
}
use lb_note.Slack.Requirements.{
  prompt, Requirement, Bot, yes, save_and_ask_more, save_once, requirement_start, requirement_reply,
  reply_in,
}

-- What is put into the dict outlives a sweep that it is alive for.
get?-sweep :
    (now : ℕ) (k : Key) (c : Convo) (d : Convos)
    → alive now (k, c) ≡ true
    → get? k (sweep now (put k c d)) ≡ some c
unfolding get? put
get?-sweep now k c [] h = rw (h, ==_refl k) refl
get?-sweep now k c ((j, w) ∷ d) h = elim (Bool-cases (j == k)) [
  | inl y ↦ rw (y, h, y) refl
  | inr n ↦ elim (Bool-cases (alive now (j, w))) [
    | inl a ↦ rw (n, a, n) (get?-sweep now k c d h)
    | inr g ↦ rw (n, g) (get?-sweep now k c d h)
  ]
]

-- `requirement_start` without a text, in a thread, asks for the text and opens a conversation of the
-- user there, which waits for five minutes.
pub requirement_start_waits :
    (now now' later : ℕ) (answer : Option ℕ) (k : Key) (user : String) (inline : Chars)
    (reporter : Option String) (b : Bot)
    → k.1 ≢ ""
    → strip inline ≡ []
    → later ≤ now + ttl
    → ((requirement_start now now' answer k user inline reporter b).0 ≡ prompt)
      × (get? k (sweep later (requirement_start now now' answer k user inline reporter b).1.convos)
          ≡ some (record { user = user; state = awaiting_text; at = now }))
unfolding requirement_start start
requirement_start_waits now now' later answer k user inline reporter b thread text soon =
    let opened : Convo = record { user = user; state = awaiting_text; at = now } in
    rw (ne→beq "" k.1 (λ q. thread (sym q)), text)
      (
        refl,
        get?-sweep later k opened (sweep now b.convos) (ap not (le→ltb (now + ttl) later soon)),
      )

-- What the bot is asked, with the clock and the answer of the server.
pub data Event : Type 0 where
  started replied : ℕ → ℕ → Option ℕ → Key → String → Chars → Option String → Event

abbrev pub handle : Event → Bot → Bot
handle (started now later answer k user text reporter) b =
    (requirement_start now later answer k user text reporter b).1
handle (replied now later answer k user text reporter) b =
    (requirement_reply now later answer k user text reporter b).1

abbrev pub handle_all : List Event → Bot → Bot
handle_all [] b = b
handle_all (e ∷ es) b = handle_all es (handle e b)

abbrev pub Says : Requirement → Type 0
Says r = is_empty r.0 ≡ false

save_and_ask_more-Says :
    (later : ℕ) (answer : Option ℕ) (k : Key) (user : String) (r : Requirement) (b : Bot)
    → Says r
    → All Says b.saved
    → All Says (save_and_ask_more later answer k user r b).1.saved
save_and_ask_more-Says later none k user r b s h = h
save_and_ask_more-Says later (some n) k user r b s h = All-append Says b.saved (r ∷ []) h (s, tt)

save_once-Says :
    (answer : Option ℕ) (r : Requirement) (b : Bot)
    → Says r
    → All Says b.saved
    → All Says (save_once answer r b).1.saved
save_once-Says none r b s h = h
save_once-Says (some n) r b s h = All-append Says b.saved (r ∷ []) h (s, tt)

start-Says :
    (now later : ℕ) (answer : Option ℕ) (k : Key) (user : String) (text : Chars)
    (reporter : Option String) (b : Bot)
    → All Says b.saved
    → All Says (requirement_start now later answer k user text reporter b).1.saved
unfolding requirement_start
start-Says now later answer k user text reporter b h = elim (Bool-cases (k.1 == "")) [
  | inl slash ↦ elim (Bool-cases (is_empty (strip text))) [
    | inl blank ↦ rw (slash, blank) h
    | inr says ↦ rw (slash, says) (save_once-Says answer (strip text, reporter) b says h)
  ]
  | inr thread ↦ elim (Bool-cases (is_empty (strip text))) [
    | inl blank ↦ rw (thread, blank) h
    | inr says ↦
        rw (thread, says)
          (save_and_ask_more-Says later answer k user (strip text, reporter)
            (record b { convos = start now k user awaiting_text b.convos }) says h)
  ]
]

reply_in-Says :
    (later : ℕ) (answer : Option ℕ) (k : Key) (user : String) (body : Chars)
    (reporter : Option String) (s : Option State) (b : Bot)
    → All Says b.saved
    → All Says (reply_in later answer k user body reporter s b).1.saved
reply_in-Says later answer k user body reporter none b h = h
reply_in-Says later answer k user body reporter (some awaiting_more) b h =
    elim (Bool-cases (body == yes)) [ inl y ↦ rw y h | inr n ↦ rw n h ]
reply_in-Says later answer k user [] reporter (some awaiting_text) b h = h
reply_in-Says later answer k user (x ∷ body) reporter (some awaiting_text) b h =
    save_and_ask_more-Says later answer k user (x ∷ body, reporter) b refl h

handle-Says : (e : Event) (b : Bot) → All Says b.saved → All Says (handle e b).saved
unfolding requirement_reply
handle-Says (started now later answer k user text reporter) b h =
    start-Says now later answer k user text reporter b h
handle-Says (replied now later answer k user text reporter) b h =
    reply_in-Says later answer k user (strip text) reporter (active now k user b.convos).0
      (record b { convos = (active now k user b.convos).1 }) h

-- No sequence of commands and replies saves an empty requirement.
pub handle_all-Says :
    (es : List Event) (b : Bot) → All Says b.saved → All Says (handle_all es b).saved
handle_all-Says [] b h = h
handle_all-Says (e ∷ es) b h = handle_all-Says es (handle e b) (handle-Says e b h)
