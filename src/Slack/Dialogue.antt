-- ===== src/Slack/Dialogue.antt =====
-- What the requirement dialogue (src/slack_bot/handlers.py) does to a thread.
use lb_note.Base.{
  ℕ, ◌≡◌, ◌≢◌, refl, Option, none, some, true, List, [], ◌∷◌, ◌++◌, String, if◌then◌else◌, ◌==◌,
  ==_refl, ==_iff, string_Eq, pair_Eq, nat_Eq, list_Eq, Bool-cases, Option-cases, inl, inr, ne→beq,
  ap, sym, ◌∙◌,
}
use lb_note.Base.Dict.{get?, put, remove, get?-put, get?-remove}
use lb_note.Base.Chars.{Chars, strip}
use lb_note.Slack.Conversation.{
  State, awaiting_text, awaiting_more, Convo, Key, Convos, sweep, active, set_state, clear,
}
use lb_note.Slack.Requirements.{
  Message, prompt, confirm_more, finished, save_error, Requirement, Bot, yes, requirement_reply,
  reply_in,
}

-- What a dialogue is meant to do with an answer: the message, the state of the thread, and what is
-- saved.
abbrev pub thread_step :
    State → Chars → Option ℕ → Option String → Message × Option State × List Requirement
thread_step awaiting_more body answer reporter =
    if body == yes then (prompt, some awaiting_text, []) else (finished, none, [])
thread_step awaiting_text [] answer reporter = (prompt, some awaiting_text, [])
thread_step awaiting_text (c ∷ body) none reporter = (save_error, some awaiting_text, [])
thread_step awaiting_text (c ∷ body) (some n) reporter =
    (confirm_more, some awaiting_more, (c ∷ body, reporter) ∷ [])

abbrev pub state_of : Option Convo → Option State
state_of none = none
state_of (some c) = some c.state

abbrev pub After : Key → Bot → Convos → Option State → List Requirement → Bot → Type 0
After k b d s new b' =
    (state_of (get? k b'.convos) ≡ s)
    × (b'.saved ≡ b.saved ++ new)
    × ((j : Key) → k ≢ j → get? j b'.convos ≡ get? j d)

abbrev pub Stepped :
    Key → Bot → Convos → Message × Option State × List Requirement → Option Message × Bot → Type 0
Stepped k b d (m, s, new) (m', b') = (m' ≡ some m) × (After k b d s new b')

append_nil : (xs : List Requirement) → xs ≡ xs ++ []
append_nil [] = refl
append_nil (x ∷ xs) = ap (λ r. x ∷ r) (append_nil xs)

put_ne : (j k : Key) (c : Convo) (d : Convos) → k ≢ j → get? j (put k c d) ≡ get? j d
put_ne j k c d ne = simp (get?-put, ne→beq j k (λ q. ne (sym q)))

remove_ne : (j k : Key) (d : Convos) → k ≢ j → get? j (remove k d) ≡ get? j d
remove_ne j k d ne = simp (get?-remove, ne→beq j k (λ q. ne (sym q)))

put_same : (k : Key) (c : Convo) (d : Convos) → get? k (put k c d) ≡ some c
put_same k c d = simp (get?-put, ==_refl k)

remove_same : (k : Key) (d : Convos) → get? k (remove k d) ≡ none
remove_same k d = simp (get?-remove, ==_refl k)

stays :
    (k : Key) (c : Convo) (d : Convos) (b : Bot) (s : State)
    → b.convos ≡ put k c d
    → c.state ≡ s
    → After k b d (some s) [] b
stays k c d b s e q =
    (rw (e, put_same k c d) (ap some q), append_nil b.saved, λ j ne. rw e (put_ne j k c d ne))

reply_in_lem :
    (later : ℕ) (answer : Option ℕ) (k : Key) (user : String) (body : Chars)
    (reporter : Option String) (s : State) (c : Convo) (d : Convos) (b : Bot)
    → (c.user == user) ≡ true
    → c.state ≡ s
    → b.convos ≡ put k c d
    → Stepped k b d
        (thread_step s body answer reporter)
        (reply_in later answer k user body reporter (some s) b)
unfolding set_state clear
reply_in_lem later answer k user body reporter awaiting_more c d b o q e =
    elim (Bool-cases (body == yes)) [
      | inl y ↦
          rw (y, e, put_same k c d, o)
            (
              refl,
              (
                rw (put_same k (record c { state = awaiting_text; at = later }) (put k c d)) refl,
                append_nil b.saved,
                λ j ne. put_ne j k _ (put k c d) ne ∙ put_ne j k c d ne,
              ),
            )
      | inr n ↦
          rw (n, e)
            (
              refl,
              (
                rw (remove_same k (put k c d)) refl,
                append_nil b.saved,
                λ j ne. remove_ne j k (put k c d) ne ∙ put_ne j k c d ne,
              ),
            )
    ]
reply_in_lem later answer k user [] reporter awaiting_text c d b o q e =
    (refl, stays k c d b awaiting_text e q)
reply_in_lem later none k user (x ∷ body) reporter awaiting_text c d b o q e =
    (refl, stays k c d b awaiting_text e q)
reply_in_lem later (some n) k user (x ∷ body) reporter awaiting_text c d b o q e =
    rw (e, put_same k c d, o)
      (
        refl,
        (
          rw (put_same k (record c { state = awaiting_more; at = later }) (put k c d)) refl,
          refl,
          λ j ne. put_ne j k _ (put k c d) ne ∙ put_ne j k c d ne,
        ),
      )

-- A reply in a thread whose conversation is alive and belongs to the user follows the dialogue: the
-- answer, the state in which the thread is left (or that it is closed) and what is saved are those of
-- `thread_step` on the stripped text. The conversations of the other threads are those that have not
-- run out.
pub requirement_reply_effect :
    (now later : ℕ) (answer : Option ℕ) (k : Key) (user : String) (text : Chars)
    (reporter : Option String) (b : Bot) {c : Convo}
    → get? k (sweep now b.convos) ≡ some c
    → c.user ≡ user
    → Stepped k b
        (sweep now b.convos)
        (thread_step c.state (strip text) answer reporter)
        (requirement_reply now later answer k user text reporter b)
unfolding requirement_reply active
requirement_reply_effect now later answer k user text reporter b {c = c} h o =
    let owner = (==_iff c.user user).1 o in
    rw (h, owner)
      (reply_in_lem later answer k user (strip text) reporter c.state (record c { at = now })
        (sweep now b.convos)
        (record b { convos = put k (record c { at = now }) (sweep now b.convos) }) owner refl refl)

-- A reply by anyone else, or in a thread with no conversation that is alive, is ignored: it gets no
-- answer, saves nothing and takes away only conversations that have run out.
pub requirement_reply_ignored :
    (now later : ℕ) (answer : Option ℕ) (k : Key) (user : String) (text : Chars)
    (reporter : Option String) (b : Bot)
    → ((c : Convo) → get? k (sweep now b.convos) ≡ some c → c.user ≢ user)
    → requirement_reply now later answer k user text reporter b
      ≡ (none, record b { convos = sweep now b.convos })
unfolding requirement_reply active
requirement_reply_ignored now later answer k user text reporter b h =
    elim (Option-cases (get? k (sweep now b.convos))) [
      | inl n ↦ rw n refl
      | inr (c, e) ↦ rw (e, ne→beq user c.user (λ q. h c e (sym q))) refl
    ]
