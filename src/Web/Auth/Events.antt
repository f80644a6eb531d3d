-- ===== src/Web/Auth/Events.antt =====
-- The events of `UserStore` that diagnose a user's trouble (src/web/auth.py), the newest first. The
-- `LIKE` of SQLite is an argument; times are seconds.
use lb_note.Base.{
  ℕ, ◌+◌, ◌-◌, min, max, Option, none, some, Bool, true, not, ◌&&◌, List, [], ◌∷◌, if◌then◌else◌,
  ltb, ◌==◌, nat_Eq, list_Eq, select, length, take,
}
use lb_note.Base.Chars.{Chars}

pub record UserEvent : Type 0 where
  pub ts : ℕ
  pub owner : Chars
  pub event : Chars
  pub detail : Option Chars

-- `record_user_event`, when the database takes the row; one that it refuses is dropped.
unfoldable pub record_user_event :
    Bool → ℕ → Chars → Chars → Option Chars → List UserEvent → List UserEvent
record_user_event taken now owner event detail es =
    if taken then record { ts = now; owner = owner; event = event; detail = detail } ∷ es else es

-- A filter that is absent or empty lets everything through.
abbrev pub lets : (Chars → Bool) → Option Chars → Bool
lets test none = true
lets test (some []) = true
lets test (some (c ∷ s)) = test (c ∷ s)

-- `list_user_events`; a negative limit is given as 0.
unfoldable pub list_user_events :
    (Chars → Chars → Bool) → Option Chars → Option Chars → ℕ → List UserEvent → List UserEvent
list_user_events like owner prefix limit es =
    take (max 1 (min limit 500))
      (select (λ e. lets (λ o. e.owner == o) owner && lets (λ p. like p e.event) prefix) es)

-- The rows that the age lets stay.
abbrev pub recent : ℕ → ℕ → List UserEvent → List UserEvent
recent now max_age es = select (λ e. not (ltb e.ts (now - max_age))) es

-- `prune_user_events`: how many rows go, and those that stay; a negative bound is given as 0.
unfoldable pub prune_user_events : ℕ → ℕ → ℕ → List UserEvent → ℕ × List UserEvent
prune_user_events now max_age max_rows es =
    let kept = take (max 1 max_rows) (recent now max_age es) in
    (
      (length es - length (recent now max_age es)) + (length (recent now max_age es) - length kept),
      kept,
    )
