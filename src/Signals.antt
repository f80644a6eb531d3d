-- ===== src/Signals.antt =====
-- The channels that a job's thread opens: cancellation (src/cancellation.py) and progress
-- (src/progress.py). A context variable is a part of the state of its thread.
use lb_note.Base.{ℕ, Option, none, some, Bool, true, false, String}

-- A block that runs with the context variable at `x` leaves it as it was, also where it raises.
abbrev pub use_value : {C W A : Type 0} → C → (C → W → A × W) → C → W → A × C × W
use_value x block old w = let (a, w') = block x w in (a, old, w')

-- `threading.Event`, by whether it is set.
abbrev pub CancelContext : Type 0
CancelContext = Option Bool

unfoldable pub use_cancel_event :
    {W A : Type 0}
    → CancelContext
    → (CancelContext → W → A × W)
    → CancelContext
    → W
    → A × CancelContext × W
use_cancel_event event block old w = use_value event block old w

-- `cancel_requested`.
unfoldable pub cancel_requested : CancelContext → Bool
cancel_requested none = false
cancel_requested (some set) = set

pub data Outcome : Type 0 where
  goes_on operation_cancelled : Outcome

abbrev pub outcome : Bool → Outcome
outcome true = operation_cancelled
outcome false = goes_on

-- `raise_if_cancelled`.
unfoldable pub raise_if_cancelled : CancelContext → Outcome
unfolding cancel_requested
raise_if_cancelled c = outcome (cancel_requested c)

-- What is reported: the keys `done` and `total` are left out where they are none.
pub record ProgressEvent : Type 0 where
  pub stage : String
  pub done : Option ℕ
  pub total : Option ℕ

-- A reporter changes the world, and returns or raises.
abbrev pub Reporter : Type 0 → Type 0
Reporter W = ProgressEvent → W → Bool × W

unfoldable pub use_progress :
    {W A : Type 0}
    → Option (Reporter W)
    → (Option (Reporter W) → W → A × W)
    → Option (Reporter W)
    → W
    → A × Option (Reporter W) × W
use_progress reporter block old w = use_value reporter block old w

-- `report`: an exception of the reporter is swallowed.
unfoldable pub report : {W : Type 0} → Option (Reporter W) → String → Option ℕ → Option ℕ → W → W
report none stage finished all w = w
report (some reporter) stage finished all w =
    (reporter (record { stage = stage; done = finished; total = all }) w).1
