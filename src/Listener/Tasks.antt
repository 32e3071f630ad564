-- ===== src/Listener/Tasks.antt =====
-- `ConnectionTasks` of listener/src/connection_tasks.rs: connections that wait for one another. A task runs in
-- steps, each with one access to what the tasks share, so that the steps of several tasks interleave. The flag
-- that `register_success` reads and the notification that may follow are one step.
pub mod Laws
pub mod Progress
use casper_sidecar.Prelude.{
  leb, if◌then◌else◌, ℕ, zero, suc, ◌+◌, ◌≡◌, Bool, true, false, ◌||◌, Option, none, some, List, [],
  ◌∷◌, ◌++◌,
}

-- `permit` is the stored permit of the `Notify`: a task that is woken takes it.
pub record ConnectionTasks : Type 0 where
  pub total : ℕ
  pub successes : ℕ
  pub failure : Bool
  pub permit : Bool

unfoldable pub new : (total : ℕ) → ConnectionTasks
new total = record { total = total; successes = 0; failure = false; permit = false }

-- Where a task stands.
pub data Task : Type 0 where
  -- in `register_success`, after the counter, which then had this value; in `register_failure`,
  -- after the flag; and after `register_failure`
  counted : (successes : ℕ) → Task
  connecting stored failed : Task
  -- in `wait`: at the top of the loop, after no failure was seen, at `notified`, and after it
  entering loading parked woken : Task
  returned : Bool → Task

-- One step of a task; none if it has ended or has to wait. The Boolean is whether the connection,
-- if it is being made, succeeds.
unfoldable pub run_task :
    (connects : Bool) → ConnectionTasks → Task → Option (ConnectionTasks × Task)
run_task true s connecting =
    some (record s { successes = s.successes + 1 }, counted (s.successes + 1))
run_task false s connecting = some (record s { failure = true }, stored)
run_task _ s (counted n) =
    some (if leb s.total n || s.failure then record s { permit = true } else s, entering)
run_task _ s stored = some (record s { permit = true }, failed)
run_task _ s failed = none
run_task _ s entering = some (s, if s.failure then returned false else loading)
run_task _ s loading = some (s, if leb s.total s.successes then returned true else parked)
run_task _ s parked = if s.permit then some (record s { permit = false }, woken) else none
run_task _ s woken = some (record s { permit = true }, entering)
run_task _ s (returned b) = none

pub record System : Type 0 where
  pub shared : ConnectionTasks
  pub tasks : List Task

abbrev pub repeat : Task → ℕ → List Task
repeat t zero = []
repeat t (suc n) = t ∷ repeat t n

-- Each of `total` tasks has a clone.
abbrev pub initial : (total : ℕ) → System
initial total = record { shared = new total; tasks = repeat connecting total }

-- Any task may take the next step.
pub data Step (s : System) (s' : System) : Type 0 where
  run :
      (connects : Bool) (before : List Task) (t : Task) (after : List Task)
      (later : ConnectionTasks) (t' : Task)
      → s.tasks ≡ before ++ t ∷ after
      → run_task connects s.shared t ≡ some (later, t')
      → s' ≡ record { shared = later; tasks = before ++ t' ∷ after }
      → Step s s'

pub data Reach (s : System) : System → Type 0 where
  here : Reach s s
  next : {t u : System} → Reach s t → Step t u → Reach s u
