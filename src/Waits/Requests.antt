-- ===== src/Waits/Requests.antt =====
-- What the requests and the waiting goroutine remember between their steps
-- (services/api/internal/api/handler/approval.go, session_wait.go, resume.go, runs.go).
use agent_nexus.Prelude.{Bool, List, Option}
use agent_nexus.Prelude.Text.{Text}
use agent_nexus.Run.{Run}
use agent_nexus.Waits.Snapshot.{WaitState, WaitType}
use agent_nexus.Waits.Slot.{Slot}

-- `ApprovalDecision`, or the content of a session's result
pub data Payload : Type 0 where
  decision : Bool → Text → Payload
  content : Text → Payload

-- what a request is answered with, or why a resume ends
pub data Answer : Type 0 where
  bad_request not_found unauthorized internal_error ok ignored delivered resumed skipped : Answer

-- The next step of a request. `Approve` reads the run's status, finds the pending row, decides it and
-- sends; `SessionCallback` sends at once; a sweep of the watchdog starts at its query. When the
-- registry has no entry both claim the snapshot, load the agent, and start the run. `Cancel` writes
-- the status, stops the goroutine and deletes the snapshot.
pub data Request : Type 0 where
  reading finding deciding : Payload → Request
  sweeping sending delivering claiming failing : Payload → Request
  holding starting : WaitState → Payload → Request
  cancelling stopping deleting : Request
  answered : Answer → Request

-- The goroutine: it registers, saves and marks the row in the order of its wait, blocks, and is left
-- with a payload or without one. `reclaimed` and `abandoned` return false from the wait, the second
-- after five seconds without the value of a sender that took the entry.
pub data Waiter : Type 0 where
  marking saving registering waiting expired grace reclaiming : Waiter
  received clearing continued : Payload → Waiter
  reclaimed abandoned broken : Waiter

-- `wait_type`, and whether the run may park, which the gate and the session wait decide each by its
-- own test
pub record Setting : Type 0 where
  pub kind : WaitType
  pub parks : Bool
  pub snapshot : WaitState

-- what the database and the clock do at a step
pub record Outside : Type 0 where
  pub db_ok : Bool
  pub agent_found : Bool
  pub timed_out : Bool

pub record World : Type 0 where
  pub run : Run
  pub ctx_done : Bool
  pub pending : Bool
  pub row : Option WaitState
  pub slot : Slot Payload
  pub waiter : Waiter
  pub requests : List Request
  pub executions : List (WaitState × Payload)
