-- ===== src/Waits/Handlers.antt =====
-- The requests: `Approve`, `SessionCallback`, the sweep of the watchdog and `Cancel`, with
-- `ResumeApprovedRun` and `ResumeSessionRun` (services/api/internal/api/handler/runs.go,
-- session_wait.go, resume.go, approval.go, wait_state.go). Each step is one operation on the database
-- or on the registry.
use agent_nexus.Prelude.{ℕ, Bool, true, false, not, ◌&&◌, List, ◌∷◌, none, some, if◌then◌else◌}
use agent_nexus.Run.{RunStatus, fail_run, claim_run, cancel_row, fail_inactive}
use agent_nexus.Prelude.Text.{codes}
use agent_nexus.Waits.Snapshot.{
  WaitState, WaitType, same_type, claim_wait_state, delete_wait_state, is_corrupt,
}
use agent_nexus.Waits.Slot.{load_and_delete, send}
use agent_nexus.Waits.Requests.{Payload, Answer, Request, Setting, Outside, World}

abbrev pub kind_of : Payload → WaitType
kind_of (Payload.decision approved input) = WaitType.approval
kind_of (Payload.content text) = WaitType.session

abbrev is_approval_wait : RunStatus → Bool
is_approval_wait RunStatus.approval_wait = true
is_approval_wait _ = false

abbrev is_session_wait : RunStatus → Bool
is_session_wait RunStatus.session_wait = true
is_session_wait _ = false

abbrev answer : World → Answer → World × Request
answer w a = (w, Request.answered a)

-- the registry of the payload's kind is the one that the wait is in
abbrev load_entry : Setting → Payload → World → World × Bool
load_entry s p w =
    let (slot, found) = load_and_delete w.slot in
    if same_type s.kind (kind_of p) then (record w { slot = slot }, found) else (w, false)

-- `claimWaitState` of a request
unfoldable pub claim_step : Outside → World → Payload → World × Request
unfolding claim_wait_state
claim_step o w p =
    let (row, claimed) = claim_wait_state (kind_of p) w.row in
    if o.db_ok
    then elim claimed [
      | none ↦ (w, Request.failing p)
      | some st ↦ (record w { row = row }, Request.holding st p)
    ]
    else answer w Answer.internal_error

abbrev corrupt_message : WaitType → List ℕ
corrupt_message WaitType.approval = codes "resume failed: corrupt wait state"
corrupt_message WaitType.session = codes "resume failed: corrupt session wait state"

-- the rest of `ResumeApprovedRun` and `ResumeSessionRun`
unfoldable pub load_step : Outside → World → WaitState → Payload → World × Request
unfolding is_corrupt fail_run
load_step o w st p =
    if is_corrupt st
    then answer (record w { run = fail_run (corrupt_message (kind_of p)) w.run })
        Answer.internal_error
    else if o.agent_found
    then (w, Request.starting st p)
    else answer (record w { run = fail_run (codes "resume failed: agent no longer exists") w.run })
        Answer.internal_error

unfoldable pub start_step : Outside → World → WaitState → Payload → World × Request
unfolding claim_run
start_step o w st p =
    let (run, changed) = claim_run w.run in
    if o.db_ok && changed
    then answer (record w { run = run; executions = (st, p) ∷ w.executions }) Answer.resumed
    else answer w Answer.skipped

-- no goroutine and no snapshot: `Approve` fails the run, a callback is ignored
unfoldable pub fail_step : Outside → World → Payload → World × Request
unfolding fail_inactive
fail_step o w (Payload.decision approved input) =
    answer (record w { run = if o.db_ok then fail_inactive w.run else w.run }) Answer.ok
fail_step o w (Payload.content text) = answer w Answer.ignored

-- the watchdog's query: a session snapshot that is old enough, of a run that still waits for it
unfoldable pub sweep_step : Outside → World → Payload → World × Request
sweep_step o w p = elim w.row [
  | none ↦ answer w Answer.ignored
  | some st ↦
      if (o.db_ok && o.timed_out)
        && (same_type WaitType.session st.wait_type && is_session_wait w.run.status)
      then (w, Request.claiming p)
      else answer w Answer.ignored
]

unfoldable pub cancel_step : Outside → World → World × Request
unfolding cancel_row
cancel_step o w =
    let (run, changed) = cancel_row w.run in
    if o.db_ok
    then (if changed
        then (record w { run = run }, Request.stopping)
        else answer w Answer.bad_request)
    else answer w Answer.internal_error

unfoldable pub request_step : Setting → Outside → World → Request → World × Request
unfolding claim_step load_step start_step fail_step sweep_step cancel_step load_and_delete send
    delete_wait_state
request_step s o w (Request.reading p) =
    if o.db_ok
    then (if is_approval_wait w.run.status
        then (w, Request.finding p)
        else answer w Answer.bad_request)
    else answer w Answer.not_found
request_step s o w (Request.finding p) =
    if o.db_ok && w.pending then (w, Request.deciding p) else answer w Answer.not_found
request_step s o w (Request.deciding p) =
    (record w { pending = w.pending && not o.db_ok }, Request.sending p)
request_step s o w (Request.sending p) =
    let (w2, found) = load_entry s p w in
    (w2, if found then Request.delivering p else Request.claiming p)
request_step s o w (Request.delivering p) = elim (send p w.slot) [
  | none ↦ (w, Request.delivering p)
  | some slot ↦ answer (record w { slot = slot }) Answer.delivered
]
request_step s o w (Request.claiming p) = claim_step o w p
request_step s o w (Request.holding st p) = load_step o w st p
request_step s o w (Request.starting st p) = start_step o w st p
request_step s o w (Request.failing p) = fail_step o w p
request_step s o w (Request.sweeping p) = sweep_step o w p
request_step s o w Request.cancelling = cancel_step o w
request_step s o w Request.stopping = (record w { ctx_done = true }, Request.deleting)
request_step s o w Request.deleting =
    answer (record w { row = if o.db_ok then delete_wait_state w.row else w.row }) Answer.ok
request_step s o w (Request.answered a) = answer w a
