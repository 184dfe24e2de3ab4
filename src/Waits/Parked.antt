-- ===== src/Waits/Parked.antt =====
-- The resume of a parked run: `ResumeApprovedRun` and `ResumeSessionRun` of
-- services/api/internal/api/handler/resume.go.
use agent_nexus.Prelude.{◌≡◌, ◌≢◌, true, false, List, [], ◌∷◌, none, some, arith}
use agent_nexus.Run.{RunStatus, claim_run}
use agent_nexus.Waits.Snapshot.{WaitState, same_type, is_corrupt, claim_wait_state}
use agent_nexus.Waits.Slot.{load_and_delete}
use agent_nexus.Waits.Requests.{Payload, Answer, Request, Setting, Outside, World}
use agent_nexus.Waits.Handlers.{kind_of, request_step}
use agent_nexus.Waits.World.{Action, handle, act, run_world}

-- no failure of the database, and the agent is still there
abbrev pub works : Outside
works = record { db_ok = true; agent_found = true; timed_out = true }

abbrev pub alone : Action
alone = Action.handles 0 works

-- the world in which the first request has resumed the run
abbrev pub resumed_world : World → WaitState → Payload → List Request → World
resumed_world w st p rest = record w {
  run = record w.run { status = RunStatus.running };
  row = none;
  requests = Request.answered Answer.resumed ∷ rest;
  executions = (st, p) ∷ w.executions;
}

-- When no goroutine is registered, a snapshot of the payload's kind is saved that is not corrupt, the
-- run is not cancelled and neither the database nor the agent fails, a request that sends a payload
-- takes the snapshot, sets the run to running, starts one execution with that snapshot and payload,
-- and changes nothing else.
pub run_world-parked :
    (s : Setting) (w : World) (st : WaitState) (p : Payload) (rest : List Request)
    → w.slot.registered ≡ false
    → w.row ≡ some st
    → same_type (kind_of p) st.wait_type ≡ true
    → is_corrupt st ≡ false
    → w.run.status ≢ RunStatus.cancelled
    → w.requests ≡ Request.sending p ∷ rest
    → run_world s w (alone ∷ alone ∷ alone ∷ alone ∷ []) ≡ resumed_world w st p rest
unfolding run_world act handle request_step claim_run claim_wait_state load_and_delete
run_world-parked s w st p rest free saved kind sound live first = ground arith
