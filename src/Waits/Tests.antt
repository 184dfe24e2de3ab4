-- ===== src/Waits/Tests.antt =====
-- Waits that the theorems are applied to.
use agent_nexus.Prelude.{
  ◌↔◌, ◌≢◌, ◌≤◌, ◌≡◌, refl, true, false, List, [], ◌∷◌, ◌++◌, none, some, length, bit, count, All,
  arith,
}
use agent_nexus.Prelude.Text.{codes}
use agent_nexus.Run.{Run, RunStatus}
use agent_nexus.Waits.Snapshot.{ℤ, WaitType, WaitState, is_corrupt}
use agent_nexus.Waits.Requests.{Payload, Request, Waiter, Setting, Outside, World}
use agent_nexus.Waits.World.{Action, run_world, start_world}
use agent_nexus.Waits.Counting.{is_delivering, is_delivered, is_resumed, has_payload}
use agent_nexus.Waits.Once.{run_world-once, run_world-reclaimed}
use agent_nexus.Waits.Answered.{answered_at, run_world-answered}
use agent_nexus.Waits.Payloads.{Gets, Executes, run_world-payloads}
use agent_nexus.Waits.Cancelled.{run_world-cancelled}
use agent_nexus.Waits.Cancels.{Cancels}
use agent_nexus.Waits.Callback.{CallbackPayload, Memory, Verdict, session_callback}
use agent_nexus.Waits.Accepted.{IsTerminal, Accepts, session_callback_iff}
use agent_nexus.Waits.Parked.{works, alone, resumed_world, run_world-parked}

abbrev saved : WaitState
saved = record {
  wait_type = WaitType.approval;
  workspace_id = 1;
  user_id = 2;
  agent_id = 3;
  conversation_id = 4;
  input = codes "deploy";
  messages = [];
  stable_system = [];
  pending_calls =
      record {
        id = codes "c1";
        name = codes "native_deploy";
        input = codes "{}";
        thought_signature = [];
      }
      ∷ [];
  call_index = ℤ.pos 0;
  step_count = 1;
  total_input = 10;
  total_output = 5;
  action_log = [];
  memory_save_called = false;
  requested_tools = [];
  active_skills = [];
  active_memory_ids = [];
}

abbrev gate : Setting
gate = record { kind = WaitType.approval; parks = true; snapshot = saved }

abbrev busy : Run
busy = record { status = RunStatus.running; output = []; error_message = [] }

abbrev approved : Payload
approved = Payload.decision true (codes "{}")

-- two decisions and a cancel
abbrev three : List Request
three = Request.reading approved ∷ Request.sending approved ∷ Request.cancelling ∷ []

abbrev in_time : Outside
in_time = record { db_ok = true; agent_found = true; timed_out = false }

abbrev wait_ok : Action
wait_ok = Action.waits in_time

abbrev wait_late : Action
wait_late = Action.waits works

abbrev first : Action
first = Action.handles 0 in_time

abbrev blocked : List Action
blocked = wait_ok ∷ wait_ok ∷ wait_ok ∷ []

-- The first decision is delivered while the goroutine waits.
abbrev delivery : List Action
delivery = blocked ++ first ∷ first ∷ first ∷ first ∷ first ∷ wait_ok ∷ wait_ok ∷ wait_ok ∷ []

-- The goroutine gives up and parks.
abbrev parking : List Action
parking = blocked ++ wait_late ∷ wait_late ∷ wait_late ∷ []

delivery-waiter :
    (run_world gate (start_world gate busy three) delivery).waiter ≡ Waiter.continued approved
unfolding run_world
delivery-waiter = refl

parking-waiter : (run_world gate (start_world gate busy three) parking).waiter ≡ Waiter.reclaimed
unfolding run_world
parking-waiter = refl

run_world-once_example :
    let w = run_world gate (start_world gate busy three) delivery in
    ((count is_delivered w.requests ≤ 1)
      × (count is_resumed w.requests ≤ 1)
      × (length w.executions ≡ count is_resumed w.requests)
      × (bit (has_payload w.waiter) ≤ count is_delivered w.requests))
run_world-once_example = run_world-once gate busy three delivery (refl, (refl, (refl, tt)))

run_world-reclaimed_example :
    let w = run_world gate (start_world gate busy three) parking in
    (count is_delivered w.requests ≡ 0) × (count is_delivering w.requests ≡ 0)
unfolding run_world
run_world-reclaimed_example =
    run_world-reclaimed gate busy three parking (refl, (refl, (refl, tt))) refl

run_world-answered_example :
    answered_at 0 (run_world gate (start_world gate busy three) (delivery ++ delivery)) ≡ true
run_world-answered_example =
    run_world-answered gate busy three (delivery ++ delivery) 0 (refl, (refl, (refl, tt)))
      (omega arith)

run_world-payloads_example :
    let w = run_world gate (start_world gate busy three) delivery in
    Gets gate (λ p. p ≡ approved) w.waiter × All (Executes gate (λ p. p ≡ approved)) w.executions
run_world-payloads_example =
    run_world-payloads gate (λ p. p ≡ approved) busy three delivery (refl, (refl, (tt, tt)))

-- the run parked, and cancelled before anything else
abbrev stopped : World
stopped = record {
  run = record { status = RunStatus.cancelled; output = []; error_message = [] };
  ctx_done = true;
  pending = true;
  row = some saved;
  slot = record { registered = false; buffer = none };
  waiter = Waiter.reclaimed;
  requests = Request.sending approved ∷ [];
  executions = [];
}

run_world-cancelled_example :
    let w = run_world gate stopped (alone ∷ alone ∷ alone ∷ alone ∷ wait_ok ∷ []) in
    (w.run.status ≡ RunStatus.cancelled) × (w.executions ≡ [])
unfolding run_world
run_world-cancelled_example =
    run_world-cancelled gate stopped (alone ∷ alone ∷ alone ∷ alone ∷ wait_ok ∷ []) refl refl

abbrev parked : World
parked = record stopped {
  run = record { status = RunStatus.approval_wait; output = []; error_message = [] };
  ctx_done = false;
}

run_world-parked_example :
    run_world gate parked (alone ∷ alone ∷ alone ∷ alone ∷ [])
    ≡ resumed_world parked saved approved []
unfolding is_corrupt
run_world-parked_example =
    run_world-parked gate parked saved approved [] refl refl refl refl (ground arith) refl

-- A goroutine parks and releases its entry after the one that resumed the run has registered.
abbrev first_goroutine : Cancels
first_goroutine = record { entries = (7, 0) ∷ []; next = 1; cancelled = [] }

abbrev crashed : CallbackPayload
crashed = record {
  run_id = codes "r1";
  session_id = codes "s1";
  status = codes "crashed";
  mode = [];
  repo = codes "api";
  ticket_key = [];
  branch = [];
  summary = [];
  cost_usd = codes "0";
}

session_callback_iff_example :
    Accepts (session_callback (codes "secret") (codes "secret") (some crashed)) crashed ↔ (
      (codes "secret" ≢ [])
      × (codes "secret" ≡ codes "secret")
      × (some crashed ≡ some crashed)
      × (codes "r1" ≢ [])
      × IsTerminal (codes "crashed"))
session_callback_iff_example =
    session_callback_iff (codes "secret") (codes "secret") (some crashed) crashed

session_callback-accepted :
    session_callback (codes "secret") (codes "secret") (some crashed)
    ≡ Verdict.accepted crashed Memory.nothing
unfolding session_callback
session_callback-accepted = refl
