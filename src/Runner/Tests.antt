-- ===== src/Runner/Tests.antt =====
-- Concrete runs of the session runner (services/runner/main.go).
use agent_nexus.Prelude.{
  ℕ, zero, suc, ◌≡◌, ◌≤◌, ◌↔◌, refl, true, false, none, some, List, [], ◌∷◌, member,
}
use agent_nexus.Prelude.Text.{codes}
use agent_nexus.Runner.Requests.{
  LaunchRequest, is_review, session_key, Refusal, check_launch, journal_name, Response,
  deliver_from, deliver_callback,
}
use agent_nexus.Runner.Requests.Keys.{IsBare, session_key_iff}
use agent_nexus.Runner.Requests.Callbacks.{IsAccepted, deliver_callback_iff}
use agent_nexus.Runner.{
  Write, launch_reply, LaunchReply, Action, step, run_runner, restart, idle_runner,
}
use agent_nexus.Runner.Recovery.{run_runner-restart}

-- run 7 starts a session, 8 joins it, the session ends, and 7 has its callback before the crash
abbrev joined : List Action
joined = Action.launches Write.written 8 ∷ Action.finishes ∷ Action.delivers 0 ∷ []

run_runner-joined :
    (restart (run_runner (Action.launches Write.written 7 ∷ joined) idle_runner)).attempted
    ≡ 7 ∷ 8 ∷ 7 ∷ []
unfolding run_runner step
run_runner-joined = refl

launch_reply-started : launch_reply idle_runner ≡ LaunchReply.started
launch_reply-started = refl

-- Run 8 starts a session while that of run 7, which is done, delivers its callback; the journal of 8 is
-- removed with that of 7, and a crash loses the run.
abbrev overlapping : List Action
overlapping =
    Action.launches Write.written 7
    ∷ Action.finishes
    ∷ Action.launches Write.written 8
    ∷ Action.delivers 0
    ∷ Action.removes 0
    ∷ []

run_runner-overlapping : (restart (run_runner overlapping idle_runner)).attempted ≡ 7 ∷ []
unfolding run_runner step
run_runner-overlapping = refl

-- a join whose journal is not written
run_runner-torn :
    member 8
      (restart (
        run_runner
          (Action.launches Write.written 7 ∷ Action.launches Write.torn 8 ∷ [])
          idle_runner)).attempted
    ≡ false
unfolding run_runner step
run_runner-torn = refl

run_runner-restart_example :
    member 7 (restart (run_runner (Action.launches Write.written 7 ∷ joined) idle_runner)).attempted
    ≡ true
unfolding run_runner step
run_runner-restart_example =
    run_runner-restart idle_runner 7 joined tt ((λ e. refl), ((λ e. refl), (tt, (tt, tt))))

abbrev coding : LaunchRequest
coding = record {
  run_id = codes "r1";
  repo = codes "acme/app-web";
  ticket_key = codes "A-1";
  task_description = codes "fix";
  callback_url = codes "http://api";
  mode = [];
  head = [];
}

abbrev reviewing : LaunchRequest
reviewing = record coding { mode = codes "review"; head = codes "nexus/A-1" }

check_launch-coding : check_launch coding ≡ none
check_launch-coding = refl

check_launch-dots :
    check_launch (record coding { repo = codes "acme/.." }) ≡ some Refusal.not_owner_name
check_launch-dots = refl

check_launch-missing_head :
    check_launch (record reviewing { head = [] }) ≡ some Refusal.missing_head
check_launch-missing_head = refl

-- Two sessions share the path of their journal.
journal_name-shared :
    journal_name (session_key coding)
    ≡ journal_name (session_key (record coding { repo = codes "acme-app/web" }))
journal_name-shared = refl

A-1_IsBare : IsBare (codes "A-1")
A-1_IsBare = ((refl, refl), ((refl, refl), ((refl, refl), tt)))

session_key_iff_example : (session_key coding ≡ session_key reviewing) ↔ (
    (is_review coding ≡ is_review reviewing)
    × ((coding.ticket_key ≡ reviewing.ticket_key) × (coding.repo ≡ reviewing.repo)))
session_key_iff_example = session_key_iff coding reviewing A-1_IsBare A-1_IsBare

-- a server error, no response, and then the status 204
abbrev third_time : ℕ → Response
third_time zero = Response.status 503
third_time (suc zero) = Response.no_response
third_time (suc (suc k)) = Response.status 204

deliver_callback-third :
    deliver_callback third_time ≡ record { is_delivered = true; attempts = 3; slept = 6 }
unfolding deliver_callback deliver_from
deliver_callback-third = refl

deliver_callback-unreachable :
    deliver_callback (λ k. Response.no_response)
    ≡ record { is_delivered = false; attempts = 6; slept = 126 }
unfolding deliver_callback deliver_from
deliver_callback-unreachable = refl

deliver_callback_iff_example :
    (((deliver_callback third_time).is_delivered ≡ true) ↔ IsAccepted 6 third_time)
    × ((deliver_callback third_time).slept ≤ 126)
deliver_callback_iff_example = deliver_callback_iff third_time
