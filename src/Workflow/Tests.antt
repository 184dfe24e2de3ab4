-- ===== src/Workflow/Tests.antt =====
-- Workflows that the theorems are applied to, and runs of them.
use agent_nexus.Prelude.{
  ℕ, zero, ◌+◌, ◌*◌, ◌≤◌, ◌≡◌, refl, ◌↔◌, ◌⊎◌, true, false, String, List, [], ◌∷◌, Option, none,
  some, length, member, is_some,
}
use agent_nexus.Prelude.Text.{Text, codes}
use agent_nexus.Prelude.Dict.{lookup}
use agent_nexus.Run.{Run, RunStatus, complete_run}
use agent_nexus.Workflow.Graph.{NodeType, Node, Edge, Graph, successors, adj, edges_targeting}
use agent_nexus.Workflow.Graph.{Config as NodeConfig}
use agent_nexus.Workflow.Condition.{is_fallback, route_condition}
use agent_nexus.Workflow.Condition.Routing.{
  to_first, first_edge, is_match, default_edge, no_route, route_condition-eq-priority,
}
use agent_nexus.Workflow.Joins.{stop_nodes}
use agent_nexus.Workflow.Joins.Search.Exact.{IsStop, stop_nodes_iff}
use agent_nexus.Workflow.Delivery.{HttpReply, GatewayReply}
use agent_nexus.Workflow.State.{Progress, Branch, Env}
use agent_nexus.Workflow.Nodes.{
  Answer, visit_node, visit_join, incoming_outputs, joined_output, complete_node,
}
use agent_nexus.Workflow.Turns.{Reply, begin_turn, finish_call, resume_parallel}
use agent_nexus.Workflow.Threads.{Config, Action, step, run_actions, start_config, finish_walk}
use agent_nexus.Workflow.Threads.Steps.{started, run_actions-started-le}
use agent_nexus.Workflow.Threads.Resumption.{resumed, sub_runs, run_actions-resumed}
use agent_nexus.Workflow.Threads.Outcome.{finish_walk-status}
use agent_nexus.Workflow.Threads.Termination.{can_go, effective, effective-start-le}
use agent_nexus.Workflow.Threads.Termination.Progress.{AllEnded, run_actions-can_go}

abbrev plain : NodeConfig
plain = record {
  expression = none;
  exit_condition = none;
  max_iterations = none;
  url = [];
  webhook_url = [];
  delivery = record { channel_id = []; peer_id = [] };
  end_delivery = record { channel_id = []; peer_id = [] };
}

abbrev node : ℕ → NodeType → Option ℕ → Node
node id type agent_id = record { id = id; type = type; agent_id = agent_id; config = plain }

abbrev edge : ℕ → ℕ → String → Edge
edge source target label = record {
  id = source * 100 + target;
  source = source;
  target = target;
  label = label;
}

-- start, a fan-out to two agents, their join, and the end
abbrev fan : Graph
fan = record {
  nodes =
      node 1 NodeType.start none
      ∷ (node 2 NodeType.parallel none
          ∷ (node 3 NodeType.agent (some 30)
              ∷ (node 4 NodeType.agent (some 40)
                  ∷ (node 5 NodeType.join none ∷ (node 6 NodeType.finish none ∷ [])))));
  edges =
      edge 1 2 ""
      ∷ (edge 2 3 "" ∷ (edge 2 4 "" ∷ (edge 3 5 "" ∷ (edge 4 5 "" ∷ (edge 5 6 "" ∷ [])))));
}

abbrev fan_env : Env
fan_env = record {
  graph = fan;
  original_input = codes "go";
  resumed_outputs = (3, codes "cached") ∷ [];
  agent_names = (30, codes "Ada") ∷ [];
}

abbrev row : Run
row = record { status = RunStatus.running; output = []; error_message = [] }

abbrev found : Answer
found = record { agent_found = true; source_order = 1 ∷ (2 ∷ (3 ∷ (4 ∷ (5 ∷ [])))) }

abbrev replied : Text → Reply
replied out = record {
  sub_run = record { status = RunStatus.success; output = out; error_message = [] };
  http = HttpReply.transport_error [];
  gateway = GatewayReply.no_channel;
}

abbrev crashed : Reply
crashed = record {
  sub_run = record { status = RunStatus.failed; output = []; error_message = codes "boom" };
  http = HttpReply.transport_error [];
  gateway = GatewayReply.no_channel;
}

abbrev go : ℕ → Text → Action
go i out = Action.turn i found (replied out)

-- the branch of node 4 starts its sub-run before the branch of node 3 uses its cached output
abbrev whole : List Action
whole =
    go 0 []
    ∷ (go 0 []
        ∷ (go 2 []
            ∷ (go 1 []
                ∷ (go 1 []
                    ∷ (go 2 (codes "out")
                        ∷ (go 2 []
                            ∷ (go 0 [] ∷ (go 0 [] ∷ (go 0 [] ∷ (go 0 [] ∷ (go 0 [] ∷ [])))))))))))

abbrev started_fan : Config
started_fan = start_config (node 1 NodeType.start none) (codes "go") [] none row

fan_output :
    (finish_walk fan_env (run_actions fan_env started_fan whole).walk).run.output
    ≡ codes "cached\n---\nout"
unfolding run_actions finish_walk step begin_turn visit_node successors adj stop_nodes finish_call
    resume_parallel complete_run edges_targeting
fan_output = refl

run_actions-started-le_example :
    started (run_actions fan_env started_fan whole).walk.progress.log ≤ 100
run_actions-started-le_example =
    run_actions-started-le fan_env (node 1 NodeType.start none) (codes "go") [] none row whole

effective-start-le_example : effective fan_env started_fan whole ≤ 101 * (length fan.edges + 2) + 1
effective-start-le_example =
    effective-start-le fan_env (node 1 NodeType.start none) (codes "go") [] none row whole

run_actions-can_go_example :
    let c = run_actions fan_env started_fan whole in
    AllEnded zero c.threads ⊎ ((i : ℕ) × (can_go c i ≡ true))
run_actions-can_go_example =
    run_actions-can_go fan_env (node 1 NodeType.start none) (codes "go") [] none row whole

run_actions-resumed_example :
    let log = (run_actions fan_env started_fan whole).walk.progress.log in
    (resumed 3 log ≤ 1)
    × (is_some (lookup 3 fan_env.resumed_outputs) ≡ true → 1 ≤ sub_runs 3 log → resumed 3 log ≡ 1)
run_actions-resumed_example =
    run_actions-resumed fan_env 3 (node 1 NodeType.start none) (codes "go") [] none row whole

-- the run is cancelled while node 4 runs
abbrev until_cancelled : List Action
until_cancelled = go 0 [] ∷ (go 0 [] ∷ (go 2 [] ∷ (Action.cancel ∷ [])))

-- and then its sub-run fails
abbrev failing_late : List Action
failing_late = Action.turn 2 found crashed ∷ []

finish_walk-status_example :
    let c = run_actions fan_env started_fan until_cancelled in
    let w = (run_actions fan_env c failing_late).walk in
    ((((finish_walk fan_env w).run.status ≡ RunStatus.success)
        ↔ ((w.run_marked ≡ false) × (w.run.status ≡ RunStatus.running)))
      × (c.walk.run.status ≡ RunStatus.cancelled
          → (w.run.status ≡ RunStatus.cancelled)
            × ((finish_walk fan_env w).run.status ≡ RunStatus.cancelled))
      × ((finish_walk fan_env w).progress.checkpoint ≡ none))
finish_walk-status_example =
    finish_walk-status fan_env (node 1 NodeType.start none) (codes "go") [] none row until_cancelled
      failing_late refl

-- the sub-run of node 4 fails
abbrev failing : List Action
failing = go 0 [] ∷ (go 0 [] ∷ (go 2 [] ∷ (Action.turn 2 found crashed ∷ [])))

stop_nodes_iff_example :
    (member 5 (stop_nodes fan (edge 2 3 "" ∷ (edge 2 4 "" ∷ []))) ≡ true)
    ↔ IsStop fan (edge 2 3 "" ∷ (edge 2 4 "" ∷ [])) 5
stop_nodes_iff_example = stop_nodes_iff fan (edge 2 3 "" ∷ (edge 2 4 "" ∷ [])) 5

fan_stops : stop_nodes fan (edge 2 3 "" ∷ (edge 2 4 "" ∷ [])) ≡ 5 ∷ []
unfolding stop_nodes
fan_stops = refl

abbrev choices : List Edge
choices = edge 1 2 "" ∷ (edge 1 3 "no" ∷ (edge 1 4 "yes" ∷ []))

route_condition-eq-priority_example :
    route_condition true choices
    ≡ to_first
        (first_edge (is_match true) choices)
        (to_first (default_edge choices) (to_first (first_edge is_fallback choices) no_route))
route_condition-eq-priority_example = route_condition-eq-priority true choices

yes_taken : (route_condition true choices).next ≡ some 4
unfolding route_condition
yes_taken = refl

abbrev two_outputs : Progress
two_outputs = record {
  node_outputs = (3, codes "left") ∷ ((4, codes "right") ∷ []);
  loop_iterations = [];
  consumed_resume = [];
  checkpoint = none;
  log = [];
}

abbrev joining : Branch
joining = record {
  queue = [];
  last_output = [];
  prev_node_name = [];
  branch_input = [];
  stop_at = [];
}

visit_join-joined :
    lookup 5
      (visit_join fan_env found (node 5 NodeType.join none) two_outputs joining).0.node_outputs
    ≡ some (codes "left\n---\nright")
unfolding visit_join incoming_outputs joined_output complete_node edges_targeting
visit_join-joined = refl
