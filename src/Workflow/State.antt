-- ===== src/Workflow/State.antt =====
-- The state of the walk of `executeGroupRun` (services/api/internal/api/handler/invoke.go): what the
-- branches share, and what each branch has of its own.
use agent_nexus.Prelude.{
  String, ℕ, Bool, true, List, ◌∷◌, Option, none, some, member, if◌then◌else◌,
}
use agent_nexus.Prelude.Text.{Text}
use agent_nexus.Prelude.Dict.{lookup, insert}
use agent_nexus.Run.{Run, fail_run}
use agent_nexus.Workflow.Graph.{Graph, Node}

-- the events that the walk sends to the stream
pub data Event : Type 0 where
  node_started node_completed node_resumed : ℕ → Event
  node_error : ℕ → Text → Event
  node_routed : ℕ → String → ℕ → Event
  node_routed_loop : ℕ → Bool → ℕ → ℕ → Event
  node_delivery : ℕ → String → Bool → Event
  sub_run : ℕ → Text → Event
  error : Text → Event
  run_completed : Event

-- `workflowCheckpoint`
pub record Checkpoint : Type 0 where
  pub node_outputs : List (ℕ × Text)
  pub loop_iterations : List (ℕ × ℕ)

-- The maps that the branches share. The log has its newest event at the head.
pub record Progress : Type 0 where
  pub node_outputs : List (ℕ × Text)
  pub loop_iterations : List (ℕ × ℕ)
  pub consumed_resume : List ℕ
  pub checkpoint : Option Checkpoint  -- the row of workflow_checkpoints
  pub log : List Event

-- `ctx_done` is whether the context is cancelled; `run` is the row of the workflow's run.
pub record Walk : Type 0 where
  pub total_steps : ℕ
  pub run_marked : Bool
  pub ctx_done : Bool
  pub run : Run
  pub progress : Progress

-- The variables of one call of `walkBranch`.
pub record Branch : Type 0 where
  pub queue : List Node
  pub last_output : Text
  pub prev_node_name : Text
  pub branch_input : Text
  pub stop_at : List ℕ

-- What the walk is given: the graph, the input of the run, the outputs of the checkpoint that it
-- resumes from, and the names of the agents.
pub record Env : Type 0 where
  pub graph : Graph
  pub original_input : Text
  pub resumed_outputs : List (ℕ × Text)
  pub agent_names : List (ℕ × Text)

abbrev pub max_total_steps : ℕ
max_total_steps = 100

abbrev pub emit : Event → Progress → Progress
emit e p = record p { log = e ∷ p.log }

abbrev pub set_output : ℕ → Text → Progress → Progress
set_output id out p = record p { node_outputs = insert id out p.node_outputs }

-- `saveCheckpoint`
unfoldable pub save_checkpoint : Progress → Progress
save_checkpoint p = record p {
  checkpoint = some (record { node_outputs = p.node_outputs; loop_iterations = p.loop_iterations });
}

-- `consumeResumed`: the cached output, and the state with the node marked
unfoldable pub consume_resumed : Env → ℕ → Progress → Progress × Option Text
consume_resumed env id p = elim (lookup id env.resumed_outputs) [
  | none ↦ (p, none)
  | some cached ↦
      if member id p.consumed_resume
      then (p, none)
      else (record p { consumed_resume = id ∷ p.consumed_resume }, some cached)
]

-- `failWorkflow`
unfoldable pub fail_workflow : Text → Walk → Walk
fail_workflow message w = record w { run_marked = true; run = fail_run message w.run }
