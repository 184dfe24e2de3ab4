-- ===== src/Workflow/Nodes.antt =====
-- The cases of the switch of `walkBranch` (services/api/internal/api/handler/invoke.go) up to the
-- point where a node waits for something outside the walk. The texts of error events leave out ids.
pub mod Joining
pub mod Looping
use Prim.Native.String.{String}
use agent_nexus.Prelude.{
  ℕ, zero, suc, ◌+◌, ◌≡◌, Bool, true, false, not, ◌||◌, List, [], ◌∷◌, ◌++◌, Option, none, some,
  leb, keep, if◌then◌else◌,
}
use agent_nexus.Prelude.Text.{Text, codes, is_blank, join}
use agent_nexus.Prelude.Dict.{lookup, lookup_or, insert}
use agent_nexus.Workflow.Expression.{evaluate_expression}
use agent_nexus.Workflow.Graph.{
  NodeType, Node, Edge, Graph, node_at, adj, successors, edges_targeting, is_delegate, is_loop,
}
use agent_nexus.Workflow.Condition.{Route, route_condition}
use agent_nexus.Workflow.Joins.{stop_nodes}
use agent_nexus.Workflow.State.{
  Event, Progress, Branch, Env, emit, set_output, save_checkpoint, consume_resumed,
}

-- What the outside world answers while a node is visited: whether `agents.Get` finds the agent, and
-- the order in which `range adj` goes through the sources.
pub record Answer : Type 0 where
  pub agent_found : Bool
  pub source_order : List ℕ

-- How a visit goes on: with the next round of the loop; after a call that the node waits for; or
-- after the branches that a parallel node starts, each of which stops at the given joins.
pub data Next : Type 0 where
  again : Branch → Next
  call : Node → Branch → Next
  fork : Node → Branch → List ℕ → Next

-- the end of a round: `NodeCompleted`, `saveCheckpoint`
unfoldable pub complete_node : Node → Progress → Progress
unfolding save_checkpoint
complete_node n p = save_checkpoint (emit (Event.node_completed n.id) p)

abbrev pub enqueue : Graph → List Edge → Branch → Branch
enqueue g es b = record b { queue = b.queue ++ successors g es }

-- the default of a missing option
abbrev pub text_or_blank : Option Text → Text
text_or_blank none = []
text_or_blank (some s) = s

-- `agentInput`: the last output, with the task before it for a node that is not the first
unfoldable pub agent_input : Env → Branch → Text
agent_input env b =
    if is_blank b.prev_node_name
    then b.last_output
    else codes "[Task]\n"
      ++ (env.original_input
          ++ (codes "\n\n[Previous output from "
              ++ (b.prev_node_name ++ (codes "]\n" ++ b.last_output))))

-- the outputs of the sources that have one
unfoldable pub incoming_outputs : List Edge → Progress → List Text
incoming_outputs [] p = []
incoming_outputs (e ∷ es) p =
    let rest = incoming_outputs es p in
    elim (lookup e.source p.node_outputs) [ none ↦ rest | some out ↦ out ∷ rest ]

unfoldable pub joined_output : List Text → Text → Text
joined_output [] last = last
joined_output (out ∷ outs) last = join (out ∷ outs) (codes "\n---\n")

-- the first edge labelled "loop"
unfoldable pub loop_back : List Edge → Option Edge
loop_back [] = none
loop_back (e ∷ es) = if is_loop e then some e else loop_back es

-- The state of a loop node after a visit: the count, and whether the loop is left.
unfoldable pub loop_iteration : Node → Progress → ℕ
loop_iteration n p = lookup_or 0 n.id p.loop_iterations + 1

abbrev pub max_iter : Node → ℕ
max_iter n = elim n.config.max_iterations [ none ↦ 5 | some k ↦ k ]

unfoldable pub loop_done : Node → Text → Progress → Bool
unfolding loop_iteration
loop_done n last p =
    leb (max_iter n) (loop_iteration n p)
    || evaluate_expression (text_or_blank n.config.exit_condition) last

module _ (env : Env) where
  -- A node whose cached output is used once more passes it on.
  unfoldable pub reuse_output : Node → Text → Text → List Edge → Progress → Branch → Progress × Next
  unfolding complete_node
  reuse_output n name cached es p b = (
    complete_node n (emit (Event.node_resumed n.id) (set_output n.id cached p)),
    again (enqueue env.graph es (record b { last_output = cached; prev_node_name = name })),
  )

  unfoldable pub visit_start : Node → Progress → Branch → Progress × Next
  unfolding complete_node
  visit_start n p b = (
    complete_node n (set_output n.id b.branch_input p),
    again (enqueue env.graph (adj env.graph n.id) (record b { last_output = b.branch_input })),
  )

  unfoldable pub visit_finish : Node → Progress → Branch → Progress × Next
  visit_finish n p b = (set_output n.id b.last_output p, call n b)

  unfoldable pub visit_webhook : Node → Text → Progress → Branch → Progress × Next
  unfolding reuse_output
  visit_webhook n name p b =
      let (p', found) = consume_resumed env n.id p in
      elim found [
        | none ↦ (p', call n b)
        | some cached ↦ reuse_output n name cached (adj env.graph n.id) p' b
      ]

  -- On resume the message is not sent again; the output passes through.
  unfoldable pub visit_gateway : Node → Text → Progress → Branch → Progress × Next
  unfolding complete_node
  visit_gateway n name p b =
      let (p', found) = consume_resumed env n.id p in
      elim found [
        | none ↦ (p', call n b)
        | some _ ↦ (
          complete_node n (set_output n.id b.last_output (emit (Event.node_resumed n.id) p')),
          again (enqueue env.graph (adj env.graph n.id) (record b { prev_node_name = name })),
        )
      ]

  -- a sub-run is started, and the node waits for it
  abbrev start_sub_run : Node → Progress → Branch → Progress × Next
  start_sub_run n p b = (emit (Event.sub_run n.id (agent_input env b)) p, call n b)

  unfoldable pub visit_agent : Answer → Node → Text → Progress → Branch → Progress × Next
  unfolding reuse_output agent_input
  visit_agent a n name p b = elim n.agent_id [
    | none ↦ (emit (Event.error (codes "agent node has no agent_id")) p, again b)
    | some _ ↦
        let (p', found) = consume_resumed env n.id p in
        elim found [
          | some cached ↦ reuse_output n name cached (adj env.graph n.id) p' b
          | none ↦
              if a.agent_found
              then start_sub_run n p' b
              else (emit (Event.error (codes "agent node: agent not found")) p', again b)
        ]
  ]

  -- The agent is looked up before the cached output is; delegate edges lead to no successor.
  unfoldable pub visit_supervisor : Answer → Node → Text → Progress → Branch → Progress × Next
  unfolding reuse_output agent_input
  visit_supervisor a n name p b = elim n.agent_id [
    | none ↦ (emit (Event.error (codes "supervisor node has no agent_id")) p, again b)
    | some _ ↦
        if not a.agent_found
        then (emit (Event.error (codes "supervisor node: agent not found")) p, again b)
        else let (p', found) = consume_resumed env n.id p in
          elim found [
            | some cached ↦
                reuse_output n name cached (keep (λ e. not (is_delegate e)) (adj env.graph n.id)) p'
                  b
            | none ↦ start_sub_run n p' b
          ]
  ]

  unfoldable pub visit_condition : Node → Progress → Branch → Progress × Next
  unfolding complete_node
  visit_condition n p b =
      let holds = evaluate_expression (text_or_blank n.config.expression) b.last_output in
      let r = route_condition holds (adj env.graph n.id) in
      elim r.next [
        | none ↦ (
          emit (Event.error (codes "condition node has no matching or fallback edge")) p,
          again b,
        )
        | some id ↦ (
          complete_node n (emit (Event.node_routed n.id r.matched id) p),
          again (elim (node_at env.graph id) [
            | none ↦ b
            | some next ↦ record b { queue = b.queue ++ next ∷ [] }
          ]),
        )
      ]

  unfoldable pub visit_parallel : Node → Progress → Branch → Progress × Next
  visit_parallel n p b = (p, fork n b (stop_nodes env.graph (adj env.graph n.id)))

  unfoldable pub visit_join : Answer → Node → Progress → Branch → Progress × Next
  unfolding incoming_outputs joined_output complete_node
  visit_join a n p b =
      let out =
        joined_output (incoming_outputs (edges_targeting env.graph a.source_order n.id) p)
          b.last_output in
      (
        complete_node n (set_output n.id out p),
        again (enqueue env.graph (adj env.graph n.id) (record b { last_output = out })),
      )

  unfoldable pub visit_loop : Node → Progress → Branch → Progress × Next
  unfolding loop_iteration loop_done loop_back complete_node
  visit_loop n p b =
      let i = loop_iteration n p in
      let finished = loop_done n b.last_output p in
      let es = adj env.graph n.id in
      (
        complete_node n (
            emit (Event.node_routed_loop n.id finished i (max_iter n)) (record p {
              loop_iterations = insert n.id (if finished then 0 else i) p.loop_iterations;
            })),
        again (
            if finished
            then enqueue env.graph (keep (λ e. not (is_loop e)) es) b
            else elim (loop_back es) [ none ↦ b | some e ↦ enqueue env.graph (e ∷ []) b ]),
      )

  unfoldable pub visit_default : Node → Progress → Branch → Progress × Next
  unfolding complete_node
  visit_default n p b = (
    complete_node n (
        set_output n.id b.last_output
          (emit (Event.node_error n.id (codes "node type is not supported")) p)),
    again (enqueue env.graph (adj env.graph n.id) b),
  )

  -- the switch on the node's type
  unfoldable pub visit_node : Answer → NodeType → Node → Text → Progress → Branch → Progress × Next
  unfolding visit_start visit_finish visit_webhook visit_gateway visit_agent visit_supervisor
      visit_condition visit_parallel visit_join visit_loop visit_default consume_resumed
  visit_node a NodeType.start n name p b = visit_start n p b
  visit_node a NodeType.finish n name p b = visit_finish n p b
  visit_node a NodeType.webhook n name p b = visit_webhook n name p b
  visit_node a NodeType.gateway n name p b = visit_gateway n name p b
  visit_node a NodeType.agent n name p b = visit_agent a n name p b
  visit_node a NodeType.condition n name p b = visit_condition n p b
  visit_node a NodeType.parallel n name p b = visit_parallel n p b
  visit_node a NodeType.join n name p b = visit_join a n p b
  visit_node a NodeType.loop n name p b = visit_loop n p b
  visit_node a NodeType.supervisor n name p b = visit_supervisor a n name p b
  visit_node a (NodeType.other type) n name p b = visit_default n p b
