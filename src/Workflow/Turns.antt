-- ===== src/Workflow/Turns.antt =====
-- One round of the loop of `walkBranch` (services/api/internal/api/handler/invoke.go), and what a
-- node does once the call that it waits for has returned.
use agent_nexus.Prelude.{
  ℕ, ◌+◌, Bool, true, false, not, List, [], ◌∷◌, ◌++◌, Option, none, some, ltb, member, keep,
  if◌then◌else◌,
}
use agent_nexus.Prelude.Text.{Text, codes, is_blank}
use agent_nexus.Prelude.Dict.{lookup}
use agent_nexus.Run.{RunStatus, Run}
use agent_nexus.Workflow.Graph.{NodeType, Node, Edge, adj, node_at, is_delegate}
use agent_nexus.Workflow.Delivery.{
  HttpReply, Outcome, GatewayReply, execute_webhook, deliver_gateway, error_envelope,
}
use agent_nexus.Workflow.State.{
  Event, Progress, Walk, Branch, Env, max_total_steps, emit, set_output, fail_workflow,
}
use agent_nexus.Workflow.Nodes.{Answer, Next, enqueue, complete_node, visit_node}

-- The text of a node's type, which names a node with no named agent.
abbrev pub type_name : NodeType → Text
type_name NodeType.start = codes "start"
type_name NodeType.finish = codes "end"
type_name NodeType.webhook = codes "webhook"
type_name NodeType.gateway = codes "gateway"
type_name NodeType.agent = codes "agent"
type_name NodeType.condition = codes "condition"
type_name NodeType.parallel = codes "parallel"
type_name NodeType.join = codes "join"
type_name NodeType.loop = codes "loop"
type_name NodeType.supervisor = codes "supervisor"
type_name (NodeType.other t) = t

unfoldable pub node_name : Env → Node → Text
node_name env n = elim n.agent_id [
  | none ↦ type_name n.type
  | some id ↦ elim (lookup id env.agent_names) [ none ↦ type_name n.type | some name ↦ name ]
]

-- How a round ends: the call of `walkBranch` returns, or its visit goes on.
pub data Turn : Type 0 where
  returned : Turn
  going : Next → Turn

abbrev pub exceeded_message : Text
exceeded_message = codes "workflow exceeded maximum steps (100)"

-- the node at the head of the queue
unfoldable pub visit_head : Env → Answer → Walk → Node → Branch → Walk × Turn
unfolding node_name
visit_head env a w n b =
    if member n.id b.stop_at
    then (w, returned)
    else let (p, next) =
        visit_node env a n.type n (node_name env n) (emit (Event.node_started n.id) w.progress) b in
      (record w { progress = p }, going next)

-- the round once the guards have passed: the step is counted first
unfoldable pub count_step : Env → Answer → Walk → Node → Branch → Walk × Turn
unfolding visit_head fail_workflow
count_step env a w n b =
    let counted : Walk = record w { total_steps = w.total_steps + 1 } in
    if ltb max_total_steps counted.total_steps
    then (
      fail_workflow exceeded_message
          (record counted { progress = emit (Event.error exceeded_message) counted.progress }),
      returned,
    )
    else visit_head env a counted n b

-- one round of the loop over the queue
unfoldable pub begin_turn : Env → Answer → Walk → List Node → Branch → Walk × Turn
unfolding count_step fail_workflow
begin_turn env a w [] b = (w, returned)
begin_turn env a w (n ∷ queue) b =
    if w.run_marked
    then (w, returned)
    else if w.ctx_done
    then (fail_workflow (codes "workflow cancelled") w, returned)
    else count_step env a w n (record b { queue = queue })

-- What a node's call returns: the sub-run's row, the HTTP reply or the gateway's reply.
pub record Reply : Type 0 where
  pub sub_run : Run
  pub http : HttpReply
  pub gateway : GatewayReply

abbrev pub is_failed : RunStatus → Bool
is_failed RunStatus.failed = true
is_failed _ = false

abbrev pub succeeds : Option Text → Bool
succeeds none = true
succeeds (some _) = false

abbrev outcome_ok : Outcome → Bool
outcome_ok (Outcome.ok _) = true
outcome_ok (Outcome.err _) = false

-- the deliveries of an end node
unfoldable pub end_deliveries : Reply → Node → Progress → Progress
end_deliveries r n p =
    let p' =
      if is_blank n.config.webhook_url
      then p
      else emit
          (Event.node_delivery n.id "webhook"
            (outcome_ok (execute_webhook n.config.webhook_url r.http)))
          p in
    if is_blank n.config.end_delivery.channel_id
    then p'
    else emit
        (Event.node_delivery n.id "gateway"
          (succeeds (deliver_gateway n.config.end_delivery r.gateway)))
        p'

-- a failure of the webhook is the node's output, so that a condition can branch on it
unfoldable pub webhook_output : Outcome → Node → Progress → Progress × Text
webhook_output (Outcome.ok out) n p = (p, out)
webhook_output (Outcome.err message) n p =
    (emit (Event.node_error n.id message) p, error_envelope message)

unfoldable pub gateway_events : Option Text → Node → Progress → Progress
gateway_events none n p = emit (Event.node_delivery n.id "gateway" true) p
gateway_events (some message) n p = emit (Event.node_error n.id message) p

-- a node that has its output passes it on
unfoldable pub pass_on : Env → Node → Text → List Edge → Walk → Branch → Progress → Walk × Turn
unfolding complete_node
pass_on env n out es w b p = (
  record w { progress = complete_node n (set_output n.id out p) },
  going (
      Next.again
        (enqueue env.graph es (record b { last_output = out; prev_node_name = node_name env n }))),
)

-- A failed sub-run fails the workflow; any other hands its output on.
unfoldable pub read_sub_run : Env → Reply → Node → List Edge → Walk → Branch → Walk × Turn
unfolding pass_on fail_workflow
read_sub_run env r n es w b =
    let message = node_name env n ++ (codes " failed: " ++ r.sub_run.error_message) in
    if is_failed r.sub_run.status
    then (
      fail_workflow message
          (record w { progress = emit (Event.node_error n.id message) w.progress }),
      returned,
    )
    else pass_on env n r.sub_run.output es w b w.progress

unfoldable pub finish_call : Env → Reply → NodeType → Node → Walk → Branch → Walk × Turn
unfolding read_sub_run pass_on end_deliveries webhook_output gateway_events
finish_call env r NodeType.finish n w b =
    (record w { progress = complete_node n (end_deliveries r n w.progress) }, going (Next.again b))
finish_call env r NodeType.webhook n w b =
    let (p, out) = webhook_output (execute_webhook n.config.url r.http) n w.progress in
    pass_on env n out (adj env.graph n.id) w b p
finish_call env r NodeType.gateway n w b =
    pass_on env n b.last_output (adj env.graph n.id) w b
      (gateway_events (deliver_gateway n.config.delivery r.gateway) n w.progress)
finish_call env r NodeType.supervisor n w b =
    read_sub_run env r n (keep (λ e. not (is_delegate e)) (adj env.graph n.id)) w b
finish_call env r _ n w b = read_sub_run env r n (adj env.graph n.id) w b

-- after `wg.Wait()` of a parallel node: its joins are enqueued in the order of their ids
unfoldable pub insert_sorted : ℕ → List ℕ → List ℕ
insert_sorted x [] = x ∷ []
insert_sorted x (y ∷ ys) = if ltb y x then y ∷ insert_sorted x ys else x ∷ (y ∷ ys)

unfoldable pub sort_ids : List ℕ → List ℕ
unfolding insert_sorted
sort_ids [] = []
sort_ids (x ∷ xs) = insert_sorted x (sort_ids xs)

unfoldable pub join_nodes : Env → List ℕ → List Node
join_nodes env [] = []
join_nodes env (id ∷ ids) =
    let rest = join_nodes env ids in elim (node_at env.graph id) [ none ↦ rest | some n ↦ n ∷ rest ]

unfoldable pub resume_parallel : Env → Node → List ℕ → Walk → Branch → Walk × Branch
unfolding complete_node sort_ids join_nodes
resume_parallel env n joins w b = (
  record w { progress = complete_node n w.progress },
  record b { queue = b.queue ++ join_nodes env (sort_ids joins) },
)
