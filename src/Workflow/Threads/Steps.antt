-- ===== src/Workflow/Threads/Steps.antt =====
-- The circuit breaker of the walk: `maxTotalSteps` of
-- services/api/internal/api/handler/invoke.go.
use agent_nexus.Prelude.{ℕ, ◌+◌, ◌≤◌, ◌≡◌, List, [], ◌∷◌, Option, arith}
use agent_nexus.Prelude.Text.{Text}
use agent_nexus.Run.{Run}
use agent_nexus.Workflow.Graph.{NodeType, Node}
use agent_nexus.Workflow.State.{Event, Checkpoint, Progress, Walk, Branch, Env, emit}
use agent_nexus.Workflow.Nodes.{Answer, visit_node}
use agent_nexus.Workflow.Turns.{Reply, node_name, begin_turn, finish_call, resume_parallel}
use agent_nexus.Workflow.Threads.{Action, cancel_walk, run_actions, start_config}
use agent_nexus.Workflow.Threads.Rounds.{finish_call-total_steps}
use agent_nexus.Workflow.Threads.Invariant.{Keeps, run_actions-keeps}

abbrev pub is_started : Event → ℕ
is_started (Event.node_started _) = 1
is_started _ = 0

-- how many nodes were visited
abbrev pub started : List Event → ℕ
started [] = 0
started (e ∷ l) = is_started e + started l

visit_node-started :
    (env : Env) (a : Answer) (ty : NodeType) (n : Node) (name : Text) (p : Progress) (b : Branch)
    → started (visit_node env a ty n name p b).0.log ≡ started p.log
unfolding visit_node
visit_node-started env a NodeType.start n name p b = ground arith
visit_node-started env a _ n name p b = ground arith

pub finish_call-started :
    (env : Env) (r : Reply) (n : Node) (w : Walk) (b : Branch)
    → started (finish_call env r n.type n w b).0.progress.log ≡ started w.progress.log
unfolding finish_call
finish_call-started env r n w b = ground arith

-- The count of steps covers the visits, which pass 100 no more than it does.
abbrev Counted : Walk → Type 0
Counted w = (started w.progress.log ≤ w.total_steps) × (started w.progress.log ≤ 100)

begin_turn-Counted :
    (env : Env) (a : Answer) (w : Walk) (q : List Node) (b : Branch)
    → Counted w
    → Counted (begin_turn env a w q b).0
unfolding begin_turn
begin_turn-Counted env a w [] b h = h
begin_turn-Counted env a w (n ∷ q) b h = ground (
  arith,
  visit_node-started env a n.type n (node_name env n) (emit (Event.node_started n.id) w.progress)
      (record b { queue = q }),
)

finish_call-Counted :
    (env : Env) (r : Reply) (n : Node) (w : Walk) (b : Branch)
    → Counted w
    → Counted (finish_call env r n.type n w b).0
finish_call-Counted env r n w b h =
    omega (arith, finish_call-started env r n w b, finish_call-total_steps env r n w b)

Counted-kept : (env : Env) → Keeps env Counted
unfolding resume_parallel cancel_walk
Counted-kept env = record {
  begins = begin_turn-Counted env;
  finishes = finish_call-Counted env;
  resumes = λ n joins w b h. ground arith;
  cancels = λ w h. ground arith;
  disconnects = λ w h. h;
}

-- Whatever the graph, the order of the branches and the answers from outside, a walk visits at most
-- 100 nodes.
pub run_actions-started-le :
    (env : Env) (n : Node) (input : Text) (loops : List (ℕ × ℕ)) (saved : Option Checkpoint)
    (run : Run) (l : List Action)
    → started (run_actions env (start_config n input loops saved run) l).walk.progress.log ≤ 100
run_actions-started-le env n input loops saved run l =
    (run_actions-keeps env Counted (Counted-kept env) (start_config n input loops saved run) l
      (omega arith, omega arith)).1
