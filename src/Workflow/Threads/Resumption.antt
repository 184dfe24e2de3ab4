-- ===== src/Workflow/Threads/Resumption.antt =====
-- The use of checkpointed outputs: `consumeResumed` of
-- services/api/internal/api/handler/invoke.go.
use agent_nexus.Prelude.{
  ℕ, ◌+◌, ◌≤◌, ◌≡◌, true, List, [], ◌∷◌, Option, arith, ◌==◌, member, is_some, if◌then◌else◌,
}
use agent_nexus.Prelude.Text.{Text}
use agent_nexus.Prelude.Dict.{lookup}
use agent_nexus.Run.{Run}
use agent_nexus.Workflow.Graph.{NodeType, Node}
use agent_nexus.Workflow.State.{Event, Checkpoint, Progress, Walk, Branch, Env, emit}
use agent_nexus.Workflow.Nodes.{Answer, visit_node}
use agent_nexus.Workflow.Turns.{Reply, node_name, begin_turn, finish_call, resume_parallel}
use agent_nexus.Workflow.Threads.{Action, cancel_walk, run_actions, start_config}
use agent_nexus.Workflow.Threads.Invariant.{Keeps, run_actions-keeps}

abbrev is_resumed : ℕ → Event → ℕ
is_resumed id (Event.node_resumed j) = if j == id then 1 else 0
is_resumed id _ = 0

-- how often the cached output of a node was used
abbrev pub resumed : ℕ → List Event → ℕ
resumed id [] = 0
resumed id (e ∷ l) = is_resumed id e + resumed id l

abbrev is_sub_run : ℕ → Event → ℕ
is_sub_run id (Event.sub_run j _) = if j == id then 1 else 0
is_sub_run id _ = 0

-- how often a node started a sub-run
abbrev pub sub_runs : ℕ → List Event → ℕ
sub_runs id [] = 0
sub_runs id (e ∷ l) = is_sub_run id e + sub_runs id l

-- The events say how often a node is marked as used; a node with a cached output starts a sub-run
-- only after that.
abbrev Used : Env → ℕ → Progress → Type 0
Used env id p =
    (resumed id p.log ≡ (if member id p.consumed_resume then 1 else 0))
    × (is_some (lookup id env.resumed_outputs) ≡ true
        → 1 ≤ sub_runs id p.log
        → member id p.consumed_resume ≡ true)

visit_node-Used :
    (env : Env) (id : ℕ) (a : Answer) (ty : NodeType) (n : Node) (name : Text) (p : Progress)
    (b : Branch)
    → Used env id p
    → Used env id (visit_node env a ty n name p b).0
unfolding visit_node
visit_node-Used env id a NodeType.start n name p b h = ground arith
visit_node-Used env id a _ n name p b h = ground arith

finish_call-Used :
    (env : Env) (id : ℕ) (r : Reply) (n : Node) (w : Walk) (b : Branch)
    → Used env id w.progress
    → Used env id (finish_call env r n.type n w b).0.progress
unfolding finish_call
finish_call-Used env id r n w b h = ground arith

started-Used :
    (env : Env) (id j : ℕ) (p : Progress)
    → Used env id p
    → Used env id (emit (Event.node_started j) p)
started-Used env id j p h = (omega (arith, h.0), λ known ran. h.1 known (omega arith))

begin_turn-Used :
    (env : Env) (id : ℕ) (a : Answer) (w : Walk) (q : List Node) (b : Branch)
    → Used env id w.progress
    → Used env id (begin_turn env a w q b).0.progress
unfolding begin_turn
begin_turn-Used env id a w [] b h = h
begin_turn-Used env id a w (n ∷ q) b h = ground (
  arith,
  visit_node-Used env id a n.type n (node_name env n) (emit (Event.node_started n.id) w.progress)
      (record b { queue = q }) (started-Used env id n.id w.progress h),
)

Used-kept : (env : Env) (id : ℕ) → Keeps env (λ w. Used env id w.progress)
unfolding resume_parallel cancel_walk
Used-kept env id = record {
  begins = begin_turn-Used env id;
  finishes = finish_call-Used env id;
  resumes = λ n joins w b h. ground arith;
  cancels = λ w h. ground arith;
  disconnects = λ w h. h;
}

-- In a run that resumes from a checkpoint, under any order of the branches, the checkpointed output
-- of a node is used at most once, and a node that has one starts a sub-run only when its output has
-- been used.
pub run_actions-resumed :
    (env : Env) (id : ℕ) (n : Node) (input : Text) (loops : List (ℕ × ℕ))
    (saved : Option Checkpoint) (run : Run) (l : List Action)
    → let log = (run_actions env (start_config n input loops saved run) l).walk.progress.log in
      (resumed id log ≤ 1)
      × (is_some (lookup id env.resumed_outputs) ≡ true → 1 ≤ sub_runs id log → resumed id log ≡ 1)
run_actions-resumed env id n input loops saved run l =
    let h =
      run_actions-keeps env (λ w. Used env id w.progress) (Used-kept env id)
        (start_config n input loops saved run) l (omega arith, λ known ran. absurd (omega arith)) in
    (ground arith, λ known ran. ground (arith, h.1 known ran))
