-- ===== src/Workflow/Threads/Rounds.antt =====
-- What one turn of a thread does to the number of steps, the mark and the thread's rank:
-- `walkBranch` of services/api/internal/api/handler/invoke.go.
use agent_nexus.Prelude.{◌≤◌, ◌≡◌, false, List, [], ◌∷◌, arith}
use agent_nexus.Workflow.Graph.{Node}
use agent_nexus.Workflow.State.{Walk, Branch, Env}
use agent_nexus.Workflow.Nodes.{Answer}
use agent_nexus.Workflow.Turns.{Reply, begin_turn, finish_call}

-- The steps pass the limit only in a run that is marked as failed.
abbrev pub Bounded : Walk → Type 0
Bounded w = w.run_marked ≡ false → w.total_steps ≤ 100

pub begin_turn-Bounded :
    (env : Env) (a : Answer) (w : Walk) (q : List Node) (b : Branch)
    → Bounded w
    → Bounded (begin_turn env a w q b).0
unfolding begin_turn
begin_turn-Bounded env a w [] b h = h
begin_turn-Bounded env a w (n ∷ q) b h = ground arith

pub finish_call-Bounded :
    (env : Env) (r : Reply) (n : Node) (w : Walk) (b : Branch)
    → Bounded w
    → Bounded (finish_call env r n.type n w b).0
unfolding finish_call
finish_call-Bounded env r n w b h = ground arith

pub finish_call-total_steps :
    (env : Env) (r : Reply) (n : Node) (w : Walk) (b : Branch)
    → (finish_call env r n.type n w b).0.total_steps ≡ w.total_steps
unfolding finish_call
finish_call-total_steps env r n w b = ground arith
