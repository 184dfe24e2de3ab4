-- ===== src/Workflow/Threads/Invariant.antt =====
-- Properties of the walk that every turn keeps: `executeGroupRun` of
-- services/api/internal/api/handler/invoke.go.
use agent_nexus.Prelude.{ℕ, true, List, [], ◌∷◌, get_elem?, Option-cases, Bool-cases, inl, inr}
use agent_nexus.Workflow.Graph.{Node}
use agent_nexus.Workflow.State.{Walk, Branch, Env}
use agent_nexus.Workflow.Nodes.{Answer}
use agent_nexus.Workflow.Turns.{Reply, begin_turn, finish_call, resume_parallel}
use agent_nexus.Workflow.Threads.{
  Phase, Thread, Config, Action, thread_turn, turn_of, cancel_walk, step, run_actions,
  has_live_child,
}

pub record Keeps (env : Env) (P : Walk → Type 0) : Type 0 where
  pub begins :
      (a : Answer) (w : Walk) (q : List Node) (b : Branch) → P w → P (begin_turn env a w q b).0
  pub finishes :
      (r : Reply) (n : Node) (w : Walk) (b : Branch) → P w → P (finish_call env r n.type n w b).0
  pub resumes :
      (n : Node) (joins : List ℕ) (w : Walk) (b : Branch)
      → P w
      → P (resume_parallel env n joins w b).0
  pub cancels : (w : Walk) → P w → P (cancel_walk w)
  pub disconnects : (w : Walk) → P w → P (record w { ctx_done = true })

module _ (env : Env) (P : Walk → Type 0) (k : Keeps env P) where
  thread_turn-keeps :
      (i : ℕ) (a : Answer) (r : Reply) (c : Config) (ph : Phase) (t : Thread)
      → P c.walk
      → P (thread_turn env i a r c ph t).walk
  unfolding thread_turn
  thread_turn-keeps i a r c Phase.ready t h = k.begins a c.walk t.branch.queue t.branch h
  thread_turn-keeps i a r c (Phase.calling n) t h = k.finishes r n c.walk t.branch h
  thread_turn-keeps i a r c (Phase.waiting n joins) t h =
      elim (Bool-cases (has_live_child i c.threads)) [
        | inl busy ↦ rw busy h
        | inr free ↦ rw free (k.resumes n joins c.walk t.branch h)
      ]
  thread_turn-keeps i a r c Phase.ended t h = h

  pub step-keeps : (c : Config) (a : Action) → P c.walk → P (step env c a).walk
  unfolding step
  step-keeps c (Action.turn i a r) h = elim (Option-cases (get_elem? c.threads i)) [
    | inl missing ↦ rw (missing, turn_of) h
    | inr (t, found) ↦ rw (found, turn_of) (thread_turn-keeps i a r c t.phase t h)
  ]
  step-keeps c Action.cancel h = k.cancels c.walk h
  step-keeps c Action.disconnect h = k.disconnects c.walk h

  pub run_actions-keeps : (c : Config) (l : List Action) → P c.walk → P (run_actions env c l).walk
  unfolding run_actions
  run_actions-keeps c [] h = h
  run_actions-keeps c (a ∷ l) h = run_actions-keeps (step env c a) l (step-keeps c a h)
