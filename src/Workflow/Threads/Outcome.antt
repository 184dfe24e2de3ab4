-- ===== src/Workflow/Threads/Outcome.antt =====
-- How a walk settles the row of its run: `executeGroupRun` of
-- services/api/internal/api/handler/invoke.go.
use agent_nexus.Prelude.{
  ℕ, ◌≡◌, refl, ◌∙◌, ◌↔◌, ◌⊎◌, true, false, List, [], ◌∷◌, Option, none, arith,
}
use agent_nexus.Prelude.Text.{Text}
use agent_nexus.Run.{Run, running, success, failed, cancelled, fail_run, complete_run, cancel_row}
use agent_nexus.Workflow.Graph.{Node}
use agent_nexus.Workflow.State.{Checkpoint, Walk, Branch, Env}
use agent_nexus.Workflow.Nodes.{Answer}
use agent_nexus.Workflow.Turns.{Reply, begin_turn, finish_call, resume_parallel}
use agent_nexus.Workflow.Threads.{
  Config, Action, cancel_walk, run_actions, start_config, finish_walk,
}
use agent_nexus.Workflow.Threads.Steps.{started, finish_call-started}
use agent_nexus.Workflow.Threads.Invariant.{Keeps, run_actions-keeps}

-- A walk that is not marked runs or was cancelled; one that is marked has failed or was cancelled.
-- A cancelled run's context is done.
record Settled (w : Walk) : Type 0 where
  unmarked : w.run_marked ≡ false → (w.run.status ≡ running) ⊎ (w.run.status ≡ cancelled)
  marked : w.run_marked ≡ true → (w.run.status ≡ failed) ⊎ (w.run.status ≡ cancelled)
  stopped : w.run.status ≡ cancelled → w.ctx_done ≡ true

begin_turn-Settled :
    (env : Env) (a : Answer) (w : Walk) (q : List Node) (b : Branch)
    → Settled w
    → Settled (begin_turn env a w q b).0
unfolding begin_turn fail_run
begin_turn-Settled env a w [] b h = h
begin_turn-Settled env a w (n ∷ q) b h = ground arith

finish_call-Settled :
    (env : Env) (r : Reply) (n : Node) (w : Walk) (b : Branch)
    → Settled w
    → Settled (finish_call env r n.type n w b).0
unfolding finish_call fail_run
finish_call-Settled env r n w b h = ground arith

Settled-kept : (env : Env) → Keeps env Settled
unfolding resume_parallel cancel_walk cancel_row
Settled-kept env = record {
  begins = begin_turn-Settled env;
  finishes = finish_call-Settled env;
  resumes = λ n joins w b h. ground arith;
  cancels = λ w h. ground arith;
  disconnects = λ w h. ground arith;
}

abbrev IsCancelled : Walk → Type 0
IsCancelled w = w.run.status ≡ cancelled

begin_turn-IsCancelled :
    (env : Env) (a : Answer) (w : Walk) (q : List Node) (b : Branch)
    → IsCancelled w
    → IsCancelled (begin_turn env a w q b).0
unfolding begin_turn fail_run
begin_turn-IsCancelled env a w [] b h = h
begin_turn-IsCancelled env a w (n ∷ q) b h = ground arith

finish_call-IsCancelled :
    (env : Env) (r : Reply) (n : Node) (w : Walk) (b : Branch)
    → IsCancelled w
    → IsCancelled (finish_call env r n.type n w b).0
unfolding finish_call fail_run
finish_call-IsCancelled env r n w b h = ground arith

IsCancelled-kept : (env : Env) → Keeps env IsCancelled
unfolding resume_parallel cancel_walk cancel_row
IsCancelled-kept env = record {
  begins = begin_turn-IsCancelled env;
  finishes = finish_call-IsCancelled env;
  resumes = λ n joins w b h. ground arith;
  cancels = λ w h. ground arith;
  disconnects = λ w h. h;
}

finish_walk-cancelled :
    (env : Env) (w : Walk) → IsCancelled w → (finish_walk env w).run.status ≡ cancelled
unfolding finish_walk complete_run
finish_walk-cancelled env w h = ground arith

-- However the branches, cancels and disconnects interleave: when the walk is over, its run has
-- succeeded exactly when no branch failed it and it was not cancelled; a run that was cancelled at any
-- moment of the walk is cancelled from then on, whatever its branches still do, and stays so at the end;
-- and the checkpoint is gone.
pub finish_walk-status :
    (env : Env) (n : Node) (input : Text) (loops : List (ℕ × ℕ)) (saved : Option Checkpoint)
    (run : Run) (l more : List Action)
    → run.status ≡ running
    → let c = run_actions env (start_config n input loops saved run) l in
      let w = (run_actions env c more).walk in
      ((((finish_walk env w).run.status ≡ success)
          ↔ ((w.run_marked ≡ false) × (w.run.status ≡ running)))
        × (c.walk.run.status ≡ cancelled
            → (w.run.status ≡ cancelled) × ((finish_walk env w).run.status ≡ cancelled))
        × ((finish_walk env w).progress.checkpoint ≡ none))
unfolding finish_walk complete_run
finish_walk-status env n input loops saved run l more h =
    let c = run_actions env (start_config n input loops saved run) l in
    let w = (run_actions env c more).walk in
    let s = run_actions-keeps env Settled (Settled-kept env) c more (
      run_actions-keeps env Settled (Settled-kept env) (start_config n input loops saved run) l
        (ground arith)) in
    let stays = run_actions-keeps env IsCancelled (IsCancelled-kept env) c more in
    (ground arith, λ e. (stays e, finish_walk-cancelled env w (stays e)), ground arith)

finish_call-marked :
    (env : Env) (r : Reply) (n : Node) (w : Walk) (b : Branch)
    → w.run_marked ≡ true
    → (finish_call env r n.type n w b).0.run_marked ≡ true
unfolding finish_call
finish_call-marked env r n w b h = ground arith

-- A marked walk visits no further node and stays marked.
abbrev IsStopped : ℕ → Walk → Type 0
IsStopped k w = (w.run_marked ≡ true) × (started w.progress.log ≡ k)

begin_turn-IsStopped :
    (env : Env) (k : ℕ) (a : Answer) (w : Walk) (q : List Node) (b : Branch)
    → IsStopped k w
    → IsStopped k (begin_turn env a w q b).0
unfolding begin_turn
begin_turn-IsStopped env k a w [] b h = h
begin_turn-IsStopped env k a w (n ∷ q) b h = simp h.0 (refl, h.1)

IsStopped-kept : (env : Env) (k : ℕ) → Keeps env (IsStopped k)
unfolding resume_parallel cancel_walk
IsStopped-kept env k = record {
  begins = begin_turn-IsStopped env k;
  finishes =
      λ r n w b h. (finish_call-marked env r n w b h.0, finish_call-started env r n w b ∙ h.1);
  resumes = λ n joins w b h. ground arith;
  cancels = λ w h. ground arith;
  disconnects = λ w h. h;
}

-- Once a branch has failed the workflow, no branch visits another node, whatever happens next.
pub run_actions-marked :
    (env : Env) (c : Config) (l : List Action)
    → c.walk.run_marked ≡ true
    → ((run_actions env c l).walk.run_marked ≡ true)
      × (started (run_actions env c l).walk.progress.log ≡ started c.walk.progress.log)
run_actions-marked env c l h =
    run_actions-keeps env (IsStopped (started c.walk.progress.log))
      (IsStopped-kept env (started c.walk.progress.log)) c l (h, refl)
