-- ===== src/Workflow/Threads/Termination.antt =====
-- How many turns a walk takes: `executeGroupRun` of
-- services/api/internal/api/handler/invoke.go.
pub mod Progress
use agent_nexus.Prelude.{
  ℕ, zero, suc, ◌+◌, ◌-◌, ◌*◌, ◌≤◌, ◌<◌, ◌≡◌, refl, ap, ◌⊎◌, inl, inr, Bool, true, false, not, List,
  [], ◌∷◌, ◌++◌, map, Option, none, some, arith, length, length-append, keep, get_elem?, set, ◌==◌,
  if◌then◌else◌, Option-cases, Bool-cases,
}
use agent_nexus.Prelude.Text.{Text}
use agent_nexus.Run.{Run}
use agent_nexus.Workflow.Graph.{Node, Edge, Graph, node_at, adj, successors}
use agent_nexus.Workflow.State.{Checkpoint, Walk, Branch, Env}
use agent_nexus.Workflow.Nodes.{Answer, Next}
use agent_nexus.Workflow.Turns.{Reply, Turn, begin_turn, finish_call, resume_parallel}
use agent_nexus.Workflow.Threads.{
  Phase, ready, ended, calling, waiting, Thread, Config, Action, after_turn, child_thread,
  put_thread, thread_turn, turn_of, step, run_actions, has_live_child, start_config, cancel_walk,
}
use agent_nexus.Workflow.Threads.Invariant.{Keeps, step-keeps}
use agent_nexus.Workflow.Threads.Rounds.{
  Bounded, begin_turn-Bounded, finish_call-Bounded, finish_call-total_steps,
}
use agent_nexus.Workflow.Threads.Measure.{
  rank, weight, measure, ranks-append, ranks-set, out_rank, out_rank-le, begin_turn-counts,
  finish_call-is_simple, weight_step, resume_parallel-total_steps,
}

-- whether a turn of the thread does something
abbrev pub phase_can_go : Phase → ℕ → List Thread → Bool
phase_can_go ready i ts = true
phase_can_go ended i ts = false
phase_can_go (calling n) i ts = true
phase_can_go (waiting n joins) i ts = not (has_live_child i ts)

unfoldable pub can_go : Config → ℕ → Bool
can_go c i = elim (get_elem? c.threads i) [
  | none ↦ false
  | some t ↦ phase_can_go t.phase i c.threads
]

module _ (env : Env) (a : Answer) (r : Reply) (c : Config) (i : ℕ) (t : Thread)
    (at_i : get_elem? c.threads i ≡ some t) where
  -- a turn that puts back a thread and those that it starts
  measure_put :
      (w : Walk) (out : Thread × List Thread)
      → weight env.graph * (101 - w.total_steps) + out_rank out + 1
        ≤ weight env.graph * (101 - c.walk.total_steps) + rank t.phase
      → measure env (put_thread c i (w, out)) + 1 ≤ measure env c
  measure_put w (u, new) h =
      omega (arith, h, ranks-append (set c.threads i u) new, ranks-set c.threads i t u at_i)

  thread_turn-measure :
      Bounded c.walk
      → (ph : Phase) → t.phase ≡ ph
      → phase_can_go ph i c.threads ≡ true
      → measure env (thread_turn env i a r c ph t) + 1 ≤ measure env c
  unfolding thread_turn
  thread_turn-measure bd ready e h =
      let (w, tn) = begin_turn env a c.walk t.branch.queue t.branch in
      let (most, when_returned, _) = out_rank-le env i t tn in
      measure_put w (after_turn env i t tn)
        (elim (begin_turn-counts env a c.walk t.branch.queue t.branch bd) [
          | inl (over, same) ↦ omega (
            arith,
            ap (λ (s : ℕ). weight env.graph * (101 - s)) same,
            when_returned over,
            ap rank e,
          )
          | inr (counted, low) ↦ omega (
            arith,
            weight_step (weight env.graph) c.walk.total_steps w.total_steps counted low,
            most,
            ap rank e,
          )
        ])
  thread_turn-measure bd ended e h = cc
  thread_turn-measure bd (calling n) e h =
      let (w, tn) = finish_call env r n.type n c.walk t.branch in
      let (_, _, when_simple) = out_rank-le env i t tn in
      measure_put w (after_turn env i t tn) (
        omega (
          arith,
          ap (λ (s : ℕ). weight env.graph * (101 - s))
              (finish_call-total_steps env r n c.walk t.branch),
          when_simple (finish_call-is_simple env r n c.walk t.branch),
          ap rank e,
        ))
  thread_turn-measure bd (waiting n joins) e h =
      let (w, b) = resume_parallel env n joins c.walk t.branch in
      let free : has_live_child i c.threads ≡ false = ground arith in
      rw free (
        measure_put w (record t { branch = b; phase = ready }, [])
          (omega (
            arith,
            ap (λ (s : ℕ). weight env.graph * (101 - s))
                (resume_parallel-total_steps env n joins c.walk t.branch),
            ap rank e,
          )))

thread_turn-blocked :
    (env : Env) (a : Answer) (r : Reply) (c : Config) (i : ℕ) (t : Thread) (ph : Phase)
    → phase_can_go ph i c.threads ≡ false
    → thread_turn env i a r c ph t ≡ c
unfolding thread_turn
thread_turn-blocked env a r c i t ready h = cc
thread_turn-blocked env a r c i t ended h = refl
thread_turn-blocked env a r c i t (calling n) h = cc
thread_turn-blocked env a r c i t (waiting n joins) h =
    let busy : has_live_child i c.threads ≡ true = ground arith in rw busy

-- whether an action is a turn that its thread can take
abbrev pub is_effective : Config → Action → Bool
is_effective c (Action.turn i a r) = can_go c i
is_effective c _ = false

-- An action that is such a turn lowers the measure; any other leaves it alone.
step-measure :
    (env : Env) (c : Config) (act : Action)
    → Bounded c.walk
    → measure env (step env c act) + (if is_effective c act then 1 else 0) ≤ measure env c
unfolding step can_go cancel_walk
step-measure env c (Action.turn i a r) bd = elim (Option-cases (get_elem? c.threads i)) [
  | inl missing ↦ rw (missing, turn_of, can_go) (omega arith)
  | inr (t, found) ↦ elim (Bool-cases (phase_can_go t.phase i c.threads)) [
    | inl can ↦
        rw (found, turn_of, can_go)
          (rw can (thread_turn-measure env a r c i t found bd t.phase refl can))
    | inr blocked ↦
        rw (found, turn_of, can_go)
          (rw (blocked, thread_turn-blocked env a r c i t t.phase blocked) (omega arith))
  ]
]
step-measure env c Action.cancel bd = ground arith
step-measure env c Action.disconnect bd = omega arith

Bounded-kept : (env : Env) → Keeps env Bounded
unfolding resume_parallel cancel_walk
Bounded-kept env = record {
  begins = begin_turn-Bounded env;
  finishes = finish_call-Bounded env;
  resumes = λ n joins w b h. h;
  cancels = λ w h. ground arith;
  disconnects = λ w h. h;
}

-- how many actions of a run are turns that their threads can take
pub effective : Env → Config → List Action → ℕ
effective env c [] = 0
effective env c (a ∷ l) = (if is_effective c a then 1 else 0) + effective env (step env c a) l

effective-le :
    (env : Env) (c : Config) (l : List Action) → Bounded c.walk → effective env c l ≤ measure env c
unfolding effective
effective-le env c [] bd = omega arith
effective-le env c (a ∷ l) bd = omega (
  arith,
  step-measure env c a bd,
  effective-le env (step env c a) l (step-keeps env Bounded (Bounded-kept env) c a bd),
)

-- Every walk ends: under any order of the branches and any answers, the threads take at most
-- 101 * (edges + 2) + 1 turns in all.
pub effective-start-le :
    (env : Env) (n : Node) (input : Text) (loops : List (ℕ × ℕ)) (saved : Option Checkpoint)
    (run : Run) (l : List Action)
    → effective env (start_config n input loops saved run) l
      ≤ 101 * (length env.graph.edges + 2) + 1
effective-start-le env n input loops saved run l =
    omega (arith, effective-le env (start_config n input loops saved run) l (λ _. omega arith))
