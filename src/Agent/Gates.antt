-- ===== src/Agent/Gates.antt =====
-- The approval gate over a batch: `executeRun` of services/api/internal/api/handler/invoke.go.
use agent_nexus.Prelude.{
  ℕ, suc, ◌≡◌, ◌≢◌, refl, true, false, not, ◌&&◌, List, [], ◌∷◌, All, All-append, Option-cases,
  Bool-cases, inl, inr, arith,
}
use agent_nexus.Prelude.Text.{Text}
use agent_nexus.Provider.{ToolCall}
use agent_nexus.Workflow.Delivery.{error_envelope}
use agent_nexus.Agent.State.{
  Effect, Loop, Rules, Approval, ToolReply, Answer, Outcome, note, log_action, count_call, proceed,
  lazy_tool_not_active_error,
}
use agent_nexus.Agent.Calls.{
  lookup_id, answer_call, finish_tool, run_tool, after_approval, gate_call, delegate_call,
  lazy_call, mark_memory, call_step,
}
use agent_nexus.Agent.Batch.{Batch, runs_parallel, run_calls, run_batch}

abbrev pub loop_of : Outcome → Loop
loop_of (Outcome.went_on l) = l
loop_of (Outcome.failed message l) = l
loop_of (Outcome.parked i l) = l

-- an effect that is no call of a tool that requires approval
abbrev pub IsFree : Rules → Effect → Type 0
IsFree r (Effect.ran name) = r.requires_approval name ≡ false
IsFree r _ = Unit

-- the trace of an outcome has no call of such a tool
abbrev Free : Rules → Outcome → Type 0
Free r o = All (IsFree r) (loop_of o).trace

module _ (r : Rules) (c : ToolCall) (a : Answer) where
  answer_call-Free :
      (content err : Text) (m : Loop)
      → All (IsFree r) m.trace
      → Free r (answer_call r c content err m)
  unfolding answer_call count_call
  answer_call-Free content err m h = ground arith

  log_action-Free :
      (err : Text) (m : Loop) → All (IsFree r) m.trace → All (IsFree r) (log_action r c err m).trace
  unfolding log_action
  log_action-Free err m h = ground arith

  finish_tool-Free :
      (i : ℕ) (reply : ToolReply) (m : Loop)
      → All (IsFree r) m.trace
      → Free r (finish_tool r i c reply m)
  unfolding finish_tool
  finish_tool-Free i (ToolReply.output out) m h =
      answer_call-Free out [] (log_action r c [] m) (log_action-Free [] m h)
  finish_tool-Free i (ToolReply.failure e) m h =
      answer_call-Free (error_envelope e) e (log_action r c e m) (log_action-Free e m h)
  finish_tool-Free i ToolReply.session_parked m h = h

  run_tool-Free :
      (i : ℕ) (results : List (Text × Text)) (m : Loop)
      → r.requires_approval c.name ≡ false
      → All (IsFree r) m.trace
      → Free r (run_tool r i results c a m)
  unfolding run_tool
  run_tool-Free i results m free h = elim (Option-cases (lookup_id c.id results)) [
    | inl none ↦
        rw (run_tool, none)
          (finish_tool-Free i a.reply (note (Effect.ran c.name) m)
            (All-append (IsFree r) m.trace (Effect.ran c.name ∷ []) h (free, tt)))
    | inr (out, found) ↦
        rw (run_tool, found)
          (answer_call-Free out [] (log_action r c [] m) (log_action-Free [] m h))
  ]

  after_approval-Free :
      (i : ℕ) (results : List (Text × Text)) (v : Approval) (m : Loop)
      → v ≢ Approval.approved
      → All (IsFree r) m.trace
      → Free r (after_approval r i results c a v m)
  unfolding after_approval
  after_approval-Free i results Approval.approved m never h = absurd (never refl)
  after_approval-Free i results Approval.rejected m never h = h
  after_approval-Free i results Approval.timed_out m never h = ground arith

  gate_call-Free :
      (i : ℕ) (results : List (Text × Text)) (m : Loop)
      → (r.requires_approval c.name ≡ true → a.approval ≢ Approval.approved)
      → All (IsFree r) m.trace
      → Free r (gate_call r i results c a m)
  unfolding gate_call
  gate_call-Free i results m never h = elim (Bool-cases (r.requires_approval c.name)) [
    | inl gated ↦
        rw (gate_call, gated)
          (after_approval-Free i results a.approval (note (Effect.asked c.name) m) (never gated)
            (All-append (IsFree r) m.trace (Effect.asked c.name ∷ []) h (tt, tt)))
    | inr free ↦ rw (gate_call, free) (run_tool-Free i results m free h)
  ]

  delegate_call-Free :
      (results : List (Text × Text)) (m : Loop)
      → All (IsFree r) m.trace
      → Free r (delegate_call r results c a m)
  unfolding delegate_call
  delegate_call-Free results m h = elim (Option-cases (lookup_id c.id results)) [
    | inl none ↦
        rw (delegate_call, none)
          (answer_call-Free a.delegate_output [] (note (Effect.delegated c.name) m)
            (All-append (IsFree r) m.trace (Effect.delegated c.name ∷ []) h (tt, tt)))
    | inr (out, found) ↦ rw (delegate_call, found) (answer_call-Free out [] m h)
  ]

  call_step-Free :
      (i : ℕ) (results : List (Text × Text)) (l : Loop)
      → (r.requires_approval c.name ≡ true → a.approval ≢ Approval.approved)
      → All (IsFree r) l.trace
      → Free r (call_step r i results c a l)
  unfolding call_step lazy_call
  call_step-Free i results l never h = elim (Bool-cases a.ctx_done) [
    | inl done ↦ rw (call_step, done) h
    | inr live ↦ elim (Bool-cases (r.is_delegate c.name)) [
      | inl delegate ↦
          rw (call_step, live, delegate) (delegate_call-Free results (mark_memory c l) h)
      | inr own ↦ elim (Bool-cases (r.lazy_tools && not (r.allowed c.name))) [
        | inl lazy ↦
            rw (call_step, live, own, lazy)
              (answer_call-Free
                (error_envelope (lazy_tool_not_active_error c.name (r.skill_of c.name))) []
                (mark_memory c l) h)
        | inr offered ↦
            rw (call_step, live, own, offered) (gate_call-Free i results (mark_memory c l) never h)
      ]
    ]
  ]

-- the call requires approval and does not get it
abbrev pub Ungranted : Rules → ToolCall × Answer → Type 0
Ungranted r (c, a) = r.requires_approval c.name ≡ true → a.approval ≢ Approval.approved

proceed-Free :
    (r : Rules) (o : Outcome) (next : Loop → Outcome)
    → Free r o
    → ((l : Loop) → All (IsFree r) l.trace → Free r (next l))
    → Free r (proceed o next)
proceed-Free r (Outcome.went_on l) next h k = k l h
proceed-Free r (Outcome.failed message l) next h k = h
proceed-Free r (Outcome.parked i l) next h k = h

run_calls-Free :
    (r : Rules) (i : ℕ) (results : List (Text × Text)) (batch : Batch) (l : Loop)
    → All (Ungranted r) batch
    → All (IsFree r) l.trace
    → Free r (run_calls r i results batch l)
unfolding run_calls
run_calls-Free r i results [] l never h = h
run_calls-Free r i results ((c, a) ∷ batch) l (one, never) h =
    proceed-Free r (call_step r i results c a l) (run_calls r (suc i) results batch)
      (call_step-Free r c a i results l one h)
      (λ l1 k. run_calls-Free r (suc i) results batch l1 never k)

-- When the agent calls of a batch do not run at the same time and no call of the batch that requires
-- approval gets it, no tool that requires approval is called, however the batch ends: it goes
-- through, fails or parks.
pub run_batch-IsFree :
    (r : Rules) (batch : Batch) (l : Loop)
    → runs_parallel r batch ≡ false
    → All (Ungranted r) batch
    → All (IsFree r) l.trace
    → All (IsFree r) (loop_of (run_batch r batch l)).trace
unfolding run_batch
run_batch-IsFree r batch l few never h = rw (run_batch, few) (run_calls-Free r 0 [] batch l never h)
