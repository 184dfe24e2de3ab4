-- ===== src/Agent/Answering.antt =====
-- The tool message and the step of a call: `executeRun` of
-- services/api/internal/api/handler/invoke.go.
use agent_nexus.Prelude.{
  ℕ, suc, ◌≤◌, ◌≡◌, ◌⊎◌, inl, inr, refl, false, not, ◌&&◌, List, [], ◌∷◌, ◌++◌, Bool-cases,
  Option-cases, arith,
}
use agent_nexus.Prelude.Text.{Text, is_blank, codes}
use agent_nexus.Provider.{Message, ToolCall}
use agent_nexus.Workflow.Delivery.{error_envelope}
use agent_nexus.Agent.State.{
  Effect, Loop, Rules, Approval, ToolReply, Answer, Outcome, tool_message, note, log_action,
  count_call, lazy_tool_not_active_error,
}
use agent_nexus.Agent.Calls.{
  lookup_id, answer_call, finish_tool, run_tool, after_approval, gate_call, delegate_call,
  lazy_call, mark_memory, call_step,
}

-- The loop after a call: one more tool message, with the call's id, and one more step within the limit,
-- or, when the call was rejected, no step.
pub record Answered (r : Rules) (c : ToolCall) (a : Answer) (l l2 : Loop) : Type 0 where
  pub message : Message
  pub appended : l2.messages ≡ l.messages ++ message ∷ []
  pub answers : message.tool_call_id ≡ c.id
  pub is_tool : message.role ≡ codes "tool"
  pub steps :
      ((l2.step_count ≡ suc l.step_count) × (l2.step_count ≤ r.max_steps))
      ⊎ ((l2.step_count ≡ l.step_count) × (a.approval ≡ Approval.rejected))

failed≢went_on : {message : Text} {l l2 : Loop} → Outcome.failed message l ≡ Outcome.went_on l2 → ⊥
failed≢went_on h = ground arith

module _ (r : Rules) (c : ToolCall) (a : Answer) (l l2 : Loop) where
  abbrev Same : Loop → Type 0
  Same m = (m.messages ≡ l.messages) × (m.step_count ≡ l.step_count)

  answer_call-Answered :
      (content err : Text) (m : Loop)
      → Same m
      → answer_call r c content err m ≡ Outcome.went_on l2
      → Answered r c a l l2
  unfolding answer_call count_call
  answer_call-Answered content err m same h = record {
    message = tool_message c content (not (is_blank err));
    appended = ground arith;
    answers = refl;
    is_tool = refl;
    steps = ground arith;
  }

  log_action-Same : (err : Text) (m : Loop) → Same m → Same (log_action r c err m)
  unfolding log_action
  log_action-Same err m same = ground arith

  finish_tool-Answered :
      (i : ℕ) (reply : ToolReply) (m : Loop)
      → Same m
      → finish_tool r i c reply m ≡ Outcome.went_on l2
      → Answered r c a l l2
  unfolding finish_tool
  finish_tool-Answered i (ToolReply.output out) m same h =
      answer_call-Answered out [] (log_action r c [] m) (log_action-Same [] m same) h
  finish_tool-Answered i (ToolReply.failure e) m same h =
      answer_call-Answered (error_envelope e) e (log_action r c e m) (log_action-Same e m same) h
  finish_tool-Answered i ToolReply.session_parked m same h = ground arith

  run_tool-Answered :
      (i : ℕ) (results : List (Text × Text)) (m : Loop)
      → Same m
      → run_tool r i results c a m ≡ Outcome.went_on l2
      → Answered r c a l l2
  unfolding run_tool
  run_tool-Answered i results m same h = elim (Option-cases (lookup_id c.id results)) [
    | inl none ↦
        finish_tool-Answered i a.reply (note (Effect.ran c.name) m) same (rw (run_tool, none) at h)
    | inr (out, found) ↦
        answer_call-Answered out [] (log_action r c [] m) (log_action-Same [] m same)
          (rw (run_tool, found) at h)
  ]

  after_approval-Answered :
      (i : ℕ) (results : List (Text × Text)) (v : Approval) (m : Loop)
      → a.approval ≡ v
      → Same m
      → after_approval r i results c a v m ≡ Outcome.went_on l2
      → Answered r c a l l2
  unfolding after_approval
  after_approval-Answered i results Approval.approved m e same h =
      run_tool-Answered i results m same h
  after_approval-Answered i results Approval.rejected m e same h = record {
    message = tool_message c (codes "Tool call rejected by user.") false;
    appended = ground arith;
    answers = refl;
    is_tool = refl;
    steps = ground arith;
  }
  after_approval-Answered i results Approval.timed_out m e same h = ground arith

  gate_call-Answered :
      (i : ℕ) (results : List (Text × Text)) (m : Loop)
      → Same m
      → gate_call r i results c a m ≡ Outcome.went_on l2
      → Answered r c a l l2
  unfolding gate_call
  gate_call-Answered i results m same h = elim (Bool-cases (r.requires_approval c.name)) [
    | inl gated ↦
        after_approval-Answered i results a.approval (note (Effect.asked c.name) m) refl same
          (rw (gate_call, gated) at h)
    | inr free ↦ run_tool-Answered i results m same (rw (gate_call, free) at h)
  ]

  delegate_call-Answered :
      (results : List (Text × Text)) (m : Loop)
      → Same m
      → delegate_call r results c a m ≡ Outcome.went_on l2
      → Answered r c a l l2
  unfolding delegate_call
  delegate_call-Answered results m same h = elim (Option-cases (lookup_id c.id results)) [
    | inl none ↦
        answer_call-Answered a.delegate_output [] (note (Effect.delegated c.name) m) same
          (rw (delegate_call, none) at h)
    | inr (out, found) ↦ answer_call-Answered out [] m same (rw (delegate_call, found) at h)
  ]

  lazy_call-Answered :
      (m : Loop) → Same m → lazy_call r c m ≡ Outcome.went_on l2 → Answered r c a l l2
  unfolding lazy_call
  lazy_call-Answered m same h =
      answer_call-Answered (error_envelope (lazy_tool_not_active_error c.name (r.skill_of c.name)))
        [] m same h

  pub call_step-Answered :
      (i : ℕ) (results : List (Text × Text))
      → call_step r i results c a l ≡ Outcome.went_on l2
      → Answered r c a l l2
  unfolding call_step
  call_step-Answered i results h = elim (Bool-cases a.ctx_done) [
    | inl done ↦ absurd (failed≢went_on (rw (call_step, done) at h))
    | inr live ↦ elim (Bool-cases (r.is_delegate c.name)) [
      | inl delegate ↦
          delegate_call-Answered results (mark_memory c l) (refl, refl)
            (rw (call_step, live, delegate) at h)
      | inr own ↦ elim (Bool-cases (r.lazy_tools && not (r.allowed c.name))) [
        | inl lazy ↦
            lazy_call-Answered (mark_memory c l) (refl, refl) (rw (call_step, live, own, lazy) at h)
        | inr offered ↦
            gate_call-Answered i results (mark_memory c l) (refl, refl)
              (rw (call_step, live, own, offered) at h)
      ]
    ]
  ]
