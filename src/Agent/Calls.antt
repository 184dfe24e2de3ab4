-- ===== src/Agent/Calls.antt =====
-- One tool call of a batch (services/api/internal/api/handler/invoke.go): the branches of the loop
-- over `pendingCalls`.
use agent_nexus.Prelude.{
  ℕ, Bool, false, not, ◌&&◌, ◌||◌, List, [], ◌∷◌, Option, none, some, if◌then◌else◌,
}
use agent_nexus.Prelude.Text.{Text, codes, is_blank, text_eq}
use agent_nexus.Provider.{ToolCall}
use agent_nexus.Workflow.Delivery.{error_envelope}
use agent_nexus.Agent.State.{
  Effect, Loop, Rules, Approval, ToolReply, Answer, Outcome, lazy_tool_not_active_error,
  tool_message, add_message, note, log_action, count_call,
}

-- `parallelAgentResults`, the last write first
abbrev pub lookup_id : Text → List (Text × Text) → Option Text
lookup_id id [] = none
lookup_id id ((j, out) ∷ m) = if text_eq j id then some out else lookup_id id m

-- the call's message and its step
unfoldable pub answer_call : Rules → ToolCall → Text → Text → Loop → Outcome
unfolding count_call
answer_call r c content err_msg l =
    count_call r (add_message (tool_message c content (not (is_blank err_msg))) l)

-- `invokeToolByType` has returned
unfoldable pub finish_tool : Rules → ℕ → ToolCall → ToolReply → Loop → Outcome
unfolding answer_call log_action error_envelope
finish_tool r i c (ToolReply.output out) l = answer_call r c out [] (log_action r c [] l)
finish_tool r i c (ToolReply.failure message) l =
    answer_call r c (error_envelope message) message (log_action r c message l)
finish_tool r i c ToolReply.session_parked l = Outcome.parked i l

-- past the gates: a result of the parallel batch is used, or the tool is called
unfoldable pub run_tool : Rules → ℕ → List (Text × Text) → ToolCall → Answer → Loop → Outcome
unfolding answer_call log_action finish_tool
run_tool r i results c a l = elim (lookup_id c.id results) [
  | some out ↦ answer_call r c out [] (log_action r c [] l)
  | none ↦ finish_tool r i c a.reply (note (Effect.ran c.name) l)
]

-- A rejected call has its message and is no step.
abbrev pub rejected_call : ToolCall → Loop → Loop
rejected_call c l = add_message (tool_message c (codes "Tool call rejected by user.") false) l

unfoldable pub after_approval :
    Rules → ℕ → List (Text × Text) → ToolCall → Answer → Approval → Loop → Outcome
unfolding run_tool
after_approval r i results c a Approval.approved l = run_tool r i results c a l
after_approval r i results c a Approval.rejected l = Outcome.went_on (rejected_call c l)
after_approval r i results c a Approval.timed_out l =
    if r.parks then Outcome.parked i l else Outcome.failed (codes "approval timed out") l

-- the approval gate
unfoldable pub gate_call : Rules → ℕ → List (Text × Text) → ToolCall → Answer → Loop → Outcome
unfolding run_tool after_approval
gate_call r i results c a l =
    if r.requires_approval c.name
    then after_approval r i results c a a.approval (note (Effect.asked c.name) l)
    else run_tool r i results c a l

unfoldable pub delegate_call : Rules → List (Text × Text) → ToolCall → Answer → Loop → Outcome
unfolding answer_call
delegate_call r results c a l = elim (lookup_id c.id results) [
  | some out ↦ answer_call r c out [] l
  | none ↦ answer_call r c a.delegate_output [] (note (Effect.delegated c.name) l)
]

abbrev pub mark_memory : ToolCall → Loop → Loop
mark_memory c l = record l {
  memory_save_called = text_eq c.name (codes "native_save_memory") || l.memory_save_called;
}

-- the lazy gate
unfoldable pub lazy_call : Rules → ToolCall → Loop → Outcome
unfolding answer_call lazy_tool_not_active_error error_envelope
lazy_call r c l =
    answer_call r c (error_envelope (lazy_tool_not_active_error c.name (r.skill_of c.name))) [] l

-- a call of a batch that is not the one a run resumes at
unfoldable pub call_step : Rules → ℕ → List (Text × Text) → ToolCall → Answer → Loop → Outcome
unfolding delegate_call lazy_call gate_call
call_step r i results c a l =
    let marked = mark_memory c l in
    if a.ctx_done
    then Outcome.failed (codes "run cancelled") l
    else if r.is_delegate c.name
    then delegate_call r results c a marked
    else if r.lazy_tools && not (r.allowed c.name)
    then lazy_call r c marked
    else gate_call r i results c a marked

-- What a run resumes with: the decision on the call at its gate, or the result of its session.
pub data Resume : Type 0 where
  decision : Bool → Resume
  result : Text → Resume

-- the gate with `resumeDecision`
unfoldable pub resume_gate : Rules → ℕ → Bool → ToolCall → Answer → Loop → Outcome
unfolding run_tool
resume_gate r i granted c a l =
    if r.requires_approval c.name && not granted
    then Outcome.went_on (rejected_call c l)
    else run_tool r i [] c a l

-- the call that a run resumes at
unfoldable pub resume_step : Rules → ℕ → Resume → ToolCall → Answer → Loop → Outcome
unfolding answer_call log_action delegate_call lazy_call resume_gate
resume_step r i (Resume.result content) c a l =
    if a.ctx_done
    then Outcome.failed (codes "run cancelled") l
    else answer_call r c content [] (log_action r c [] l)
resume_step r i (Resume.decision granted) c a l =
    let marked = mark_memory c l in
    if a.ctx_done
    then Outcome.failed (codes "run cancelled") l
    else if r.is_delegate c.name
    then delegate_call r [] c a marked
    else if r.lazy_tools && not (r.allowed c.name)
    then lazy_call r c marked
    else resume_gate r i granted c a marked
