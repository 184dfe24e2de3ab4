-- ===== src/Agent/Replies.antt =====
-- The tool messages and the steps of a batch: `executeRun` of
-- services/api/internal/api/handler/invoke.go.
use agent_nexus.Prelude.{
  ℕ, suc, ◌+◌, ◌≤◌, ◌≡◌, inl, inr, refl, ◌∙◌, ap, Bool, true, false, List, [], ◌∷◌, ◌++◌, length,
  All, count, bit, keep, Bool-cases, arith,
}
use mathlib.Core.List.{append_assoc, append-nil}
use agent_nexus.Prelude.Text.{Text, codes}
use agent_nexus.Provider.{Message, ToolCall}
use agent_nexus.Agent.State.{Effect, Loop, Rules, Approval, Answer, Outcome, note, proceed-went_on}
use agent_nexus.Agent.Calls.{call_step}
use agent_nexus.Agent.Batch.{
  Batch, is_agent_call, parallel_content, run_agents, run_calls, runs_parallel, run_batch,
}
use agent_nexus.Agent.Answering.{Answered, call_step-Answered}

abbrev pub is_rejected : ToolCall × Answer → Bool
is_rejected (c, a) = elim a.approval [ Approval.rejected ↦ true | _ ↦ false ]

abbrev pub call_ids : Batch → List Text
call_ids [] = []
call_ids ((c, a) ∷ batch) = c.id ∷ call_ids batch

abbrev pub reply_ids : List Message → List Text
reply_ids [] = []
reply_ids (m ∷ ms) = m.tool_call_id ∷ reply_ids ms

-- the loop after a batch: a tool message for each call in order, and the steps
pub record Replied (r : Rules) (batch : Batch) (l l2 : Loop) : Type 0 where
  pub replies : List Message
  pub appended : l2.messages ≡ l.messages ++ replies
  pub ids : reply_ids replies ≡ call_ids batch
  pub roles : All (λ (m : Message). m.role ≡ codes "tool") replies
  pub bounded : l.step_count ≤ r.max_steps → l2.step_count ≤ r.max_steps
  pub counted : l.step_count + length batch ≤ l2.step_count + count is_rejected batch

appended_cons :
    (ms ms1 ms2 rest : List Message) (m : Message)
    → ms1 ≡ ms ++ m ∷ []
    → ms2 ≡ ms1 ++ rest
    → ms2 ≡ ms ++ m ∷ rest
appended_cons ms ms1 ms2 rest m h k = k ∙ ap (λ l. l ++ rest) h ∙ append_assoc ms (m ∷ []) rest

Answered-bounded :
    (r : Rules) (c : ToolCall) (a : Answer) (l l1 : Loop)
    → Answered r c a l l1
    → (l.step_count ≤ r.max_steps → l1.step_count ≤ r.max_steps)
      × (suc l.step_count ≤ l1.step_count + bit (is_rejected (c, a)))
Answered-bounded r c a l l1 h = (ground (arith, h.steps), ground (arith, h.steps))

run_calls-Replied :
    (r : Rules) (i : ℕ) (results : List (Text × Text)) (batch : Batch) (l l2 : Loop)
    → run_calls r i results batch l ≡ Outcome.went_on l2
    → Replied r batch l l2
unfolding run_calls
run_calls-Replied r i results [] l l2 h = record {
  replies = [];
  appended = ground (arith, append-nil l.messages);
  ids = refl;
  roles = tt;
  bounded = ground arith;
  counted = ground arith;
}
run_calls-Replied r i results ((c, a) ∷ batch) l l2 h =
    let (l1, on, later) =
      proceed-went_on (call_step r i results c a l) (run_calls r (suc i) results batch) l2 h in
    let one = call_step-Answered r c a l l1 i results on in
    let (within, stepped) = Answered-bounded r c a l l1 one in
    let rest = run_calls-Replied r (suc i) results batch l1 l2 later in
    record {
      replies = one.message ∷ rest.replies;
      appended =
          appended_cons l.messages l1.messages l2.messages rest.replies one.message one.appended
            rest.appended;
      ids = rw (one.answers, rest.ids) refl;
      roles = (one.is_tool, rest.roles);
      bounded = λ le. rest.bounded (within le);
      counted = omega (arith, rest.counted, stepped);
    }

run_agents-messages :
    (r : Rules) (batch : Batch) (results : List (Text × Text)) (l : Loop)
    → let l2 = (run_agents r batch results l).1 in
      (l2.messages ≡ l.messages) × (l2.step_count ≡ l.step_count)
unfolding run_agents
run_agents-messages r [] results l = (refl, refl)
run_agents-messages r ((c, a) ∷ rest) results l = elim (Bool-cases (r.is_delegate c.name)) [
  | inl handed ↦ rw handed (
      run_agents-messages r rest ((c.id, a.delegate_output) ∷ results)
        (note (Effect.delegated c.name) l))
  | inr own ↦ rw own (
      run_agents-messages r rest ((c.id, parallel_content a.reply) ∷ results)
        (note (Effect.ran c.name) l))
]

Replied-start :
    (r : Rules) (batch : Batch) (l l1 l2 : Loop)
    → l1.messages ≡ l.messages
    → l1.step_count ≡ l.step_count
    → Replied r batch l1 l2
    → Replied r batch l l2
Replied-start r batch l l1 l2 same steps h = record {
  replies = h.replies;
  appended = h.appended ∙ ap (λ ms. ms ++ h.replies) same;
  ids = h.ids;
  roles = h.roles;
  bounded = ground (arith, h.bounded);
  counted = ground (arith, h.counted);
}

-- When a batch of tool calls goes through, each call of it has been answered by exactly one
-- message of role tool with its id, in the order of the calls, after the messages that were there; the steps are
-- still within the limit if they were, and every call that was not rejected has counted as a step.
pub run_batch-Replied :
    (r : Rules) (batch : Batch) (l l2 : Loop)
    → run_batch r batch l ≡ Outcome.went_on l2
    → Replied r batch l l2
unfolding run_batch
run_batch-Replied r batch l l2 h = elim (Bool-cases (runs_parallel r batch)) [
  | inl several ↦
      let (results, l1) = run_agents r (keep (is_agent_call r) batch) [] l in
      let same = run_agents-messages r (keep (is_agent_call r) batch) [] l in
      Replied-start r batch l l1 l2 same.0 same.1
        (run_calls-Replied r 0 results batch l1 l2 (rw (run_batch, several) at h))
  | inr few ↦ run_calls-Replied r 0 [] batch l l2 (rw (run_batch, few) at h)
]
