-- ===== src/Agent/Batch.antt =====
-- The calls of one batch (services/api/internal/api/handler/invoke.go): the agent calls that run at
-- the same time, the loop over the calls, and the loop from the call that a run resumes at.
use agent_nexus.Prelude.{ℕ, suc, Bool, ◌||◌, List, [], ◌∷◌, ltb, count, keep, if◌then◌else◌}
use agent_nexus.Prelude.Text.{Text, codes, text_eq}
use agent_nexus.Provider.{ToolCall}
use agent_nexus.Workflow.Delivery.{error_envelope}
use agent_nexus.Agent.State.{Effect, Loop, Rules, ToolReply, Answer, Outcome, note, proceed}
use agent_nexus.Agent.Calls.{Resume, call_step, resume_step}

abbrev pub Batch : Type 0
Batch = List (ToolCall × Answer)

abbrev pub is_agent_call : Rules → ToolCall × Answer → Bool
is_agent_call r (c, a) = text_eq c.name (codes "native_call_agent") || r.is_delegate c.name

-- the content of an agent call that ran in a goroutine
unfoldable pub parallel_content : ToolReply → Text
unfolding error_envelope
parallel_content (ToolReply.output out) = out
parallel_content (ToolReply.failure message) = error_envelope message
parallel_content ToolReply.session_parked =
    error_envelope (codes "run parked awaiting external callback")

-- The results of the agent calls, collected in the order of the batch, and what they did.
unfoldable pub run_agents : Rules → Batch → List (Text × Text) → Loop → List (Text × Text) × Loop
unfolding parallel_content
run_agents r [] results l = (results, l)
run_agents r ((c, a) ∷ rest) results l =
    if r.is_delegate c.name
    then run_agents r rest ((c.id, a.delegate_output) ∷ results) (note (Effect.delegated c.name) l)
    else run_agents r rest ((c.id, parallel_content a.reply) ∷ results) (note (Effect.ran c.name) l)

-- the loop over the calls from index `i` on
unfoldable pub run_calls : Rules → ℕ → List (Text × Text) → Batch → Loop → Outcome
unfolding call_step
run_calls r i results [] l = Outcome.went_on l
run_calls r i results ((c, a) ∷ rest) l =
    proceed (call_step r i results c a l) (λ l2. run_calls r (suc i) results rest l2)

-- whether the agent calls of a batch run at the same time
abbrev pub runs_parallel : Rules → Batch → Bool
runs_parallel r batch = ltb 1 (count (is_agent_call r) batch)

-- a batch that the model has just asked for
unfoldable pub run_batch : Rules → Batch → Loop → Outcome
unfolding run_agents run_calls
run_batch r batch l =
    let (results, l2) = run_agents r (keep (is_agent_call r) batch) [] l in
    if runs_parallel r batch then run_calls r 0 results batch l2 else run_calls r 0 [] batch l

-- the rest of a batch, from the call at index `i` at which the run parked
unfoldable pub resume_calls : Rules → ℕ → Resume → Batch → Loop → Outcome
unfolding resume_step run_calls
resume_calls r i how [] l = Outcome.went_on l
resume_calls r i how ((c, a) ∷ rest) l =
    proceed (resume_step r i how c a l) (λ l2. run_calls r (suc i) [] rest l2)
