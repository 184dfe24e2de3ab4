-- ===== src/Agent/Parking.antt =====
-- Parking in a batch of tool calls and resuming it: `executeRun` of
-- services/api/internal/api/handler/invoke.go.
use agent_nexus.Prelude.{
  ℕ, suc, ◌+◌, ◌≡◌, ◌≢◌, refl, ◌∙◌, ap, Bool, true, List, [], ◌∷◌, ◌++◌, length, if◌then◌else◌,
  arith,
}
use agent_nexus.Prelude.Text.{Text}
use agent_nexus.Provider.{ToolCall}
use agent_nexus.Agent.State.{Loop, Rules, Approval, ToolReply, Answer, Outcome, proceed-went_on}
use agent_nexus.Agent.Calls.{Resume, call_step, resume_step}
use agent_nexus.Agent.Batch.{Batch, run_calls, resume_calls}

-- the answers of a call whose decision came while the goroutine waited
abbrev pub decided : Bool → Answer → Answer
decided granted a = record a { approval = if granted then Approval.approved else Approval.rejected }

run_calls-append :
    (r : Rules) (i : ℕ) (results : List (Text × Text)) (before after : Batch) (l l2 : Loop)
    → run_calls r i results before l ≡ Outcome.went_on l2
    → run_calls r i results (before ++ after) l ≡ run_calls r (i + length before) results after l2
unfolding run_calls
run_calls-append r i results [] after l l2 h = ground arith
run_calls-append r i results ((c, a) ∷ before) after l l2 h =
    let (l1, on, later) =
      proceed-went_on (call_step r i results c a l) (run_calls r (suc i) results before) l2 h in
    rw on (
      run_calls-append r (suc i) results before after l1 l2 later
      ∙ ap (λ n. run_calls r n results after l2) (omega arith))

run_calls-append_start :
    (r : Rules) (before after : Batch) (l l2 : Loop)
    → run_calls r 0 [] before l ≡ Outcome.went_on l2
    → run_calls r 0 [] (before ++ after) l ≡ run_calls r (length before) [] after l2
run_calls-append_start r before after l l2 h =
    run_calls-append r 0 [] before after l l2 h ∙ ap (λ n. run_calls r n [] after l2) (omega arith)

gate_parked :
    (r : Rules) (i : ℕ) (c : ToolCall) (a : Answer) (l l2 : Loop) (granted : Bool)
    → a.approval ≡ Approval.timed_out
    → r.requires_approval c.name ≡ true
    → call_step r i [] c a l ≡ Outcome.parked i l2
    → resume_step r i (Resume.decision granted) c a l2 ≡ call_step r i [] c (decided granted a) l
unfolding call_step resume_step
gate_parked r i c a l l2 granted late gated h = ground arith

session_parked :
    (r : Rules) (i : ℕ) (c : ToolCall) (a : Answer) (l l2 : Loop) (out : Text)
    → a.approval ≢ Approval.timed_out
    → call_step r i [] c a l ≡ Outcome.parked i l2
    → resume_step r i (Resume.result out) c a l2
      ≡ call_step r i [] c (record a { reply = ToolReply.output out }) l
unfolding call_step resume_step
session_parked r i c a l l2 out live h = ground arith

-- A batch that parks at the approval gate of a call, because no decision came in time, and then
-- resumes with a decision and the loop as it was when it parked, ends exactly as the batch would have
-- ended had the decision come while the goroutine waited: the same messages, steps, action log and
-- calls of tools, and the same failure or later park. The batch has no calls that ran at the same
-- time beforehand.
pub resume_calls-decision :
    (r : Rules) (before after : Batch) (c : ToolCall) (a : Answer) (l l1 l2 : Loop) (granted : Bool)
    → run_calls r 0 [] before l ≡ Outcome.went_on l1
    → a.approval ≡ Approval.timed_out
    → r.requires_approval c.name ≡ true
    → call_step r (length before) [] c a l1 ≡ Outcome.parked (length before) l2
    → resume_calls r (length before) (Resume.decision granted) ((c, a) ∷ after) l2
      ≡ run_calls r 0 [] (before ++ (c, decided granted a) ∷ after) l
unfolding resume_calls run_calls
resume_calls-decision r before after c a l l1 l2 granted start late gated parks =
    rw
      (
        gate_parked r (length before) c a l1 l2 granted late gated parks,
        run_calls-append_start r before ((c, decided granted a) ∷ after) l l1 start,
      )
      refl

-- A batch that parks in the session tool of a call that passed its approval gate, and then resumes
-- with the session's result, ends exactly as the batch would have ended had the tool returned that
-- result. The batch has no calls that ran at the same time beforehand.
pub resume_calls-result :
    (r : Rules) (before after : Batch) (c : ToolCall) (a : Answer) (l l1 l2 : Loop) (out : Text)
    → run_calls r 0 [] before l ≡ Outcome.went_on l1
    → a.approval ≢ Approval.timed_out
    → call_step r (length before) [] c a l1 ≡ Outcome.parked (length before) l2
    → resume_calls r (length before) (Resume.result out) ((c, a) ∷ after) l2
      ≡ run_calls r 0 [] (before ++ (c, record a { reply = ToolReply.output out }) ∷ after) l
unfolding resume_calls run_calls
resume_calls-result r before after c a l l1 l2 out start live parks =
    rw
      (
        session_parked r (length before) c a l1 l2 out live parks,
        run_calls-append_start r before ((c, record a { reply = ToolReply.output out }) ∷ after) l
            l1 start,
      )
      refl
