-- ===== src/Agent/Tests.antt =====
-- A small agent that the theorems are applied to.
use agent_nexus.Prelude.{◌≡◌, refl, true, false, List, [], ◌∷◌, none, some, All, arith}
use agent_nexus.Prelude.Text.{Text, codes, text_eq}
use agent_nexus.Provider.{Message, ToolCall}
use agent_nexus.Agent.State.{Effect, Loop, Rules, Approval, ToolReply, Answer, note, tool_message}
use agent_nexus.Agent.Calls.{Resume}
use agent_nexus.Agent.Batch.{run_calls, run_batch, resume_calls}
use agent_nexus.Agent.Parking.{decided, resume_calls-decision}
use agent_nexus.Agent.Replies.{Replied, run_batch-Replied}
use agent_nexus.Agent.Gates.{IsFree, loop_of, run_batch-IsFree}
use agent_nexus.Agent.Rounds.{Model, Completion, Round, Talk, run_rounds}
use agent_nexus.Agent.Endings.{is_going, run_rounds-ends}
use agent_nexus.Agent.Honesty.{IsHonest, run_rounds-IsHonest}
use agent_nexus.Agent.Completion.{StreamEvent, Attempt}

-- `deploy` requires approval.
abbrev rules : Rules
rules = record {
  lazy_tools = false;
  allowed = λ name. true;
  is_delegate = λ name. false;
  requires_approval = λ name. text_eq name (codes "deploy");
  always_active = λ name. true;
  skill_of = λ name. none;
  max_steps = 3;
  parks = true;
}

abbrev call : Text → Text → ToolCall
call id name = record { id = id; name = name; input = codes "{}"; thought_signature = [] }

abbrev search : ToolCall
search = call (codes "a") (codes "search")

abbrev deploy : ToolCall
deploy = call (codes "b") (codes "deploy")

abbrev found : Answer
found = record {
  ctx_done = false;
  approval = Approval.timed_out;
  reply = ToolReply.output (codes "found");
  delegate_output = [];
}

abbrev session : Answer
session = record found { approval = Approval.approved; reply = ToolReply.session_parked }

abbrev prompt : Message
prompt = record {
  role = codes "system";
  content = [];
  tool_call_id = [];
  tool_name = [];
  tool_calls = [];
  is_error = false;
}

abbrev fresh : Loop
fresh = record {
  messages = prompt ∷ [];
  step_count = 0;
  action_log = [];
  memory_save_called = false;
  trace = [];
}

-- the loop after the search
abbrev searched : Loop
searched = record {
  messages = prompt ∷ tool_message search (codes "found") false ∷ [];
  step_count = 1;
  action_log = [];
  memory_save_called = false;
  trace = Effect.ran (codes "search") ∷ [];
}

resume_calls-decision_example :
    resume_calls rules 1
      (Resume.decision true)
      ((deploy, found) ∷ (search, found) ∷ [])
      (note (Effect.asked (codes "deploy")) searched)
    ≡ run_calls rules 0 []
        ((search, found) ∷ (deploy, decided true found) ∷ (search, found) ∷ [])
        fresh
unfolding run_calls
resume_calls-decision_example =
    resume_calls-decision rules ((search, found) ∷ []) ((search, found) ∷ []) deploy found fresh
      searched (note (Effect.asked (codes "deploy")) searched) true refl refl refl refl

run_batch-Replied_example : Replied rules ((search, found) ∷ []) fresh searched
unfolding run_batch
run_batch-Replied_example = run_batch-Replied rules ((search, found) ∷ []) fresh searched refl

run_batch-IsFree_example :
    All
      (IsFree rules)
      (loop_of (run_batch rules ((search, found) ∷ (deploy, found) ∷ []) fresh)).trace
run_batch-IsFree_example =
    run_batch-IsFree rules ((search, found) ∷ (deploy, found) ∷ []) fresh refl
      (λ h. ground arith, (λ h. ground arith, tt)) tt

-- a model with a large window, and no reply that promises work
abbrev plain_model : Model
plain_model = record { promises = λ reply. false; size = λ ms. 0; window = 8192; max_output = 1000 }

abbrev talk : Talk
talk = record {
  loop = fresh;
  total_input = 0;
  total_output = 0;
  fabrication_retried = false;
  future_work_retried = false;
}

-- The model only ever searches.
abbrev searches : Round
searches = record { rules = rules; completion = Completion.said [] ((search, found) ∷ []) 10 5 }

abbrev six : List Round
six = searches ∷ searches ∷ searches ∷ searches ∷ searches ∷ searches ∷ []

run_rounds-ends_example : is_going (run_rounds plain_model talk six) ≡ false
run_rounds-ends_example =
    run_rounds-ends plain_model 3 talk six
      (
        (refl, refl),
        ((refl, refl), ((refl, refl), ((refl, refl), ((refl, refl), ((refl, refl), tt))))),
      )
      (omega arith) (omega arith)

abbrev greets : Round
greets = record { rules = rules; completion = Completion.said (codes "Hello") [] 10 5 }

run_rounds-IsHonest_example :
    IsHonest plain_model (run_rounds plain_model talk (searches ∷ greets ∷ []))
run_rounds-IsHonest_example = run_rounds-IsHonest plain_model talk (searches ∷ greets ∷ []) refl

abbrev stream : List StreamEvent
stream =
    StreamEvent.delta (codes "He")
    ∷ StreamEvent.tool_call (some search)
    ∷ StreamEvent.delta (codes "llo")
    ∷ StreamEvent.done (some (10, 5))
    ∷ []

abbrev silent : Attempt
silent = Attempt.streams (StreamEvent.done none ∷ []) false

abbrev asked_again : Text
asked_again = codes "Answer."
