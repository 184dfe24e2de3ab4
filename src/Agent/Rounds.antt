-- ===== src/Agent/Rounds.antt =====
-- The rounds of the loop of `executeRun` (services/api/internal/api/handler/invoke.go): a completion of
-- the model, and the final reply or a batch of calls; with the guards of future_work.go and what the
-- deferred function makes of the run.
use agent_nexus.Prelude.{ℕ, ◌+◌, Bool, true, false, ◌&&◌, List, [], ◌∷◌, ◌++◌, ◌==◌, if◌then◌else◌}
use agent_nexus.Prelude.Text.{Text, codes, is_blank, contains, trim_space}
use agent_nexus.Run.{Run, fail_run, complete_run}
use agent_nexus.Provider.{Message, ToolCall}
use agent_nexus.Provider.Tokens.{truncate_messages}
use agent_nexus.Agent.State.{Loop, Rules, Outcome, add_message}
use agent_nexus.Agent.Batch.{Batch, run_batch}

-- What `completeWithEmptyRetry` gives: an error, or the reply, the tool calls with the answers that
-- they will get, and the tokens in and out.
pub data Completion : Type 0 where
  model_error : Text → Completion
  said : Text → Batch → ℕ → ℕ → Completion

pub record Round : Type 0 where
  pub rules : Rules
  pub completion : Completion

pub record Talk : Type 0 where
  pub loop : Loop
  pub total_input : ℕ
  pub total_output : ℕ
  pub fabrication_retried : Bool
  pub future_work_retried : Bool

pub data Ending : Type 0 where
  going : Talk → Ending
  replied : Text → Talk → Ending
  stopped : Text → Talk → Ending
  suspended : ℕ → Talk → Ending

-- `fabricatesActionLog`
unfoldable pub fabricates_action_log : Text → Bool
fabricates_action_log reply = contains reply (codes "[actions taken:")

-- without the variation selector after the first character
abbrev pub fabricated_action_reply : Text
fabricated_action_reply =
    codes
      "⚠ The model described tool actions without actually executing them, so the response was discarded — no sessions were launched and no pull requests were created. Please retry the request."

abbrev pub no_information_reply : Text
no_information_reply = codes "I don't have enough information to answer that."

abbrev fabricated_action_correction : Text
fabricated_action_correction =
    codes
      "\n\nCritical response policy: your previous draft contained an \"[actions taken: …]\" block. That format is a system-generated record of past activity — you must never write it yourself, and writing it does not execute anything. Perform actions ONLY by emitting real tool calls, then report what the tool results actually say. If you cannot or do not want to call a tool, say so plainly."

abbrev future_work_correction : Text
future_work_correction =
    codes
      "\n\nCritical response policy: your previous draft promised future work without a confirmed tool result. Do not promise follow-up, background work, or a later update. Answer now using available information, or plainly state that you do not have enough information."

-- `messages[0].Content += correction`; there is always a first message
abbrev pub amend_first : Text → List Message → List Message
amend_first correction [] = []
amend_first correction (m ∷ ms) = record m { content = m.content ++ correction } ∷ ms

abbrev amend : Text → Loop → Loop
amend correction l = record l { messages = amend_first correction l.messages }

abbrev pub tool_calls : Batch → List ToolCall
tool_calls [] = []
tool_calls ((c, a) ∷ batch) = c ∷ tool_calls batch

abbrev pub assistant_message : Text → Batch → Message
assistant_message reply batch = record {
  role = codes "assistant";
  content = reply;
  tool_call_id = [];
  tool_name = [];
  tool_calls = tool_calls batch;
  is_error = false;
}

abbrev pub after_batch : Talk → Outcome → Ending
after_batch t (Outcome.went_on l) = Ending.going (record t { loop = l })
after_batch t (Outcome.failed message l) = Ending.stopped message (record t { loop = l })
after_batch t (Outcome.parked i l) = Ending.suspended i (record t { loop = l })

abbrev pub continue_talk : Ending → (Talk → Ending) → Ending
continue_talk (Ending.going t) next = next t
continue_talk (Ending.replied reply t) next = Ending.replied reply t
continue_talk (Ending.stopped message t) next = Ending.stopped message t
continue_talk (Ending.suspended i t) next = Ending.suspended i t

-- What the loop knows of the model and of texts: the match of the regular expression of
-- `promisesUnconfirmedFutureWork`, the length of the JSON of messages, the context window, and
-- `MaxTokens` of the agent.
pub record Model : Type 0 where
  pub promises : Text → Bool
  pub size : List Message → ℕ
  pub window : ℕ
  pub max_output : ℕ

-- the messages as they are sent to the model
abbrev pub trimmed : Model → Talk → Talk
trimmed model t = record t {
  loop = record t.loop {
    messages = (truncate_messages model.size model.window model.max_output t.loop.messages).0;
  };
}

abbrev pub add_usage : ℕ → ℕ → Talk → Talk
add_usage tokens_in tokens_out t = record t {
  total_input = t.total_input + tokens_in;
  total_output = t.total_output + tokens_out;
}

module _ (model : Model) where
  -- the end of a reply without tool calls, after the guard on fabricated actions
  unfoldable pub check_future_work : Text → Talk → Ending
  unfolding trim_space
  check_future_work reply t =
      if t.loop.step_count == 0 && model.promises reply
      then (if t.future_work_retried
          then Ending.replied no_information_reply t
          else Ending.going
              (record t { loop = amend future_work_correction t.loop; future_work_retried = true }))
      else if is_blank (trim_space reply)
      then Ending.stopped (codes "model returned an empty response") t
      else Ending.replied reply t

  -- a reply that reports actions that were not taken, by whether that happened before
  unfoldable pub after_fabrication : Bool → Talk → Ending
  unfolding check_future_work
  after_fabrication true t = check_future_work fabricated_action_reply t
  after_fabrication false t =
      Ending.going
        (record t { loop = amend fabricated_action_correction t.loop; fabrication_retried = true })

  unfoldable pub finish_reply : Text → Talk → Ending
  unfolding fabricates_action_log after_fabrication check_future_work
  finish_reply reply t =
      if fabricates_action_log reply
      then after_fabrication t.fabrication_retried t
      else check_future_work reply t

  unfoldable pub answer_completion : Rules → Text → Batch → Talk → Ending
  unfolding finish_reply run_batch
  answer_completion r reply [] t = finish_reply reply t
  answer_completion r reply (c ∷ batch) t =
      after_batch t
        (run_batch r (c ∷ batch) (add_message (assistant_message reply (c ∷ batch)) t.loop))

  unfoldable pub round_step : Rules → Completion → Talk → Ending
  unfolding answer_completion
  round_step r (Completion.model_error message) t = Ending.stopped message (trimmed model t)
  round_step r (Completion.said reply batch tokens_in tokens_out) t =
      answer_completion r reply batch (add_usage tokens_in tokens_out (trimmed model t))

  unfoldable pub run_rounds : Talk → List Round → Ending
  unfolding round_step
  run_rounds t [] = Ending.going t
  run_rounds t (r ∷ rest) =
      continue_talk (round_step r.rules r.completion t) (λ t2. run_rounds t2 rest)

-- the row of the run when the goroutine returns, unchanged while it has not
unfoldable pub settle_run : Ending → Run → Run
unfolding complete_run fail_run
settle_run (Ending.replied reply t) r = complete_run reply r
settle_run (Ending.stopped message t) r = fail_run message r
settle_run (Ending.suspended i t) r = r
settle_run (Ending.going t) r = r
