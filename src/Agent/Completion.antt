-- ===== src/Agent/Completion.antt =====
-- `collectStreamCompletion` and `completeWithEmptyRetry`
-- (services/api/internal/api/handler/completion.go). What a client of a model streams is a list of
-- events.
use agent_nexus.Prelude.{
  ℕ, Bool, true, false, ◌&&◌, List, [], ◌∷◌, ◌++◌, Option, none, some, if◌then◌else◌,
}
use agent_nexus.Prelude.Text.{Text, codes, is_blank, trim_space}
use agent_nexus.Provider.{Message, ToolCall}

pub data StreamEvent : Type 0 where
  delta : Text → StreamEvent
  tool_call : Option ToolCall → StreamEvent
  done : Option (ℕ × ℕ) → StreamEvent
  error : Option Text → StreamEvent

pub record Streamed : Type 0 where
  pub reply : Text
  pub usage : ℕ × ℕ
  pub tool_calls : List ToolCall

pub data Result : Type 0 where
  ok : Streamed → Result
  err : Text → Result

-- the loop over the stream, and the check of the context after it
unfoldable pub collect_stream : Bool → List StreamEvent → Streamed → Result
collect_stream ctx_done [] out =
    if ctx_done then Result.err (codes "context canceled") else Result.ok out
collect_stream ctx_done (StreamEvent.delta d ∷ rest) out =
    collect_stream ctx_done rest (record out { reply = out.reply ++ d })
collect_stream ctx_done (StreamEvent.tool_call none ∷ rest) out = collect_stream ctx_done rest out
collect_stream ctx_done (StreamEvent.tool_call (some c) ∷ rest) out =
    collect_stream ctx_done rest (record out { tool_calls = out.tool_calls ++ c ∷ [] })
collect_stream ctx_done (StreamEvent.done none ∷ rest) out = collect_stream ctx_done rest out
collect_stream ctx_done (StreamEvent.done (some u) ∷ rest) out =
    collect_stream ctx_done rest (record out { usage = u })
collect_stream ctx_done (StreamEvent.error none ∷ rest) out = Result.err (codes "model call failed")
collect_stream ctx_done (StreamEvent.error (some message) ∷ rest) out = Result.err message

-- what `llm.Complete` gives, with whether the context is done after the stream
pub data Attempt : Type 0 where
  refused : Text → Attempt
  streams : List StreamEvent → Bool → Attempt

unfoldable pub collect_stream_completion : Attempt → Result
unfolding collect_stream
collect_stream_completion (Attempt.refused message) = Result.err message
collect_stream_completion (Attempt.streams events ctx_done) =
    collect_stream ctx_done events (record { reply = []; usage = (0, 0); tool_calls = [] })

abbrev has_none : List ToolCall → Bool
has_none [] = true
has_none (c ∷ calls) = false

-- neither a tool call nor a reply
unfoldable pub is_empty : Streamed → Bool
unfolding trim_space
is_empty out = has_none out.tool_calls && is_blank (trim_space out.reply)

abbrev pub retry_message : Text → Message
retry_message prompt = record {
  role = codes "system";
  content = prompt;
  tool_call_id = [];
  tool_name = [];
  tool_calls = [];
  is_error = false;
}

-- the second attempt, after an empty first one
unfoldable pub last_attempt : Result → Result
unfolding is_empty
last_attempt (Result.err message) = Result.err message
last_attempt (Result.ok out) =
    if is_empty out then Result.err (codes "model returned an empty response") else Result.ok out

-- The result, and the messages of each request that was sent.
unfoldable pub after_first : Text → List Message → Result → Result → Result × List (List Message)
unfolding is_empty last_attempt
after_first prompt messages (Result.err message) second = (Result.err message, messages ∷ [])
after_first prompt messages (Result.ok out) second =
    if is_empty out
    then (last_attempt second, messages ∷ (messages ++ retry_message prompt ∷ []) ∷ [])
    else (Result.ok out, messages ∷ [])

unfoldable pub complete_with_empty_retry :
    Text → List Message → Attempt → Attempt → Result × List (List Message)
unfolding after_first collect_stream_completion
complete_with_empty_retry prompt messages first second =
    let said = if is_blank prompt then codes "Return a direct, non-empty reply." else prompt in
    after_first said messages (collect_stream_completion first) (collect_stream_completion second)

-- the texts of the deltas, and the calls, of a stream without errors
abbrev pub deltas : List StreamEvent → Text
deltas [] = []
deltas (StreamEvent.delta d ∷ rest) = d ++ deltas rest
deltas (_ ∷ rest) = deltas rest

abbrev pub calls : List StreamEvent → List ToolCall
calls [] = []
calls (StreamEvent.tool_call (some c) ∷ rest) = c ∷ calls rest
calls (_ ∷ rest) = calls rest

abbrev pub has_error : List StreamEvent → Bool
has_error [] = false
has_error (StreamEvent.error e ∷ rest) = true
has_error (_ ∷ rest) = has_error rest
