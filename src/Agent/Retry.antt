-- ===== src/Agent/Retry.antt =====
-- What a completion is made of, and when it is asked for again
-- (services/api/internal/api/handler/completion.go).
use agent_nexus.Prelude.{
  ◌≡◌, ◌⊎◌, sym, inl, inr, refl, Bool, true, false, List, [], ◌∷◌, ◌++◌, none, some, Bool-cases,
  arith,
}
use mathlib.Core.List.{append_assoc, append-nil}
use agent_nexus.Prelude.Text.{Text, is_blank}
use agent_nexus.Provider.{Message, ToolCall}
use agent_nexus.Agent.Completion.{
  StreamEvent, Streamed, Result, Attempt, collect_stream, collect_stream_completion, is_empty,
  retry_message, last_attempt, after_first, complete_with_empty_retry, deltas, calls, has_error,
}

-- what a stream adds up to, after a reply and calls that came before
record Collected (reply : Text) (asked : List ToolCall) (result : Result) : Type 0 where
  streamed : Streamed
  succeeds : result ≡ Result.ok streamed
  replies : streamed.reply ≡ reply
  asks : streamed.tool_calls ≡ asked

collect_stream-Collected :
    (events : List StreamEvent) (out : Streamed)
    → has_error events ≡ false
    → Collected
        (out.reply ++ deltas events)
        (out.tool_calls ++ calls events)
        (collect_stream false events out)
unfolding collect_stream
collect_stream-Collected [] out h = record {
  streamed = out;
  succeeds = refl;
  replies = sym (append-nil out.reply);
  asks = sym (append-nil out.tool_calls);
}
collect_stream-Collected (StreamEvent.delta d ∷ rest) out h =
    rw⁻¹ (append_assoc out.reply d (deltas rest))
      (collect_stream-Collected rest (record out { reply = out.reply ++ d }) h)
collect_stream-Collected (StreamEvent.tool_call none ∷ rest) out h =
    collect_stream-Collected rest out h
collect_stream-Collected (StreamEvent.tool_call (some c) ∷ rest) out h =
    rw⁻¹ (append_assoc out.tool_calls (c ∷ []) (calls rest))
      (collect_stream-Collected rest (record out { tool_calls = out.tool_calls ++ c ∷ [] }) h)
collect_stream-Collected (StreamEvent.done none ∷ rest) out h = collect_stream-Collected rest out h
collect_stream-Collected (StreamEvent.done (some u) ∷ rest) out h =
    collect_stream-Collected rest (record out { usage = u }) h
collect_stream-Collected (StreamEvent.error e ∷ rest) out h = ground arith

-- A stream without an error event, read with a context that is not done, gives a completion whose
-- reply is all its deltas one after the other and whose tool calls are all its tool calls in order.
pub collect_stream_completion-ok :
    (events : List StreamEvent)
    → has_error events ≡ false
    → (out : Streamed) × (collect_stream_completion (Attempt.streams events false) ≡ Result.ok out)
      × (out.reply ≡ deltas events)
      × (out.tool_calls ≡ calls events)
unfolding collect_stream_completion
collect_stream_completion-ok events h =
    let k =
      collect_stream-Collected events (record { reply = []; usage = (0, 0); tool_calls = [] }) h in
    (k.streamed, k.succeeds, k.replies, k.asks)

-- the last attempt was not empty
abbrev pub IsFilled : Result → Type 0
IsFilled (Result.ok out) = is_empty out ≡ false
IsFilled (Result.err message) = Unit

last_attempt-IsFilled : (r : Result) → IsFilled (last_attempt r)
unfolding last_attempt
last_attempt-IsFilled (Result.err message) = tt
last_attempt-IsFilled (Result.ok out) = ground arith

abbrev pub came_empty : Result → Bool
came_empty (Result.ok out) = is_empty out
came_empty (Result.err message) = false

after_first-IsFilled :
    (prompt : Text) (messages : List Message) (first second : Result)
    → let (result, sent) = after_first prompt messages first second in
      IsFilled result
      × (((came_empty first ≡ true)
            × (sent ≡ messages ∷ (messages ++ retry_message prompt ∷ []) ∷ []))
          ⊎ ((came_empty first ≡ false) × (sent ≡ messages ∷ []) × (result ≡ first)))
unfolding after_first
after_first-IsFilled prompt messages (Result.err message) second = (tt, inr (refl, refl, refl))
after_first-IsFilled prompt messages (Result.ok out) second = elim (Bool-cases (is_empty out)) [
  | inl empty ↦ rw empty (last_attempt-IsFilled second, inl (refl, refl))
  | inr full ↦ rw full (full, inr (refl, refl, refl))
]

-- Whatever the model streams, a completion that is returned has a tool call or a reply that is not
-- blank; a second request is sent exactly when the first attempt succeeded and came back empty, with
-- the prompt as one more system message; otherwise the first result is returned.
pub complete_with_empty_retry-IsFilled :
    (prompt : Text) (messages : List Message) (first second : Attempt)
    → is_blank prompt ≡ false
    → let (result, sent) = complete_with_empty_retry prompt messages first second in
      IsFilled result
      × (((came_empty (collect_stream_completion first) ≡ true)
            × (sent ≡ messages ∷ (messages ++ retry_message prompt ∷ []) ∷ []))
          ⊎ ((came_empty (collect_stream_completion first) ≡ false)
              × (sent ≡ messages ∷ [])
              × (result ≡ collect_stream_completion first)))
unfolding complete_with_empty_retry
complete_with_empty_retry-IsFilled prompt messages first second h = rw h (
    after_first-IsFilled prompt messages (collect_stream_completion first)
      (collect_stream_completion second))
