-- ===== src/Agent/Endings.antt =====
-- How many rounds the loop of `executeRun` takes
-- (services/api/internal/api/handler/invoke.go).
use agent_nexus.Prelude.{
  ℕ, ◌+◌, ◌-◌, ◌≤◌, ◌<◌, ◌≡◌, refl, Bool, true, false, not, List, [], ◌∷◌, length, count, bit, All,
  Bool-cases, inl, inr, arith,
}
use agent_nexus.Prelude.Text.{Text}
use agent_nexus.Agent.State.{Loop, Rules, Outcome, add_message}
use agent_nexus.Agent.Batch.{Batch, run_batch}
use agent_nexus.Agent.Replies.{Replied, is_rejected, run_batch-Replied}
use agent_nexus.Agent.Rounds.{
  Completion, Model, trimmed, add_usage, Round, Talk, Ending, fabricates_action_log,
  fabricated_action_reply, check_future_work, after_fabrication, finish_reply, assistant_message,
  after_batch, answer_completion, round_step, continue_talk, run_rounds,
}

-- the rounds that may still go on: the steps that are left and the two retries
abbrev rounds_left : ℕ → Talk → ℕ
rounds_left max t =
    (max - t.loop.step_count) + bit (not t.fabrication_retried) + bit (not t.future_work_retried)

-- a round under the limit `max` in which no call is rejected
abbrev pub Unrejected : ℕ → Round → Type 0
Unrejected max r = elim r.completion [
  | Completion.model_error message ↦ Unit
  | Completion.said reply batch tokens_in tokens_out ↦
      (r.rules.max_steps ≡ max) × (count is_rejected batch ≡ 0)
]

abbrev pub is_going : Ending → Bool
is_going (Ending.going t) = true
is_going _ = false

-- If the loop goes on, fewer rounds are left and the steps are within the limit.
abbrev Falls : ℕ → ℕ → Ending → Type 0
Falls max n (Ending.going t) = (rounds_left max t < n) × (t.loop.step_count ≤ max)
Falls max n _ = Unit

continue_talk-ends :
    (max n : ℕ) (e : Ending) (next : Talk → Ending)
    → Falls max n e
    → ((t : Talk) → rounds_left max t < n → t.loop.step_count ≤ max → is_going (next t) ≡ false)
    → is_going (continue_talk e next) ≡ false
continue_talk-ends max n (Ending.going t) next h k = k t h.0 h.1
continue_talk-ends max n (Ending.replied reply t) next h k = refl
continue_talk-ends max n (Ending.stopped message t) next h k = refl
continue_talk-ends max n (Ending.suspended i t) next h k = refl

module _ (model : Model) where
  check_future_work-Falls :
      (max : ℕ) (reply : Text) (t : Talk)
      → t.loop.step_count ≤ max
      → Falls max (rounds_left max t) (check_future_work model reply t)
  unfolding check_future_work
  check_future_work-Falls max reply t h = ground arith

  after_fabrication-Falls :
      (max : ℕ) (retried : Bool) (t : Talk)
      → t.fabrication_retried ≡ retried
      → t.loop.step_count ≤ max
      → Falls max (rounds_left max t) (after_fabrication model retried t)
  unfolding after_fabrication
  after_fabrication-Falls max true t e h = check_future_work-Falls max fabricated_action_reply t h
  after_fabrication-Falls max false t e h = ground arith

  finish_reply-Falls :
      (max : ℕ) (reply : Text) (t : Talk)
      → t.loop.step_count ≤ max
      → Falls max (rounds_left max t) (finish_reply model reply t)
  unfolding finish_reply fabricates_action_log
  finish_reply-Falls max reply t h = elim (Bool-cases (fabricates_action_log reply)) [
    | inl made_up ↦
        rw (finish_reply, made_up) (after_fabrication-Falls max t.fabrication_retried t refl h)
    | inr plain ↦ rw (finish_reply, plain) (check_future_work-Falls max reply t h)
  ]

  after_batch-Falls :
      (max : ℕ) (r : Rules) (batch : Batch) (l : Loop) (t : Talk) (o : Outcome)
      → r.max_steps ≡ max
      → count is_rejected batch ≡ 0
      → 1 ≤ length batch
      → l.step_count ≡ t.loop.step_count
      → t.loop.step_count ≤ max
      → ((l2 : Loop) → o ≡ Outcome.went_on l2 → Replied r batch l l2)
      → Falls max (rounds_left max t) (after_batch t o)
  after_batch-Falls max r batch l t (Outcome.went_on l2) limit none some same h k =
      let replied = k l2 refl in
      let counted = replied.counted in
      let bounded = replied.bounded in ground (arith, counted, bounded, limit, none, some, same, h)
  after_batch-Falls max r batch l t (Outcome.failed message l2) limit none some same h k = tt
  after_batch-Falls max r batch l t (Outcome.parked i l2) limit none some same h k = tt

  round_step-Falls :
      (max : ℕ) (r : Rules) (d : Completion) (t : Talk)
      → Unrejected max (record { rules = r; completion = d })
      → t.loop.step_count ≤ max
      → Falls max (rounds_left max t) (round_step model r d t)
  unfolding round_step answer_completion
  round_step-Falls max r (Completion.model_error message) t u h = tt
  round_step-Falls max r (Completion.said reply [] i o) t u h =
      finish_reply-Falls max reply (add_usage i o (trimmed model t)) h
  round_step-Falls max r (Completion.said reply (c ∷ batch) i o) t u h =
      let l = add_message (assistant_message reply (c ∷ batch)) (trimmed model t).loop in
      after_batch-Falls max r (c ∷ batch) l (add_usage i o (trimmed model t))
        (run_batch r (c ∷ batch) l) u.0 u.1 (omega arith) refl h
        (λ l2 e. run_batch-Replied r (c ∷ batch) l l2 e)

  run_rounds-falls :
      (max : ℕ) (t : Talk) (rounds : List Round)
      → All (Unrejected max) rounds
      → t.loop.step_count ≤ max
      → rounds_left max t < length rounds
      → is_going (run_rounds model t rounds) ≡ false
  unfolding run_rounds
  run_rounds-falls max t [] u h enough = ground arith
  run_rounds-falls max t (r ∷ rounds) (one, u) h enough =
      continue_talk-ends max (rounds_left max t) (round_step model r.rules r.completion t)
        (λ t2. run_rounds model t2 rounds) (round_step-Falls max r.rules r.completion t one h)
        (λ t2 less within. run_rounds-falls max t2 rounds u within (omega (arith, less, enough)))

  -- A loop whose steps are within the limit ends before `max_steps + 3` rounds of the model are over,
  -- with a reply, an error or a park, whatever the model and the tools answer, as long as no tool call
  -- is rejected: every other batch of calls counts as a step, and each guard on the reply retries
  -- once.
  pub run_rounds-ends :
      (max : ℕ) (t : Talk) (rounds : List Round)
      → All (Unrejected max) rounds
      → t.loop.step_count ≤ max
      → max + 2 < length rounds
      → is_going (run_rounds model t rounds) ≡ false
  run_rounds-ends max t rounds u h enough =
      run_rounds-falls max t rounds u h (ground (arith, enough))
