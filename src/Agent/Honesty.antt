-- ===== src/Agent/Honesty.antt =====
-- What the loop of `executeRun` delivers as the reply
-- (services/api/internal/api/handler/invoke.go, future_work.go).
use agent_nexus.Prelude.{◌≡◌, refl, Bool, true, false, List, [], ◌∷◌, Bool-cases, inl, inr, arith}
use agent_nexus.Prelude.Text.{Text, is_blank, trim_space}
use agent_nexus.Agent.State.{Rules, Outcome, add_message}
use agent_nexus.Agent.Batch.{run_batch}
use agent_nexus.Agent.Rounds.{
  Completion, Model, trimmed, add_usage, Round, Talk, Ending, fabricates_action_log,
  fabricated_action_reply, no_information_reply, check_future_work, after_fabrication, finish_reply,
  assistant_message, after_batch, answer_completion, round_step, continue_talk, run_rounds,
}

is_plain :
    (fabricates_action_log no_information_reply ≡ false)
    × (is_blank (trim_space no_information_reply) ≡ false)
unfolding fabricates_action_log trim_space
is_plain = (refl, refl)

fallback-plain : fabricates_action_log fabricated_action_reply ≡ false
unfolding fabricates_action_log
fallback-plain = refl

module _ (model : Model) where
  -- What a reply that is delivered is: it reports no actions in the internal format, it is not blank,
  -- and if no step was taken it does not promise future work.
  abbrev pub IsHonest : Ending → Type 0
  IsHonest (Ending.replied reply t) =
      (fabricates_action_log reply ≡ false)
      × (is_blank (trim_space reply) ≡ false)
      × (t.loop.step_count ≡ 0 → model.promises reply ≡ false)
  IsHonest _ = Unit

  check_future_work-IsHonest :
      (reply : Text) (t : Talk)
      → model.promises no_information_reply ≡ false
      → fabricates_action_log reply ≡ false
      → IsHonest (check_future_work model reply t)
  unfolding check_future_work
  check_future_work-IsHonest reply t none h = ground (arith, is_plain)

  after_fabrication-IsHonest :
      (retried : Bool) (t : Talk)
      → model.promises no_information_reply ≡ false
      → IsHonest (after_fabrication model retried t)
  unfolding after_fabrication
  after_fabrication-IsHonest true t none =
      check_future_work-IsHonest fabricated_action_reply t none fallback-plain
  after_fabrication-IsHonest false t none = tt

  finish_reply-IsHonest :
      (reply : Text) (t : Talk)
      → model.promises no_information_reply ≡ false
      → IsHonest (finish_reply model reply t)
  unfolding finish_reply fabricates_action_log
  finish_reply-IsHonest reply t none = elim (Bool-cases (fabricates_action_log reply)) [
    | inl made_up ↦
        rw (finish_reply, made_up) (after_fabrication-IsHonest t.fabrication_retried t none)
    | inr plain ↦ rw (finish_reply, plain) (check_future_work-IsHonest reply t none plain)
  ]

  after_batch-IsHonest : (t : Talk) (o : Outcome) → IsHonest (after_batch t o)
  after_batch-IsHonest t (Outcome.went_on l) = tt
  after_batch-IsHonest t (Outcome.failed message l) = tt
  after_batch-IsHonest t (Outcome.parked i l) = tt

  round_step-IsHonest :
      (r : Rules) (d : Completion) (t : Talk)
      → model.promises no_information_reply ≡ false
      → IsHonest (round_step model r d t)
  unfolding round_step answer_completion
  round_step-IsHonest r (Completion.model_error message) t none = tt
  round_step-IsHonest r (Completion.said reply [] i o) t none =
      finish_reply-IsHonest reply (add_usage i o (trimmed model t)) none
  round_step-IsHonest r (Completion.said reply (c ∷ batch) i o) t none =
      after_batch-IsHonest (add_usage i o (trimmed model t)) (
        run_batch r (c ∷ batch)
          (add_message (assistant_message reply (c ∷ batch)) (trimmed model t).loop))

  continue_talk-IsHonest :
      (e : Ending) (next : Talk → Ending)
      → IsHonest e
      → ((t : Talk) → IsHonest (next t))
      → IsHonest (continue_talk e next)
  continue_talk-IsHonest (Ending.going t) next h k = k t
  continue_talk-IsHonest (Ending.replied reply t) next h k = h
  continue_talk-IsHonest (Ending.stopped message t) next h k = tt
  continue_talk-IsHonest (Ending.suspended i t) next h k = tt

  -- However the model and the tools answer, a reply that the loop ends with does not contain the
  -- internal format of the action log, is not blank once trimmed, and, when no step was taken, does
  -- not match the pattern for promises of future work, provided that the fixed answer for lack of
  -- information does not match it.
  pub run_rounds-IsHonest :
      (t : Talk) (rounds : List Round)
      → model.promises no_information_reply ≡ false
      → IsHonest (run_rounds model t rounds)
  unfolding run_rounds
  run_rounds-IsHonest t [] none = tt
  run_rounds-IsHonest t (r ∷ rounds) none =
      continue_talk-IsHonest (round_step model r.rules r.completion t)
        (λ t2. run_rounds model t2 rounds) (round_step-IsHonest r.rules r.completion t none)
        (λ t2. run_rounds-IsHonest t2 rounds none)
