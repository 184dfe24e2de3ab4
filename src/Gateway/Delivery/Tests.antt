-- ===== src/Gateway/Delivery/Tests.antt =====
-- Replies and attempts (services/api/internal/api/handler/gateway.go,
-- services/api/internal/gateway/service.go).
use agent_nexus.Prelude.{
  ℕ, zero, suc, ◌≡◌, inl, inr, refl, true, false, none, some, List, [], ◌∷◌, ◌++◌, arith,
}
use agent_nexus.Prelude.Text.{codes}
use agent_nexus.Run.{RunStatus}
use agent_nexus.Gateway.Delivery.{
  reply_limit, Poll, Delivery, deliver_when_complete, AdapterAnswer, Adapter, post_attempts,
  send_whatsapp,
}
use agent_nexus.Gateway.Delivery.Replies.{IsWaiting, deliver_when_complete-answered}
use agent_nexus.Gateway.Delivery.Sending.{HonestIf, send_whatsapp-HonestIf}

abbrev saw : ℕ → RunStatus → Poll
saw now status = record { now = now; row = some (status, codes "done") }

-- A query fails while the run is in the queue, which it leaves after the first deadline is over.
abbrev polls : List Poll
polls =
    saw 200000000000 RunStatus.pending
    ∷ record { now = 300000000000; row = none }
    ∷ saw 400000000000 RunStatus.pending
    ∷ record { now = 500000000000; row = none }
    ∷ saw 600000000000 RunStatus.running
    ∷ []

polls-IsWaiting : IsWaiting reply_limit polls
polls-IsWaiting = (
  omega arith,
  inl refl,
  (omega arith, tt, (omega arith, inl refl, (omega arith, tt, (omega arith, inr (inl refl), tt)))),
)

deliver_when_complete-answered_example :
    deliver_when_complete false reply_limit (polls ++ saw 700000000000 RunStatus.success ∷ [])
    ≡ Delivery.answered (codes "done")
deliver_when_complete-answered_example =
    deliver_when_complete-answered false polls [] (saw 700000000000 RunStatus.success)
      (codes "done") reply_limit polls-IsWaiting (omega arith) refl

abbrev slow_answers : ℕ → AdapterAnswer
slow_answers zero = AdapterAnswer.connecting
slow_answers (suc zero) = AdapterAnswer.connecting
slow_answers (suc (suc n)) = AdapterAnswer.posted

abbrev slow : Adapter
slow = record { answers = slow_answers; is_done = λ n. false }

third_attempt : (post_attempts slow 5 0) ≡ (true, 3)
unfolding post_attempts
third_attempt = refl

send_whatsapp-HonestIf_example :
    HonestIf true slow (send_whatsapp true true slow) × (send_whatsapp false true slow ≡ none)
send_whatsapp-HonestIf_example = send_whatsapp-HonestIf true slow
