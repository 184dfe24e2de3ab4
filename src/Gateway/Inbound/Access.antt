-- ===== src/Gateway/Inbound/Access.antt =====
-- Who gets a run from a message (services/api/internal/api/handler/gateway.go).
use agent_nexus.Prelude.{◌≡◌, refl, inl, inr, Bool, true, false, not, ◌&&◌, ◌||◌, arith, Bool-cases}
use agent_nexus.Prelude.Text.{Text, is_blank}
use agent_nexus.Gateway.Channel.{
  Policy, ChannelConfig, EventType, Channel, create_event, has_event_for,
}
use agent_nexus.Gateway.Policy.{InboundMessage, Decision, is_http, applicable_policy, policy_allows}
use agent_nexus.Gateway.Inbound.{Handling}
use agent_nexus.Gateway.Inbound.Changes.{Keeps, Keeps-refl}

-- The rules on who may have a run, as one test.
abbrev pub known : ChannelConfig → InboundMessage → Decision → Bool
known cfg msg Decision.blocked = false
known cfg msg Decision.contact_allowed = true
known cfg msg Decision.unmatched =
    cfg.bot_mode_enabled
    || is_http msg.source
    || msg.from_me
    || policy_allows (applicable_policy cfg msg) cfg msg

abbrev pub may_run : ChannelConfig → InboundMessage → Decision → Bool
may_run cfg msg decision =
    cfg.assistant_enabled && (not msg.from_me || cfg.self_chat_enabled) && known cfg msg decision

-- No run is made, started or given input, and no event is lost.
pub record Refuses (ch : Channel) (h : Handling) : Type 0 where
  pub refused : h.accepted ≡ false
  pub keeps : Keeps ch h.channel

pub create_event-Keeps :
    (ok : Bool) (typ : EventType) (p : Text) (ch : Channel) → Keeps ch (create_event ok typ p ch).0
unfolding create_event
create_event-Keeps ok typ p ch = elim (Bool-cases ok) [
  | inl e ↦ elim (Bool-cases (not (is_blank p) && has_event_for p ch.events)) [
    | inl f ↦ rw (e, f) (Keeps-refl ch)
    | inr f ↦
        rw (e, f)
          (record { events = λ q h. ground arith; runs = refl; launched = refl; inputs = refl })
  ]
  | inr e ↦ rw e (Keeps-refl ch)
]
