-- ===== src/Gateway/Inbound/Once.antt =====
-- A message that is delivered again (services/api/internal/api/handler/gateway.go, and `CreateEvent` in
-- services/api/internal/repository/gateway.go).
use agent_nexus.Prelude.{
  ◌≤◌, ◌≡◌, refl, ◌⊎◌, inl, inr, Bool, true, false, not, ◌&&◌, ◌||◌, bit, sym, List, [], ◌∷◌, arith,
  Bool-cases, count,
}
use agent_nexus.Prelude.Text.{Text, text_eq, is_blank}
use agent_nexus.Prelude.Text.Laws.{text_eq_refl, text_eq_sound}
use agent_nexus.Gateway.Channel.{
  ChannelConfig, EventType, Claim, Channel, create_event, has_event_for,
}
use agent_nexus.Gateway.Policy.{InboundMessage, Outside, Decision}
use agent_nexus.Gateway.Commands.{Reply, Asked}
use agent_nexus.Gateway.Inbound.{Handling, drop_message, take_claim, handle_inbound}
use agent_nexus.Gateway.Inbound.Access.{create_event-Keeps}
use agent_nexus.Gateway.Inbound.Steps.{Grows, take_claim-Grows}

-- A message that arrives, with what the outside answers while it is handled.
pub record Arrival : Type 0 where
  pub asked : Asked
  pub outside : Outside
  pub message : InboundMessage

-- Messages in the order in which their claims reach the database; each is given the configuration that
-- the channel has when it arrives.
unfoldable pub receive_all : List Arrival → Channel → List (Text × Handling)
receive_all [] ch = []
receive_all (r ∷ rs) ch =
    let h = handle_inbound r.asked r.outside ch.config r.message ch in
    (r.message.provider_message_id, h) ∷ receive_all rs h.channel

abbrev pub is_reply : Reply → Bool
is_reply Reply.no_reply = false
is_reply _ = true

-- the message with this id was accepted or answered
abbrev pub is_answered_of : Text → Text × Handling → Bool
is_answered_of p (q, h) = text_eq q p && (h.accepted || is_reply h.response)

abbrev Claimed : Text → Channel × Claim → Type 0
Claimed p (next, Claim.claimed) = has_event_for p next.events ≡ true
Claimed p (next, _) = Unit

create_event-Claimed :
    (ok : Bool) (typ : EventType) (p : Text) (ch : Channel) → Claimed p (create_event ok typ p ch)
unfolding create_event
create_event-Claimed false typ p ch = tt
create_event-Claimed true typ p ch =
    elim (Bool-cases (not (is_blank p) && has_event_for p ch.events)) [
      | inl f ↦ rw f tt
      | inr f ↦ rw (f, text_eq_refl p) refl
    ]

is_silent : Handling → Bool
is_silent h = not (h.accepted || is_reply h.response)

take_claim-cases :
    (a : Asked) (o : Outside) (cfg : ChannelConfig) (msg : InboundMessage) (d : Decision) (p : Text)
    (r : Channel × Claim)
    → Claimed p r
    → (is_silent (take_claim a o cfg msg d r) ≡ true)
      ⊎ (has_event_for p (take_claim a o cfg msg d r).channel.events ≡ true)
unfolding is_silent
take_claim-cases a o cfg msg d p (ch, Claim.claimed) h =
    inr (take_claim-Grows a o cfg msg d (ch, Claim.claimed) p h)
take_claim-cases a o cfg msg d p (ch, Claim.taken) h = inl refl
take_claim-cases a o cfg msg d p (ch, Claim.unavailable) h = inl refl

handle_inbound-cases :
    (a : Asked) (o : Outside) (cfg : ChannelConfig) (msg : InboundMessage) (ch : Channel)
    → (is_silent (handle_inbound a o cfg msg ch) ≡ true)
      ⊎ (has_event_for msg.provider_message_id (handle_inbound a o cfg msg ch).channel.events
          ≡ true)
unfolding handle_inbound
handle_inbound-cases a o cfg msg ch =
    take_claim-cases a o cfg _ _ msg.provider_message_id _
      (create_event-Claimed o.claim_ok EventType.message_received msg.provider_message_id ch)

handle_inbound-Grows :
    (a : Asked) (o : Outside) (cfg : ChannelConfig) (msg : InboundMessage) (ch : Channel)
    → Grows ch (handle_inbound a o cfg msg ch).channel
unfolding handle_inbound
handle_inbound-Grows a o cfg msg ch p h =
    take_claim-Grows a o cfg _ _
      (create_event o.claim_ok EventType.message_received msg.provider_message_id ch) p
      ((create_event-Keeps o.claim_ok EventType.message_received msg.provider_message_id ch).events
        p h)

-- a message that was claimed before changes nothing at all
pub handle_inbound-again :
    (a : Asked) (o : Outside) (cfg : ChannelConfig) (msg : InboundMessage) (ch : Channel)
    → is_blank msg.provider_message_id ≡ false
    → has_event_for msg.provider_message_id ch.events ≡ true
    → handle_inbound a o cfg msg ch ≡ drop_message ch
unfolding handle_inbound create_event
handle_inbound-again a o cfg msg ch b h = elim (Bool-cases o.claim_ok) [
  | inl e ↦ rw (e, b, h) refl
  | inr e ↦ rw e refl
]

abbrev handling : Arrival → Channel → Handling
handling r ch = handle_inbound r.asked r.outside ch.config r.message ch

claimed_again :
    (r : Arrival) (ch : Channel) (p : Text)
    → is_blank p ≡ false
    → has_event_for p ch.events ≡ true
    → r.message.provider_message_id ≡ p
    → handle_inbound r.asked r.outside ch.config r.message ch ≡ drop_message ch
claimed_again r ch p b h e =
    handle_inbound-again r.asked r.outside ch.config r.message ch (rw e b) (rw e h)

claimed_now :
    (r : Arrival) (ch : Channel) (p : Text)
    → r.message.provider_message_id ≡ p
    → (is_silent (handle_inbound r.asked r.outside ch.config r.message ch) ≡ true)
      ⊎ (has_event_for p (handle_inbound r.asked r.outside ch.config r.message ch).channel.events
          ≡ true)
claimed_now r ch p e = rw (sym e) (handle_inbound-cases r.asked r.outside ch.config r.message ch)

is_silent-is_answered_of :
    (p q : Text) (h : Handling) → is_silent h ≡ true → is_answered_of p (q, h) ≡ false
unfolding is_silent
is_silent-is_answered_of p q h e = ground arith

bit_le : (b : Bool) → bit b ≤ 1
bit_le true = omega arith
bit_le false = omega arith

is_answered_of-none :
    (rs : List Arrival) (ch : Channel) (p : Text)
    → is_blank p ≡ false
    → has_event_for p ch.events ≡ true
    → count (is_answered_of p) (receive_all rs ch) ≡ 0
unfolding receive_all
is_answered_of-none [] ch p b h = refl
is_answered_of-none (r ∷ rs) ch p b h =
    elim (Bool-cases (text_eq r.message.provider_message_id p)) [
      | inl e ↦
          rw (claimed_again r ch p b h (text_eq_sound r.message.provider_message_id p e), e)
            (omega (arith, is_answered_of-none rs ch p b h))
      | inr e ↦ rw e (
          omega (
            arith,
            is_answered_of-none rs (handling r ch).channel p b
                (handle_inbound-Grows r.asked r.outside ch.config r.message ch p h),
          ))
    ]

-- Of the deliveries of one message, in whatever order and with other messages between them, at most
-- one is accepted or answered: when the message has an id.
pub receive_all-once :
    (rs : List Arrival) (ch : Channel) (p : Text)
    → is_blank p ≡ false
    → count (is_answered_of p) (receive_all rs ch) ≤ 1
unfolding receive_all
receive_all-once [] ch p b = omega arith
receive_all-once (r ∷ rs) ch p b = elim (Bool-cases (text_eq r.message.provider_message_id p)) [
  | inl e ↦ elim (claimed_now r ch p (text_eq_sound r.message.provider_message_id p e)) [
    | inl silent ↦
        rw (is_silent-is_answered_of p r.message.provider_message_id (handling r ch) silent)
          (omega (arith, receive_all-once rs (handling r ch).channel p b))
    | inr here ↦
        rw (is_answered_of-none rs (handling r ch).channel p b here)
          (omega (arith, bit_le (is_answered_of p (r.message.provider_message_id, handling r ch))))
  ]
  | inr e ↦ rw e (omega (arith, receive_all-once rs (handling r ch).channel p b))
]
