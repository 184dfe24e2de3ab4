-- ===== src/Gateway/Inbound.antt =====
-- `handleInbound`, and the two endpoints that receive messages
-- (services/api/internal/api/handler/gateway.go).
pub mod Once
pub mod Access
pub mod Changes
pub mod Kept
pub mod Steps
use agent_nexus.Prelude.{
  ℕ, Bool, true, false, not, ◌&&◌, ◌||◌, Option, none, some, List, [], ◌∷◌, if◌then◌else◌,
}
use agent_nexus.Prelude.Text.{Text, codes, is_blank, text_eq, trim_space}
use agent_nexus.Gateway.Channel.{
  Contact, ChannelConfig, EventType, Claim, Channel, create_event, log_event,
  has_recent_outbound_body,
}
use agent_nexus.Gateway.Policy.{
  Source, InboundMessage, Outside, Decision, resolve_contact, sender_allowed, request_pairing,
  auto_approve_bot_sender,
}
use agent_nexus.Gateway.Commands.{Reply, Asked}
use agent_nexus.Gateway.Switch.{handle_owner_command}
use agent_nexus.Gateway.Runs.{Dispatched, dispatch_gateway_run}

-- Whether the message was accepted, the reply to send, and the run that `deliverWhenComplete` follows.
pub record Handling : Type 0 where
  pub channel : Channel
  pub accepted : Bool
  pub response : Reply

abbrev pub drop_message : Channel → Handling
drop_message ch = record { channel = ch; accepted = false; response = Reply.no_reply }

abbrev pub answer_dispatch : Outside → Channel → Dispatched → Handling
answer_dispatch o ch Dispatched.failed = drop_message (log_event o.log_ok EventType.run_failed ch)
answer_dispatch o ch _ = record { channel = ch; accepted = true; response = Reply.no_reply }

unfoldable pub dispatch_message : Outside → ChannelConfig → InboundMessage → Channel → Handling
dispatch_message o cfg msg ch =
    let (next, d) = dispatch_gateway_run o cfg msg ch in answer_dispatch o next d

unfoldable pub admit : Outside → ChannelConfig → InboundMessage → Decision → Channel → Handling
admit o cfg msg Decision.blocked ch = drop_message (log_event o.log_ok EventType.contact_blocked ch)
admit o cfg msg decision ch =
    if sender_allowed cfg msg decision
    then dispatch_message o cfg msg ch
    else drop_message (log_event o.log_ok EventType.sender_ignored (request_pairing o cfg msg ch))

abbrev pub with_contact : InboundMessage → Option Contact → InboundMessage
with_contact msg contact = record msg { contact = contact }

-- bot mode approves a sender that matches no contact
unfoldable pub approve_unmatched :
    Outside → ChannelConfig → InboundMessage → Decision → Channel → Handling
approve_unmatched o cfg msg Decision.unmatched ch =
    let (next, contact) = auto_approve_bot_sender o cfg msg ch in
    if cfg.bot_mode_enabled
    then admit o cfg (with_contact msg contact) Decision.contact_allowed next
    else admit o cfg msg Decision.unmatched ch
approve_unmatched o cfg msg decision ch = admit o cfg msg decision ch

unfoldable pub guard_assistant :
    Outside → ChannelConfig → InboundMessage → Decision → Channel → Handling
guard_assistant o cfg msg decision ch =
    if msg.from_me && not cfg.self_chat_enabled
    then drop_message ch
    else if not cfg.assistant_enabled
    then drop_message (log_event o.log_ok EventType.assistant_disabled ch)
    else approve_unmatched o cfg msg decision ch

unfoldable pub after_echo :
    Asked → Outside → ChannelConfig → InboundMessage → Decision → Channel → Handling
after_echo a o cfg msg decision ch = elim (handle_owner_command a o cfg msg msg.contact ch) [
  | none ↦ guard_assistant o cfg msg decision ch
  | some (next, reply) ↦ record { channel = next; accepted = false; response = reply }
]

-- two minutes, in nanoseconds
abbrev echo_window : ℕ
echo_window = 120000000000

abbrev pub is_echo : Outside → InboundMessage → Channel → Bool
is_echo o msg ch =
    (msg.from_me && o.echo_ok)
    && has_recent_outbound_body msg.peer_id msg.body echo_window o.now ch.outbound

unfoldable pub after_claim :
    Asked → Outside → ChannelConfig → InboundMessage → Decision → Channel → Handling
after_claim a o cfg msg decision ch =
    if is_echo o msg ch
    then drop_message (log_event o.log_ok EventType.self_echo_dropped ch)
    else after_echo a o cfg msg decision ch

abbrev pub take_claim :
    Asked → Outside → ChannelConfig → InboundMessage → Decision → Channel × Claim → Handling
take_claim a o cfg msg decision (ch, Claim.claimed) = after_claim a o cfg msg decision ch
take_claim a o cfg msg decision (ch, _) = drop_message ch

unfoldable pub handle_inbound :
    Asked → Outside → ChannelConfig → InboundMessage → Channel → Handling
handle_inbound a o cfg msg ch =
    let (contact, decision) = resolve_contact o cfg msg ch in
    take_claim a o cfg (with_contact msg contact) decision
      (create_event o.claim_ok EventType.message_received msg.provider_message_id ch)

pub data Received : Type 0 where
  bad_request missing ignored accepted internal_error : Received

-- The checks on the channel: it was found, is active, and has the type of the endpoint.
abbrev pub is_open : Bool → Bool → Text → Channel → Bool
is_open found active kind ch = found && active && text_eq ch.channel_type kind

abbrev pub fill : Text → Text → Text
fill value fallback = if is_blank value then fallback else value

abbrev pub filled : ChannelConfig → InboundMessage → InboundMessage
filled cfg msg = record msg {
  account_id = fill msg.account_id cfg.account_id;
  peer_kind = fill msg.peer_kind (codes "direct");
  peer_id = fill msg.peer_id msg.sender_id;
  source = Source.whatsapp;
  contact = none;
}

-- The reply is what `sendAdapterMessage` sends to the peer; the empty one is not sent.
abbrev pub answer_receive : Handling → Channel × Received × Reply
answer_receive h =
    (h.channel, if h.accepted then Received.accepted else Received.ignored, h.response)

unfoldable pub whatsapp_receive :
    Asked → Outside → Bool → Bool → Option InboundMessage → Channel → Channel × Received × Reply
whatsapp_receive a o found active none ch = (ch, Received.bad_request, Reply.no_reply)
whatsapp_receive a o found active (some msg) ch =
    if is_blank (trim_space msg.body)
    then (ch, Received.bad_request, Reply.no_reply)
    else if not (is_open found active (codes "whatsapp") ch)
    then (ch, Received.missing, Reply.no_reply)
    else answer_receive (handle_inbound a o ch.config (filled ch.config msg) ch)

abbrev answer_http : Channel × Dispatched → Channel × Received
answer_http (ch, Dispatched.failed) = (ch, Received.internal_error)
answer_http (ch, _) = (ch, Received.accepted)

abbrev http_message : ChannelConfig → Text → Text → InboundMessage
http_message cfg sender input = record {
  account_id = cfg.account_id;
  provider_message_id = [];
  peer_kind = codes "direct";
  peer_id = sender;
  sender_id = sender;
  sender_phone = [];
  sender_name = [];
  from_me = false;
  body = input;
  source = Source.http;
  contact = none;
}

unfoldable pub http_receive :
    Outside → Bool → Bool → Text → Text → Option Text → Channel → Channel × Received
http_receive o found active session remote none ch = (ch, Received.bad_request)
http_receive o found active session remote (some input) ch =
    if is_blank (trim_space input)
    then (ch, Received.bad_request)
    else if not (is_open found active (codes "http") ch)
    then (ch, Received.missing)
    else answer_http
        (dispatch_gateway_run o ch.config (http_message ch.config (fill session remote) input) ch)
