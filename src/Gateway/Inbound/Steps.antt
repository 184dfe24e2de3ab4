-- ===== src/Gateway/Inbound/Steps.antt =====
-- No step of `handleInbound` loses an event (services/api/internal/api/handler/gateway.go).
use agent_nexus.Prelude.{ℕ, ◌≡◌, Bool, true, false, Option, none, some, arith, if◌then◌else◌}
use agent_nexus.Prelude.Text.{Text}
use agent_nexus.Gateway.Channel.{
  ChannelConfig, EventType, Claim, Channel, Session, log_event, has_event_for,
}
use agent_nexus.Gateway.Policy.{
  InboundMessage, Outside, Decision, sender_allowed, request_pairing, auto_approve_bot_sender,
}
use agent_nexus.Gateway.Commands.{Asked}
use agent_nexus.Gateway.Switch.{Handled}
use agent_nexus.Gateway.Runs.{
  Dispatched, dispatch_gateway_run, new_run, start_run, in_session, in_conversation, upsert_session,
  session_key, agent_of, account_of, ensure_gateway_conversation,
}
use agent_nexus.Gateway.Inbound.{
  Handling, drop_message, dispatch_message, answer_dispatch, admit, with_contact, approve_unmatched,
  guard_assistant, after_echo, is_echo, after_claim, take_claim,
}
use agent_nexus.Gateway.Inbound.Kept.{KeepsHandled, handle_owner_command-KeepsHandled}
use agent_nexus.Gateway.Inbound.Changes.{
  Keeps, Keeps-refl, Keeps-trans, auto_approve_bot_sender-Keeps, log_event-Keeps,
  request_pairing-Keeps,
}

abbrev pub Grows : Channel → Channel → Type 0
Grows ch next = (p : Text) → has_event_for p ch.events ≡ true → has_event_for p next.events ≡ true

-- the same of the handling that a test chooses
record HGrows (ch : Channel) (h : Handling) : Type 0 where
  grows : Grows ch h.channel

if-HGrows :
    (b : Bool) (ch : Channel) (x y : Handling)
    → HGrows ch x
    → HGrows ch y
    → HGrows ch (if b then x else y)
if-HGrows true ch x y h g = h
if-HGrows false ch x y h g = g

Keeps-HGrows : (ch next : Channel) → Keeps ch next → HGrows ch (drop_message next)
Keeps-HGrows ch next k = record { grows = k.events }

log-HGrows :
    (ok : Bool) (typ : EventType) (ch : Channel) → HGrows ch (drop_message (log_event ok typ ch))
log-HGrows ok typ ch = Keeps-HGrows ch (log_event ok typ ch) (log_event-Keeps ok typ ch)

start_run-Grows :
    (o : Outside) (agent body : Text) (s : Session) (ch : Channel)
    → Grows ch (start_run o agent body s ch).0
unfolding start_run log_event
start_run-Grows o agent body s ch p h = ground arith

upsert_session-Grows :
    (id : ℕ) (account key : Text) (conversation : ℕ) (ch : Channel)
    → Grows ch (upsert_session id account key conversation ch).0
unfolding upsert_session
upsert_session-Grows id account key conversation ch p h = ground arith

pair-Grows :
    (b : Bool) (ch : Channel) (x y : Channel × Dispatched)
    → Grows ch x.0
    → Grows ch y.0
    → Grows ch (if b then x else y).0
pair-Grows true ch x y h g = h
pair-Grows false ch x y h g = g

in_session-Grows :
    (o : Outside) (agent body : Text) (ch : Channel) (r : Channel × Session)
    → Grows ch r.0
    → Grows ch (in_session o agent body ch r).0
in_session-Grows o agent body ch (next, s) g =
    pair-Grows o.session_ok ch (start_run o agent body s next) (ch, Dispatched.failed)
      (λ p h. start_run-Grows o agent body s next p (g p h)) (λ p h. h)

in_conversation-Grows :
    (o : Outside) (cfg : ChannelConfig) (msg : InboundMessage) (ch : Channel) (c : Option ℕ)
    → Grows ch (in_conversation o cfg msg ch c).0
in_conversation-Grows o cfg msg ch none = λ p h. h
in_conversation-Grows o cfg msg ch (some c) =
    in_session-Grows o (agent_of ch msg.contact) msg.body ch _
      (upsert_session-Grows o.new_id (account_of cfg msg) (session_key cfg ch msg) c ch)

new_run-Grows :
    (o : Outside) (cfg : ChannelConfig) (msg : InboundMessage) (ch : Channel)
    → Grows ch (new_run o cfg msg ch).0
unfolding new_run
new_run-Grows o cfg msg ch =
    in_conversation-Grows o cfg msg ch (ensure_gateway_conversation o (session_key cfg ch msg) ch)

dispatch_gateway_run-Grows :
    (o : Outside) (cfg : ChannelConfig) (msg : InboundMessage) (ch : Channel)
    → Grows ch (dispatch_gateway_run o cfg msg ch).0
unfolding dispatch_gateway_run
dispatch_gateway_run-Grows o cfg msg ch p h = ground (arith, new_run-Grows o cfg msg ch p h)

answer_dispatch-HGrows :
    (o : Outside) (ch next : Channel) (d : Dispatched)
    → Grows ch next
    → HGrows ch (answer_dispatch o next d)
answer_dispatch-HGrows o ch next Dispatched.failed g = record {
  grows = λ p e. (log_event-Keeps o.log_ok EventType.run_failed next).events p (g p e);
}
answer_dispatch-HGrows o ch next Dispatched.delivered g = record { grows = g }
answer_dispatch-HGrows o ch next (Dispatched.started r) g = record { grows = g }

module _ (a : Asked) (o : Outside) (cfg : ChannelConfig) where
  dispatch_message-HGrows :
      (msg : InboundMessage) (ch : Channel) → HGrows ch (dispatch_message o cfg msg ch)
  unfolding dispatch_message
  dispatch_message-HGrows msg ch =
      answer_dispatch-HGrows o ch (dispatch_gateway_run o cfg msg ch).0
        (dispatch_gateway_run o cfg msg ch).1 (dispatch_gateway_run-Grows o cfg msg ch)

  offer-HGrows :
      (msg : InboundMessage) (d : Decision) (ch : Channel)
      → HGrows ch (
          if sender_allowed cfg msg d
          then dispatch_message o cfg msg ch
          else drop_message
              (log_event o.log_ok EventType.sender_ignored (request_pairing o cfg msg ch)))
  offer-HGrows msg d ch =
      if-HGrows (sender_allowed cfg msg d) ch _ _ (dispatch_message-HGrows msg ch) (
        Keeps-HGrows ch _
          (Keeps-trans (request_pairing-Keeps o cfg msg ch) (log_event-Keeps o.log_ok _ _)))

  admit-HGrows :
      (msg : InboundMessage) (d : Decision) (ch : Channel) → HGrows ch (admit o cfg msg d ch)
  unfolding admit
  admit-HGrows msg Decision.blocked ch = log-HGrows o.log_ok EventType.contact_blocked ch
  admit-HGrows msg Decision.unmatched ch = offer-HGrows msg Decision.unmatched ch
  admit-HGrows msg Decision.contact_allowed ch = offer-HGrows msg Decision.contact_allowed ch

  approve_unmatched-HGrows :
      (msg : InboundMessage) (d : Decision) (ch : Channel)
      → HGrows ch (approve_unmatched o cfg msg d ch)
  unfolding approve_unmatched
  approve_unmatched-HGrows msg Decision.blocked ch = admit-HGrows msg Decision.blocked ch
  approve_unmatched-HGrows msg Decision.contact_allowed ch =
      admit-HGrows msg Decision.contact_allowed ch
  approve_unmatched-HGrows msg Decision.unmatched ch =
      if-HGrows cfg.bot_mode_enabled ch _ _
        (record {
          grows = λ p e.
              (admit-HGrows (with_contact msg (auto_approve_bot_sender o cfg msg ch).1)
                  Decision.contact_allowed (auto_approve_bot_sender o cfg msg ch).0).grows
                p ((auto_approve_bot_sender-Keeps o cfg msg ch).events p e);
        })
        (admit-HGrows msg Decision.unmatched ch)

  guard_assistant-HGrows :
      (msg : InboundMessage) (d : Decision) (ch : Channel)
      → HGrows ch (guard_assistant o cfg msg d ch)
  unfolding guard_assistant
  guard_assistant-HGrows msg d ch = if-HGrows _ ch _ _ (Keeps-HGrows ch ch (Keeps-refl ch)) (
      if-HGrows _ ch _ _ (log-HGrows o.log_ok EventType.assistant_disabled ch)
        (approve_unmatched-HGrows msg d ch))

  after_command :
      (ch : Channel) (r : Handled) (h : Handling)
      → KeepsHandled ch r
      → HGrows ch h
      → HGrows ch (elim r [
        | none ↦ h
        | some (next, reply) ↦ record { channel = next; accepted = false; response = reply }
      ])
  after_command ch none h k g = g
  after_command ch (some (next, reply)) h (KeepsHandled.handled k) g = record { grows = k.events }

  after_claim-HGrows :
      (msg : InboundMessage) (d : Decision) (ch : Channel)
      → HGrows ch (after_claim a o cfg msg d ch)
  unfolding after_claim after_echo
  after_claim-HGrows msg d ch =
      if-HGrows (is_echo o msg ch) ch _ _ (log-HGrows o.log_ok EventType.self_echo_dropped ch) (
        after_command ch _ _ (handle_owner_command-KeepsHandled a o cfg ch msg msg.contact)
          (guard_assistant-HGrows msg d ch))

  pub take_claim-Grows :
      (msg : InboundMessage) (d : Decision) (r : Channel × Claim)
      → Grows r.0 (take_claim a o cfg msg d r).channel
  take_claim-Grows msg d (ch, Claim.claimed) = (after_claim-HGrows msg d ch).grows
  take_claim-Grows msg d (ch, Claim.taken) = λ p h. h
  take_claim-Grows msg d (ch, Claim.unavailable) = λ p h. h
