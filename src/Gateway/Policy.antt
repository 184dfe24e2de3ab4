-- ===== src/Gateway/Policy.antt =====
-- Who may speak to the agent of a channel: the contact of a message, the policies, and pairing
-- requests (services/api/internal/api/handler/gateway.go).
use agent_nexus.Prelude.{
  ℕ, ◌+◌, Bool, true, false, not, ◌&&◌, ◌||◌, Option, none, some, List, [], ◌∷◌, if◌then◌else◌,
}
use agent_nexus.Prelude.Text.{Text, text_eq, codes}
use agent_nexus.Gateway.Phone.{
  normalize_gateway_phone, jid_from_phone, alias_from_name, default_string,
}
use agent_nexus.Gateway.Channel.{
  Role, Contact, Policy, ChannelConfig, EventType, PairingRequest, Channel, log_event,
  match_contact, create_contact,
}

pub data Source : Type 0 where
  whatsapp http reminder scheduled : Source

pub record InboundMessage : Type 0 where
  pub account_id : Text
  pub provider_message_id : Text
  pub peer_kind : Text
  pub peer_id : Text
  pub sender_id : Text
  pub sender_phone : Text
  pub sender_name : Text
  pub from_me : Bool
  pub body : Text
  pub source : Source
  pub contact : Option Contact

-- What the calls to the database and to other parts answer while one message is handled, the ids that
-- are made, and the time.
pub record Outside : Type 0 where
  pub now : ℕ
  pub match_ok : Bool
  pub claim_ok : Bool
  pub log_ok : Bool
  pub echo_ok : Bool
  pub owners_ok : Bool
  pub write_ok : Bool
  pub new_id : ℕ
  pub waiting_ok : Bool
  pub takes_input : Bool
  pub sessions_ok : Bool
  pub conversation_ok : Bool
  pub session_ok : Bool
  pub message_ok : Bool
  pub run_ok : Bool
  pub agent_found : Bool

pub data Decision : Type 0 where
  unmatched blocked contact_allowed : Decision

abbrev pub is_blocked_role : Role → Bool
is_blocked_role Role.blocked = true
is_blocked_role _ = false

abbrev pub decide : Option Contact → Option Contact × Decision
decide none = (none, Decision.unmatched)
decide (some c) =
    if is_blocked_role c.role || not c.auto_reply_enabled
    then (some c, Decision.blocked)
    else (some c, Decision.contact_allowed)

unfoldable pub resolve_contact :
    Outside → ChannelConfig → InboundMessage → Channel → Option Contact × Decision
resolve_contact o cfg msg ch = decide (
    match_contact o.match_ok (default_string msg.account_id cfg.account_id) msg.sender_id
      msg.sender_phone ch)

abbrev pub applicable_policy : ChannelConfig → InboundMessage → Policy
applicable_policy cfg msg =
    if text_eq msg.peer_kind (codes "group") then cfg.group_policy else cfg.dm_policy

abbrev pub allows_sender : List Text → Text → Text → Bool
allows_sender [] sender_id sender_phone = false
allows_sender (s ∷ ss) sender_id sender_phone =
    text_eq s sender_id || text_eq s sender_phone || allows_sender ss sender_id sender_phone

abbrev pub allows_peer : List Text → Text → Bool
allows_peer [] peer_id = false
allows_peer (s ∷ ss) peer_id = text_eq s peer_id || allows_peer ss peer_id

abbrev pub is_listed : ChannelConfig → InboundMessage → Bool
is_listed cfg msg =
    allows_sender cfg.allow_from msg.sender_id msg.sender_phone
    || allows_peer cfg.group_allow_from msg.peer_id

abbrev pub is_http : Source → Bool
is_http Source.http = true
is_http _ = false

abbrev pub is_allowed : Decision → Bool
is_allowed Decision.contact_allowed = true
is_allowed _ = false

abbrev pub policy_allows : Policy → ChannelConfig → InboundMessage → Bool
policy_allows Policy.open_to_all cfg msg = true
policy_allows Policy.allowlist cfg msg = is_listed cfg msg
policy_allows Policy.pairing cfg msg = is_listed cfg msg
policy_allows Policy.closed cfg msg = false

unfoldable pub sender_allowed : ChannelConfig → InboundMessage → Decision → Bool
sender_allowed cfg msg decision =
    if is_http msg.source
    then true
    else if msg.from_me && cfg.self_chat_enabled
    then true
    else if is_allowed decision
    then true
    else policy_allows (applicable_policy cfg msg) cfg msg

abbrev is_pairing : Policy → Bool
is_pairing Policy.pairing = true
is_pairing _ = false

-- `CreatePairing`: of one account and sender there is one pending row, which a repeat refreshes
abbrev pub upsert_pairing : PairingRequest → List PairingRequest → List PairingRequest
upsert_pairing p [] = p ∷ []
upsert_pairing p (q ∷ qs) =
    let rest = upsert_pairing p qs in
    if text_eq q.account_id p.account_id && text_eq q.sender_id p.sender_id
    then record q { expires_at = p.expires_at } ∷ qs
    else q ∷ rest

-- a week, in nanoseconds
abbrev pub pairing_lifetime : ℕ
pairing_lifetime = 604800000000000

unfoldable pub request_pairing : Outside → ChannelConfig → InboundMessage → Channel → Channel
request_pairing o cfg msg ch =
    if not (is_pairing (applicable_policy cfg msg))
    then ch
    else if o.write_ok
    then log_event o.log_ok EventType.pairing_requested (record ch {
      pairings =
          upsert_pairing
            (record {
              account_id = default_string msg.account_id cfg.account_id;
              peer_kind = default_string msg.peer_kind (codes "direct");
              peer_id = msg.peer_id;
              sender_id = msg.sender_id;
              expires_at = o.now + pairing_lifetime;
            })
            ch.pairings;
    })
    else ch

-- The contact that bot mode makes of an unknown sender.
abbrev pub bot_contact : Outside → ChannelConfig → InboundMessage → Contact
bot_contact o cfg msg =
    let name = default_string msg.sender_name (default_string msg.sender_phone msg.sender_id) in
    let phone = normalize_gateway_phone msg.sender_phone in
    record {
      id = o.new_id;
      account_id = default_string msg.account_id cfg.account_id;
      display_name = name;
      alias = alias_from_name name;
      phone_number = phone;
      whatsapp_jid = default_string msg.sender_id (jid_from_phone phone);
      whatsapp_lid = [];
      role = Role.trusted;
      agent_id = [];
      auto_reply_enabled = true;
    }

-- a contact that cannot be made is looked up
abbrev pub after_approval :
    Outside → ChannelConfig → InboundMessage → Channel → Option Channel → Channel × Option Contact
after_approval o cfg msg ch none = (
  ch,
  match_contact o.match_ok (default_string msg.account_id cfg.account_id) msg.sender_id
      msg.sender_phone ch,
)
after_approval o cfg msg ch (some next) =
    (log_event o.log_ok EventType.sender_auto_approved_bot_mode next, some (bot_contact o cfg msg))

unfoldable pub auto_approve_bot_sender :
    Outside → ChannelConfig → InboundMessage → Channel → Channel × Option Contact
auto_approve_bot_sender o cfg msg ch =
    after_approval o cfg msg ch (create_contact o.write_ok (bot_contact o cfg msg) ch)
