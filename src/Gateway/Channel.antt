-- ===== src/Gateway/Channel.antt =====
-- The rows of one gateway channel (services/api/internal/domain/types.go) and the queries on them that
-- the handlers make (services/api/internal/repository/gateway.go). Every row is of the one channel and
-- workspace. Ids of contacts, conversations, sessions and runs are numbers; the new ones are arguments.
use agent_nexus.Prelude.{
  ℕ, ◌+◌, Bool, false, not, ◌&&◌, ◌||◌, Option, none, some, List, [], ◌∷◌, ◌++◌, ltb, ◌==◌,
  if◌then◌else◌,
}
use agent_nexus.Prelude.Text.{Text, text_eq, is_blank}
use agent_nexus.Run.{RunStatus}
use agent_nexus.Gateway.Phone.{normalize_phone}

-- the CHECK of the column allows these
pub data Role : Type 0 where
  owner trusted blocked : Role

pub record Contact : Type 0 where
  pub id : ℕ
  pub account_id : Text
  pub display_name : Text
  pub alias : Text
  pub phone_number : Text
  pub whatsapp_jid : Text
  pub whatsapp_lid : Text
  pub role : Role
  pub agent_id : Text
  pub auto_reply_enabled : Bool

-- `closed` stands for "disabled" and every text that the switch does not name.
pub data Policy : Type 0 where
  open_to_all allowlist pairing closed : Policy

pub record ChannelConfig : Type 0 where
  pub account_id : Text
  pub dm_policy : Policy
  pub allow_from : List Text
  pub group_policy : Policy
  pub group_allow_from : List Text
  pub self_chat_enabled : Bool
  pub assistant_enabled : Bool
  pub bot_mode_enabled : Bool
  pub chat_approvals_enabled : Bool

pub data EventType : Type 0 where
  message_received self_echo_dropped assistant_disabled contact_blocked sender_ignored : EventType
  run_failed run_started pairing_requested sender_auto_approved_bot_mode : EventType
  contact_auto_reply_enabled contact_auto_reply_disabled contact_created_by_owner : EventType
  assistant_enabled_by_owner assistant_disabled_by_owner : EventType
  bot_mode_enabled_by_owner bot_mode_disabled_by_owner : EventType
  chat_approvals_enabled_by chat_approvals_disabled_by : EventType
  escalation_approved escalation_rejected delivery_failed delivery_succeeded : EventType

pub record Event : Type 0 where
  pub event_type : EventType
  pub provider_message_id : Text

pub record PairingRequest : Type 0 where
  pub account_id : Text
  pub peer_kind : Text
  pub peer_id : Text
  pub sender_id : Text
  pub expires_at : ℕ

pub record OutboundMessage : Type 0 where
  pub peer_id : Text
  pub body : Text
  pub created_at : ℕ

pub record Session : Type 0 where
  pub id : ℕ
  pub account_id : Text
  pub session_key : Text
  pub conversation_id : ℕ

pub record RunRow : Type 0 where
  pub id : ℕ
  pub agent_id : Text
  pub conversation_id : ℕ
  pub channel_session_id : ℕ
  pub input : Text
  pub status : RunStatus

pub data EscalationStatus : Type 0 where
  waiting approved rejected : EscalationStatus

pub record Escalation : Type 0 where
  pub approval_code : Text
  pub status : EscalationStatus

-- The lists of events, runs and messages have the newest first.
pub record Channel : Type 0 where
  pub agent_id : Text
  pub channel_type : Text
  pub config : ChannelConfig
  pub contacts : List Contact
  pub events : List Event
  pub pairings : List PairingRequest
  pub outbound : List OutboundMessage
  pub sessions : List Session
  pub messages : List (ℕ × Text)
  pub runs : List RunRow
  pub escalations : List Escalation
  pub launched : List ℕ
  pub inputs : List (ℕ × Text)

pub data Claim : Type 0 where
  claimed taken unavailable : Claim

abbrev pub has_event_for : Text → List Event → Bool
has_event_for p [] = false
has_event_for p (e ∷ es) = text_eq e.provider_message_id p || has_event_for p es

abbrev pub add_event : EventType → Text → Channel → Channel
add_event typ p ch = record ch {
  events = record { event_type = typ; provider_message_id = p } ∷ ch.events;
}

-- `CreateEvent`: the partial unique index is on the ids that are not null
unfoldable pub create_event : Bool → EventType → Text → Channel → Channel × Claim
create_event db_ok typ p ch =
    if not db_ok
    then (ch, Claim.unavailable)
    else if not (is_blank p) && has_event_for p ch.events
    then (ch, Claim.taken)
    else (add_event typ p ch, Claim.claimed)

-- `logEvent` of an event without a message id, its result dropped
unfoldable pub log_event : Bool → EventType → Channel → Channel
log_event db_ok typ ch = if db_ok then add_event typ [] ch else ch

-- a key that is not empty and equal
abbrev pub same_key : Text → Text → Bool
same_key a b = not (is_blank a) && text_eq a b

abbrev pub matches : Text → Text → Text → Contact → Bool
matches account jid phone c =
    text_eq c.account_id account
    && (same_key c.whatsapp_jid jid || same_key c.whatsapp_lid jid || same_key c.phone_number phone)

abbrev pub rank : Role → ℕ
rank Role.owner = 0
rank Role.trusted = 1
rank Role.blocked = 2

-- the row of least rank; the query says nothing on ties, and the earlier row stands for them
abbrev pub best : (Contact → Bool) → List Contact → Option Contact
best p [] = none
best p (c ∷ cs) =
    let rest = best p cs in
    if p c
    then elim rest [
      | none ↦ some c
      | some d ↦ if ltb (rank d.role) (rank c.role) then some d else some c
    ]
    else rest

-- `MatchContact`; no row is an error as well
unfoldable pub match_contact : Bool → Text → Text → Text → Channel → Option Contact
match_contact db_ok account jid phone ch =
    if db_ok then best (matches account jid (normalize_phone phone)) ch.contacts else none

-- the unique indexes of the table
abbrev pub conflicts : Contact → List Contact → Bool
conflicts n [] = false
conflicts n (c ∷ cs) =
    (text_eq c.account_id n.account_id
      && (same_key c.whatsapp_jid n.whatsapp_jid || same_key c.phone_number n.phone_number))
    || same_key c.whatsapp_lid n.whatsapp_lid
    || conflicts n cs

abbrev pub normalized : Contact → Contact
normalized c = record c { phone_number = normalize_phone c.phone_number }

-- `CreateContact`; none is an error
unfoldable pub create_contact : Bool → Contact → Channel → Option Channel
create_contact db_ok c ch =
    if db_ok && not (conflicts (normalized c) ch.contacts)
    then some (record ch { contacts = ch.contacts ++ (normalized c ∷ []) })
    else none

-- The columns that `UpdateContact` writes; `whatsapp_lid` is not one of them.
abbrev pub rewrite_contact : Contact → List Contact → List Contact
rewrite_contact n [] = []
rewrite_contact n (c ∷ cs) =
    (if c.id == n.id
      then record (normalized n) { whatsapp_lid = c.whatsapp_lid; account_id = c.account_id }
      else c)
    ∷ rewrite_contact n cs

abbrev pub others : ℕ → List Contact → List Contact
others id [] = []
others id (c ∷ cs) = let rest = others id cs in if c.id == id then rest else c ∷ rest

unfoldable pub update_contact : Bool → Contact → Channel → Option Channel
update_contact db_ok n ch =
    if db_ok
      && not (conflicts (record (normalized n) { whatsapp_lid = [] }) (others n.id ch.contacts))
    then some (record ch { contacts = rewrite_contact n ch.contacts })
    else none

-- `UpdateChannel` with a new configuration, its error dropped
unfoldable pub update_config : Bool → ChannelConfig → Channel → Channel
update_config db_ok cfg ch = if db_ok then record ch { config = cfg } else ch

-- `HasRecentOutboundBody`
abbrev pub has_recent_outbound_body : Text → Text → ℕ → ℕ → List OutboundMessage → Bool
has_recent_outbound_body peer body window now [] = false
has_recent_outbound_body peer body window now (m ∷ ms) =
    (text_eq m.peer_id peer && text_eq m.body body && ltb now (m.created_at + window))
    || has_recent_outbound_body peer body window now ms

-- `ListOwnerContacts`, an error as none
abbrev pub list_owner_contacts : Text → List Contact → List Contact
list_owner_contacts account [] = []
list_owner_contacts account (c ∷ cs) =
    let rest = list_owner_contacts account cs in
    elim c.role [
      | Role.owner ↦ if text_eq c.account_id account && c.auto_reply_enabled then c ∷ rest else rest
      | _ ↦ rest
    ]
