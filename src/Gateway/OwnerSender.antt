-- ===== src/Gateway/OwnerSender.antt =====
-- Whether a message is from the owner of the channel (services/api/internal/api/handler/gateway.go,
-- `isOwnerSender`).
use agent_nexus.Prelude.{
  Bool, true, false, not, ◌&&◌, ◌||◌, Option, none, some, List, [], ◌∷◌, if◌then◌else◌,
}
use agent_nexus.Prelude.Text.{Text, text_eq, is_blank, trim_space}
use agent_nexus.Gateway.Phone.{normalize_gateway_phone, jid_from_phone, default_string}
use agent_nexus.Gateway.Channel.{Role, Contact, ChannelConfig, Channel, list_owner_contacts}
use agent_nexus.Gateway.Policy.{InboundMessage, Outside}

abbrev full : Text → Bool
full t = not (is_blank t)

abbrev pub is_owner_role : Role → Bool
is_owner_role Role.owner = true
is_owner_role _ = false

abbrev pub is_owner_contact : Option Contact → Bool
is_owner_contact none = false
is_owner_contact (some c) = is_owner_role c.role

-- the three comparisons of the loop over the owners
abbrev pub is_owner_by : InboundMessage → Contact → Bool
is_owner_by msg c =
    let sender_phone = normalize_gateway_phone msg.sender_phone in
    let sender_jid = trim_space msg.sender_id in
    let owner_phone = normalize_gateway_phone c.phone_number in
    (full sender_phone && full owner_phone && text_eq sender_phone owner_phone)
    || (full sender_jid && full c.whatsapp_jid && text_eq sender_jid c.whatsapp_jid)
    || (full sender_jid && full owner_phone && text_eq sender_jid (jid_from_phone owner_phone))

abbrev pub any_owner : InboundMessage → List Contact → Bool
any_owner msg [] = false
any_owner msg (c ∷ cs) = is_owner_by msg c || any_owner msg cs

unfoldable pub is_owner_sender :
    Outside → ChannelConfig → InboundMessage → Option Contact → Channel → Bool
is_owner_sender o cfg msg contact ch =
    if is_owner_contact contact
    then true
    else if msg.from_me && cfg.self_chat_enabled
    then true
    else if o.owners_ok
    then any_owner msg
        (list_owner_contacts (default_string msg.account_id cfg.account_id) ch.contacts)
    else false
