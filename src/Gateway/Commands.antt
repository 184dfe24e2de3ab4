-- ===== src/Gateway/Commands.antt =====
-- The owner's commands (services/api/internal/api/handler/gateway.go, `handleOwnerCommand` and what it
-- calls). The replies are constructors in place of their English texts.
use agent_nexus.Prelude.{
  ℕ, Bool, true, false, not, ◌&&◌, Option, none, some, List, [], ◌∷◌, if◌then◌else◌, take,
}
use agent_nexus.Prelude.Text.{Text, text_eq, is_blank, to_lower, trim_space}
use agent_nexus.Gateway.Phone.{jid_from_phone, alias_from_name}
use agent_nexus.Gateway.Channel.{
  Role, Contact, ChannelConfig, EventType, EscalationStatus, Escalation, Channel, log_event,
  create_contact, update_contact, update_config,
}
use agent_nexus.Gateway.Policy.{Outside, is_blocked_role}
use agent_nexus.Gateway.Owner.{split_contact_name_phone}

pub data Reply : Type 0 where
  no_reply : Reply
  which_contact : Bool → Reply
  could_not_update : Text → Reply
  contact_switched : Text → Bool → Reply
  multiple_contacts : List Text → Bool → Reply
  not_found ask_number could_not_add added : Text → Reply
  assistant_switched bot_mode_switched chat_approvals_switched : Bool → Reply
  approvals_are_disabled : Reply
  no_pending_escalation : Text → Reply
  escalation_resolved : EscalationStatus → Text → Reply
  sync_failed : Reply
  synced : ℕ → Reply
  no_pending_escalations : Reply
  pending_escalations : List Text → Reply

-- What the search for contacts returns, none when it fails, what the adapter answers to a sync, and
-- whether the pending escalations can be read.
pub record Asked : Type 0 where
  pub matches : Option (List Contact)
  pub synced : Option ℕ
  pub approvals_ok : Bool

abbrev pub switch_assistant : Bool → ChannelConfig → ChannelConfig
switch_assistant enabled cfg = record cfg { assistant_enabled = enabled }

unfoldable pub set_assistant_enabled : Outside → ChannelConfig → Bool → Channel → Channel × Reply
set_assistant_enabled o cfg enabled ch = (
  log_event o.log_ok
      (if enabled
        then EventType.assistant_enabled_by_owner
        else EventType.assistant_disabled_by_owner)
      (update_config o.write_ok (switch_assistant enabled cfg) ch),
  Reply.assistant_switched enabled,
)

abbrev pub switch_bot_mode : Bool → ChannelConfig → ChannelConfig
switch_bot_mode enabled cfg = record cfg { bot_mode_enabled = enabled }

unfoldable pub set_bot_mode : Outside → ChannelConfig → Bool → Channel → Channel × Reply
set_bot_mode o cfg enabled ch = (
  log_event o.log_ok
      (if enabled
        then EventType.bot_mode_enabled_by_owner
        else EventType.bot_mode_disabled_by_owner)
      (update_config o.write_ok (switch_bot_mode enabled cfg) ch),
  Reply.bot_mode_switched enabled,
)

abbrev pub switch_chat_approvals : Bool → ChannelConfig → ChannelConfig
switch_chat_approvals enabled cfg = record cfg { chat_approvals_enabled = enabled }

unfoldable pub set_chat_approvals : Outside → ChannelConfig → Bool → Channel → Channel × Reply
set_chat_approvals o cfg enabled ch = (
  log_event o.log_ok
      (if enabled
        then EventType.chat_approvals_enabled_by
        else EventType.chat_approvals_disabled_by)
      (update_config o.write_ok (switch_chat_approvals enabled cfg) ch),
  Reply.chat_approvals_switched enabled,
)

-- The row of a contact that a toggle writes.
abbrev pub toggled : Bool → Contact → Contact
toggled enable c =
    let role = if enable && is_blocked_role c.role then Role.trusted else c.role in
    record c { role = role; auto_reply_enabled = enable }

abbrev pub after_toggle : Outside → Bool → Contact → Channel → Option Channel → Channel × Reply
after_toggle o enable c ch none = (ch, Reply.could_not_update c.display_name)
after_toggle o enable c ch (some next) = (
  log_event o.log_ok
      (if enable
        then EventType.contact_auto_reply_enabled
        else EventType.contact_auto_reply_disabled)
      next,
  Reply.contact_switched c.display_name enable,
)

unfoldable pub toggle_contact : Outside → Bool → Contact → Channel → Channel × Reply
toggle_contact o enable c ch =
    after_toggle o enable c ch (update_contact o.write_ok (toggled enable c) ch)

abbrev pub owner_contact : Outside → ChannelConfig → Text → Text → Contact
owner_contact o cfg name phone = record {
  id = o.new_id;
  account_id = cfg.account_id;
  display_name = name;
  alias = alias_from_name name;
  phone_number = phone;
  whatsapp_jid = jid_from_phone phone;
  whatsapp_lid = [];
  role = Role.trusted;
  agent_id = [];
  auto_reply_enabled = true;
}

abbrev pub after_add : Outside → Text → Channel → Option Channel → Channel × Reply
after_add o name ch none = (ch, Reply.could_not_add name)
after_add o name ch (some next) =
    (log_event o.log_ok EventType.contact_created_by_owner next, Reply.added name)

abbrev pub add_named : Outside → ChannelConfig → Text → Text → Channel → Channel × Reply
add_named o cfg name phone ch =
    after_add o name ch (create_contact o.write_ok (owner_contact o cfg name phone) ch)

unfoldable pub add_contact : Outside → ChannelConfig → Text → Channel → Channel × Reply
add_contact o cfg target ch =
    let (name, phone) = split_contact_name_phone target in
    if is_blank phone
    then (ch, Reply.ask_number target)
    else add_named o cfg (if is_blank name then phone else name) phone ch

abbrev names : List Contact → List Text
names [] = []
names (c ∷ cs) = c.display_name ∷ names cs

abbrev pub no_match : Outside → ChannelConfig → Text → Bool → Channel → Channel × Reply
no_match o cfg target enable ch =
    if enable then add_contact o cfg target ch else (ch, Reply.not_found target)

abbrev pub choose_match :
    Option (List Contact) → Outside → ChannelConfig → Text → Bool → Channel → Channel × Reply
choose_match none o cfg target enable ch = no_match o cfg target enable ch
choose_match (some []) o cfg target enable ch = no_match o cfg target enable ch
choose_match (some (c ∷ [])) o cfg target enable ch = toggle_contact o enable c ch
choose_match (some (c ∷ d ∷ cs)) o cfg target enable ch =
    (ch, Reply.multiple_contacts (names (c ∷ d ∷ cs)) enable)

unfoldable pub handle_owner_contact_toggle :
    Asked → Outside → ChannelConfig → Text → Bool → Channel → Channel × Reply
handle_owner_contact_toggle a o cfg raw enable ch =
    let target = trim_space raw in
    if is_blank target
    then (ch, Reply.which_contact enable)
    else choose_match a.matches o cfg target enable ch

abbrev is_waiting : EscalationStatus → Bool
is_waiting EscalationStatus.waiting = true
is_waiting _ = false

abbrev pub has_code : Text → Escalation → Bool
has_code code e = text_eq (to_lower e.approval_code) (to_lower code) && is_waiting e.status

-- `ResolveEscalationByCode`: the update of every pending row with the code, and the code of the first
abbrev pub resolve_each : Text → EscalationStatus → List Escalation → List Escalation
resolve_each code status [] = []
resolve_each code status (e ∷ es) =
    (if has_code code e then record e { status = status } else e) ∷ resolve_each code status es

abbrev pub find_pending : Text → List Escalation → Option Text
find_pending code [] = none
find_pending code (e ∷ es) = if has_code code e then some e.approval_code else find_pending code es

abbrev resolved_event : EscalationStatus → EventType
resolved_event EscalationStatus.approved = EventType.escalation_approved
resolved_event _ = EventType.escalation_rejected

abbrev pub after_resolve :
    Outside → Text → EscalationStatus → Channel → Option Text → Channel × Reply
after_resolve o code status ch none = (ch, Reply.no_pending_escalation code)
after_resolve o code status ch (some found) = (
  log_event o.log_ok (resolved_event status)
      (record ch { escalations = resolve_each code status ch.escalations }),
  Reply.escalation_resolved status found,
)

unfoldable pub resolve_escalation :
    Outside → ChannelConfig → Text → EscalationStatus → Channel → Channel × Reply
resolve_escalation o cfg code status ch =
    if not cfg.chat_approvals_enabled
    then (ch, Reply.approvals_are_disabled)
    else after_resolve o code status ch
        (if o.write_ok then find_pending code ch.escalations else none)

abbrev waiting_codes : List Escalation → List Text
waiting_codes [] = []
waiting_codes (e ∷ es) =
    let rest = waiting_codes es in if is_waiting e.status then e.approval_code ∷ rest else rest

abbrev pub list_approvals : Asked → ChannelConfig → Channel → Reply
list_approvals a cfg ch =
    if not cfg.chat_approvals_enabled
    then Reply.approvals_are_disabled
    else elim (if a.approvals_ok then take 10 (waiting_codes ch.escalations) else []) [
      | [] ↦ Reply.no_pending_escalations
      | c ∷ cs ↦ Reply.pending_escalations (c ∷ cs)
    ]
