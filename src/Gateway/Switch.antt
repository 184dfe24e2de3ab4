-- ===== src/Gateway/Switch.antt =====
-- `handleOwnerCommand`: the natural commands, then the switch over the words
-- (services/api/internal/api/handler/gateway.go).
use agent_nexus.Prelude.{
  Bool, true, false, not, ◌||◌, Option, none, some, List, [], ◌∷◌, if◌then◌else◌, length, drop,
}
use agent_nexus.Prelude.Text.{Text, text_eq, codes, is_blank, to_lower, trim_space}
use agent_nexus.Prelude.Strings.{fields}
use agent_nexus.Gateway.Channel.{Contact, ChannelConfig, EscalationStatus, Channel}
use agent_nexus.Gateway.Policy.{InboundMessage, Outside}
use agent_nexus.Gateway.OwnerSender.{is_owner_sender}
use agent_nexus.Gateway.Owner.{Intent}
use agent_nexus.Gateway.Owner.Intents.{parse_owner_natural_command}
use agent_nexus.Gateway.Commands.{
  Reply, Asked, set_assistant_enabled, set_bot_mode, set_chat_approvals,
  handle_owner_contact_toggle, resolve_escalation, list_approvals,
}

-- none is a message that is no command
abbrev pub Handled : Type 0
Handled = Option (Channel × Reply)

abbrev pub run_intent : Asked → Outside → ChannelConfig → Channel → Intent → Channel × Reply
run_intent a o cfg ch Intent.enable_bot_mode = set_bot_mode o cfg true ch
run_intent a o cfg ch Intent.disable_bot_mode = set_bot_mode o cfg false ch
run_intent a o cfg ch Intent.start_assistant = set_assistant_enabled o cfg true ch
run_intent a o cfg ch Intent.stop_assistant = set_assistant_enabled o cfg false ch
run_intent a o cfg ch (Intent.start_contact target) =
    handle_owner_contact_toggle a o cfg target true ch
run_intent a o cfg ch (Intent.stop_contact target) =
    handle_owner_contact_toggle a o cfg target false ch

abbrev pub is_one_of : Text → List Text → Bool
is_one_of body [] = false
is_one_of body (t ∷ ts) = text_eq body t || is_one_of body ts

abbrev stop_assistant_words : List Text
stop_assistant_words =
    codes "stop assistant" ∷ codes "pause assistant" ∷ codes "turn off assistant" ∷ []

abbrev start_assistant_words : List Text
start_assistant_words =
    codes "start assistant" ∷ codes "resume assistant" ∷ codes "turn on assistant" ∷ []

abbrev enable_bot_words : List Text
enable_bot_words =
    codes "enable bot mode"
    ∷ codes "turn on bot mode"
    ∷ codes "mark channel as bot"
    ∷ codes "mark this channel as bot"
    ∷ []

abbrev disable_bot_words : List Text
disable_bot_words =
    codes "disable bot mode"
    ∷ codes "turn off bot mode"
    ∷ codes "unmark channel as bot"
    ∷ codes "unmark this channel as bot"
    ∷ []

abbrev disable_approvals_words : List Text
disable_approvals_words =
    codes "disable approvals"
    ∷ codes "turn off approvals"
    ∷ codes "disable chat approvals"
    ∷ codes "turn off chat approvals"
    ∷ []

abbrev enable_approvals_words : List Text
enable_approvals_words =
    codes "enable approvals"
    ∷ codes "turn on approvals"
    ∷ codes "enable chat approvals"
    ∷ codes "turn on chat approvals"
    ∷ []

abbrev sync_answer : Asked → Reply
sync_answer a = elim a.synced [ none ↦ Reply.sync_failed | some n ↦ Reply.synced n ]

-- the cases that compare the whole text, after those that look at the first word
unfoldable pub later_words : Asked → Outside → ChannelConfig → Channel → Text → Handled
later_words a o cfg ch body =
    if is_one_of body disable_approvals_words
    then some (set_chat_approvals o cfg false ch)
    else if is_one_of body enable_approvals_words
    then some (set_chat_approvals o cfg true ch)
    else if is_one_of body (codes "sync" ∷ codes "sync contacts" ∷ codes "!sync" ∷ [])
    then some (ch, sync_answer a)
    else if is_one_of body (codes "list approvals" ∷ codes "pending approvals" ∷ [])
    then some (ch, list_approvals a cfg ch)
    else none

-- the cases that look at the first word, when a second one follows
unfoldable pub first_word :
    Asked → Outside → ChannelConfig → Channel → Text → Text → Text → Text → Handled
first_word a o cfg ch raw body word second =
    let target = trim_space (drop (length word) raw) in
    if text_eq word (codes "start")
    then some (handle_owner_contact_toggle a o cfg target true ch)
    else if text_eq word (codes "stop")
    then some (handle_owner_contact_toggle a o cfg target false ch)
    else if is_one_of word (codes "add" ∷ codes "allow" ∷ [])
    then some (handle_owner_contact_toggle a o cfg target true ch)
    else if is_one_of word (codes "approve" ∷ codes "approved" ∷ [])
    then some (resolve_escalation o cfg second EscalationStatus.approved ch)
    else if is_one_of word (codes "reject" ∷ codes "rejected" ∷ codes "deny" ∷ [])
    then some (resolve_escalation o cfg second EscalationStatus.rejected ch)
    else later_words a o cfg ch body

abbrev pub by_words : Asked → Outside → ChannelConfig → Channel → Text → Text → List Text → Handled
by_words a o cfg ch raw body [] = none
by_words a o cfg ch raw body (word ∷ []) = later_words a o cfg ch body
by_words a o cfg ch raw body (word ∷ second ∷ rest) = first_word a o cfg ch raw body word second

unfoldable pub switch_words : Asked → Outside → ChannelConfig → Channel → Text → Text → Handled
switch_words a o cfg ch raw body =
    if is_one_of body stop_assistant_words
    then some (set_assistant_enabled o cfg false ch)
    else if is_one_of body start_assistant_words
    then some (set_assistant_enabled o cfg true ch)
    else if is_one_of body enable_bot_words
    then some (set_bot_mode o cfg true ch)
    else if is_one_of body disable_bot_words
    then some (set_bot_mode o cfg false ch)
    else by_words a o cfg ch raw body (fields body)

-- What an owner's message does: its text is trimmed, and not empty.
unfoldable pub owner_command : Asked → Outside → ChannelConfig → Channel → Text → Handled
owner_command a o cfg ch raw = elim (parse_owner_natural_command raw) [
  | none ↦ switch_words a o cfg ch raw (to_lower raw)
  | some intent ↦ some (run_intent a o cfg ch intent)
]

unfoldable pub handle_owner_command :
    Asked → Outside → ChannelConfig → InboundMessage → Option Contact → Channel → Handled
handle_owner_command a o cfg msg contact ch =
    let raw = trim_space msg.body in
    if not (is_owner_sender o cfg msg contact ch)
    then none
    else if is_blank raw
    then none
    else owner_command a o cfg ch raw
