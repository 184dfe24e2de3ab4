-- ===== src/Gateway/Runs.antt =====
-- `dispatchGatewayRun`: from a message to a run, or to a run that waits for the user's input
-- (services/api/internal/api/handler/gateway.go; `UpsertSession` in
-- services/api/internal/repository/gateway.go).
pub mod Recorded
pub mod Dialogue
use agent_nexus.Prelude.{
  ℕ, ◌+◌, Bool, true, false, not, ◌&&◌, Option, none, some, List, [], ◌∷◌, ◌++◌, ◌==◌,
  if◌then◌else◌,
}
use agent_nexus.Prelude.Text.{Text, text_eq, codes, is_blank, join}
use agent_nexus.Run.{RunStatus}
use agent_nexus.Gateway.Channel.{
  Contact, ChannelConfig, EventType, Session, RunRow, Channel, log_event,
}
use agent_nexus.Gateway.Policy.{InboundMessage, Outside}

abbrev pub account_of : ChannelConfig → InboundMessage → Text
account_of cfg msg = if is_blank msg.account_id then cfg.account_id else msg.account_id

abbrev pub agent_of : Channel → Option Contact → Text
agent_of ch none = ch.agent_id
agent_of ch (some c) = if is_blank c.agent_id then ch.agent_id else c.agent_id

-- the stored JID of the contact stands for every form of the peer of a direct chat
abbrev pub session_peer : InboundMessage → Option Contact → Text
session_peer msg none = msg.peer_id
session_peer msg (some c) =
    if text_eq msg.peer_kind (codes "direct") && not (is_blank c.whatsapp_jid)
    then c.whatsapp_jid
    else msg.peer_id

unfoldable pub session_key : ChannelConfig → Channel → InboundMessage → Text
session_key cfg ch msg =
    join
      (codes "agent"
        ∷ agent_of ch msg.contact
        ∷ ch.channel_type
        ∷ account_of cfg msg
        ∷ msg.peer_kind
        ∷ session_peer msg msg.contact
        ∷ [])
      (codes ":")

abbrev pub is_user_input_wait : RunStatus → Bool
is_user_input_wait RunStatus.user_input_wait = true
is_user_input_wait _ = false

-- the join on the sessions with the key
abbrev pub is_session_of : Text → ℕ → List Session → Bool
is_session_of key id [] = false
is_session_of key id (s ∷ ss) =
    if s.id == id && text_eq s.session_key key then true else is_session_of key id ss

-- the newest run of the session that waits for input
abbrev pub find_waiting : Text → List Session → List RunRow → Option ℕ
find_waiting key ss [] = none
find_waiting key ss (r ∷ rs) =
    if is_user_input_wait r.status && is_session_of key r.channel_session_id ss
    then some r.id
    else find_waiting key ss rs

abbrev pub find_conversation : Text → List Session → Option ℕ
find_conversation key [] = none
find_conversation key (s ∷ ss) =
    if text_eq s.session_key key then some s.conversation_id else find_conversation key ss

-- `ensureGatewayConversation`; a new conversation is a new id
unfoldable pub ensure_gateway_conversation : Outside → Text → Channel → Option ℕ
ensure_gateway_conversation o key ch =
    elim (if o.sessions_ok then find_conversation key ch.sessions else none) [
      | some conversation ↦ some conversation
      | none ↦ if o.conversation_ok then some o.new_id else none
    ]

abbrev pub find_session : Text → Text → List Session → Option Session
find_session account key [] = none
find_session account key (s ∷ ss) =
    if text_eq s.account_id account && text_eq s.session_key key
    then some s
    else find_session account key ss

abbrev pub fresh_session : ℕ → Text → Text → ℕ → Session
fresh_session new_id account key conversation = record {
  id = new_id;
  account_id = account;
  session_key = key;
  conversation_id = conversation;
}

-- `UpsertSession`: a session that exists keeps its conversation
abbrev pub add_if_new : Session → Channel → Option Session → Channel × Session
add_if_new fresh ch (some s) = (ch, s)
add_if_new fresh ch none = (record ch { sessions = fresh ∷ ch.sessions }, fresh)

unfoldable pub upsert_session : ℕ → Text → Text → ℕ → Channel → Channel × Session
upsert_session new_id account key conversation ch =
    add_if_new (fresh_session new_id account key conversation) ch
      (find_session account key ch.sessions)

pub data Dispatched : Type 0 where
  delivered failed : Dispatched
  started : RunRow → Dispatched

abbrev pub pending_run : Outside → Text → Session → Text → RunRow
pending_run o agent s body = record {
  id = o.new_id;
  agent_id = agent;
  conversation_id = s.conversation_id;
  channel_session_id = s.id;
  input = body;
  status = RunStatus.pending;
}

abbrev pub add_message : ℕ → Text → Channel → Channel
add_message conversation body ch = record ch { messages = (conversation, body) ∷ ch.messages }

abbrev pub add_run : RunRow → Channel → Channel
add_run r ch = record ch { runs = r ∷ ch.runs }

-- the writes that follow the session: the message, the run, and the goroutine that executes it
unfoldable pub start_run : Outside → Text → Text → Session → Channel → Channel × Dispatched
start_run o agent body s ch =
    let with_message = add_message s.conversation_id body ch in
    let run = pending_run o agent s body in
    let with_run = log_event o.log_ok EventType.run_started (add_run run with_message) in
    if not o.message_ok
    then (ch, Dispatched.failed)
    else if not o.run_ok
    then (with_message, Dispatched.failed)
    else if not o.agent_found
    then (with_run, Dispatched.failed)
    else (record with_run { launched = run.id ∷ with_run.launched }, Dispatched.started run)

abbrev pub in_session : Outside → Text → Text → Channel → Channel × Session → Channel × Dispatched
in_session o agent body ch (next, s) =
    if o.session_ok then start_run o agent body s next else (ch, Dispatched.failed)

abbrev pub in_conversation :
    Outside → ChannelConfig → InboundMessage → Channel → Option ℕ → Channel × Dispatched
in_conversation o cfg msg ch none = (ch, Dispatched.failed)
in_conversation o cfg msg ch (some conversation) =
    in_session o (agent_of ch msg.contact) msg.body ch
      (upsert_session o.new_id (account_of cfg msg) (session_key cfg ch msg) conversation ch)

unfoldable pub new_run : Outside → ChannelConfig → InboundMessage → Channel → Channel × Dispatched
new_run o cfg msg ch =
    in_conversation o cfg msg ch (ensure_gateway_conversation o (session_key cfg ch msg) ch)

-- `SendUserInput` takes the body when the goroutine of the run still waits for it.
abbrev pub deliver_or_start :
    Outside → ChannelConfig → InboundMessage → Channel → Option ℕ → Channel × Dispatched
deliver_or_start o cfg msg ch none = new_run o cfg msg ch
deliver_or_start o cfg msg ch (some run) =
    if o.takes_input
    then (record ch { inputs = (run, msg.body) ∷ ch.inputs }, Dispatched.delivered)
    else new_run o cfg msg ch

unfoldable pub dispatch_gateway_run :
    Outside → ChannelConfig → InboundMessage → Channel → Channel × Dispatched
dispatch_gateway_run o cfg msg ch =
    deliver_or_start o cfg msg ch
      (if o.waiting_ok then find_waiting (session_key cfg ch msg) ch.sessions ch.runs else none)
