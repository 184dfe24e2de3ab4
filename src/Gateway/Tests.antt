-- ===== src/Gateway/Tests.antt =====
-- Messages, commands and numbers of the gateway (services/api/internal/api/handler/gateway.go).
use agent_nexus.Prelude.{
  ℕ, ◌≤◌, ◌≡◌, refl, true, false, Option, none, some, List, [], ◌∷◌, count, String,
}
use agent_nexus.Prelude.Text.{Text, codes, is_space, lower_char, to_lower, trim_left, trim_space}
use agent_nexus.Prelude.Strings.{trim_prefix}
use agent_nexus.Run.{RunStatus}
use agent_nexus.Gateway.Phone.{
  normalize_gateway_phone, jid_from_phone, alias_from_name, looks_like_gateway_phone,
}
use agent_nexus.Gateway.Phone.Forms.{normalize-jid_from_phone}
use agent_nexus.Gateway.Channel.{Role, Contact, Policy, ChannelConfig, Channel, RunRow, log_event}
use agent_nexus.Gateway.Policy.{Source, InboundMessage, Outside}
use agent_nexus.Gateway.Owner.{Intent, find_phone, extract_name_phone, normalize_reply_phrase}
use agent_nexus.Gateway.Owner.Intents.{
  strip_verbs, clean_owner_command_target, intent_of, parse_owner_natural_command,
}
use agent_nexus.Gateway.Commands.{Asked}
use agent_nexus.Gateway.Runs.{
  Dispatched, dispatch_gateway_run, new_run, start_run, upsert_session, ensure_gateway_conversation,
  session_key,
}
use agent_nexus.Gateway.Runs.Dialogue.{dispatch_gateway_run-dialogue}
use agent_nexus.Gateway.Inbound.Once.{Arrival, receive_all, is_answered_of, receive_all-once}

abbrev spaced : Text
spaced = codes " +49 (30) 123-456 "

normalize-jid_from_phone_example :
    (normalize_gateway_phone (jid_from_phone spaced)
      ≡ trim_prefix (normalize_gateway_phone spaced) (codes "+"))
    × (jid_from_phone (jid_from_phone spaced) ≡ jid_from_phone spaced)
normalize-jid_from_phone_example = normalize-jid_from_phone spaced

normalize_spaced : normalize_gateway_phone spaced ≡ codes "+4930123456"
unfolding normalize_gateway_phone trim_space trim_left is_space
normalize_spaced = refl

jid_spaced : jid_from_phone spaced ≡ codes "4930123456@s.whatsapp.net"
unfolding jid_from_phone normalize_gateway_phone trim_space trim_left is_space
jid_spaced = refl

alias_of_name : alias_from_name (codes " Dr. Ada  Lovelace! ") ≡ codes "dr-ada-lovelace"
unfolding alias_from_name trim_space trim_left is_space to_lower lower_char
alias_of_name = refl

clean_target :
    clean_owner_command_target (codes "Please enable auto reply to Rajat.") true ≡ codes "Rajat"
unfolding clean_owner_command_target strip_verbs trim_space trim_left is_space to_lower lower_char
clean_target = refl

parse_disable :
    parse_owner_natural_command (codes "Disable auto-reply to Rajat")
    ≡ some (Intent.stop_contact (codes "Rajat"))
unfolding parse_owner_natural_command intent_of normalize_reply_phrase clean_owner_command_target
    strip_verbs trim_space trim_left is_space to_lower lower_char
parse_disable = refl

extract_number :
    extract_name_phone (codes "Rajat, +91 98765-43210") ≡ (codes "Rajat", codes "+919876543210")
unfolding extract_name_phone find_phone looks_like_gateway_phone normalize_gateway_phone trim_space
    trim_left is_space
extract_number = refl

abbrev quiet : Asked
quiet = record { matches = none; synced = none; approvals_ok = true }

abbrev outside : ℕ → Outside
outside id = record {
  now = 0;
  match_ok = true;
  claim_ok = true;
  log_ok = true;
  echo_ok = true;
  owners_ok = true;
  write_ok = true;
  new_id = id;
  waiting_ok = true;
  takes_input = false;
  sessions_ok = true;
  conversation_ok = true;
  session_ok = true;
  message_ok = true;
  run_ok = true;
  agent_found = true;
}

abbrev ada : Contact
ada = record {
  id = 1;
  account_id = codes "default";
  display_name = codes "Ada";
  alias = codes "ada";
  phone_number = codes "4930123456";
  whatsapp_jid = codes "4930123456@s.whatsapp.net";
  whatsapp_lid = codes "77@lid";
  role = Role.trusted;
  agent_id = [];
  auto_reply_enabled = true;
}

abbrev config : ChannelConfig
config = record {
  account_id = codes "default";
  dm_policy = Policy.pairing;
  allow_from = [];
  group_policy = Policy.closed;
  group_allow_from = [];
  self_chat_enabled = false;
  assistant_enabled = true;
  bot_mode_enabled = false;
  chat_approvals_enabled = false;
}

abbrev channel : Channel
channel = record {
  agent_id = codes "a";
  channel_type = codes "whatsapp";
  config = config;
  contacts = ada ∷ [];
  events = [];
  pairings = [];
  outbound = [];
  sessions = [];
  messages = [];
  runs = [];
  escalations = [];
  launched = [];
  inputs = [];
}

abbrev message_of : String → String → Option Contact → InboundMessage
message_of id peer contact = record {
  account_id = [];
  provider_message_id = codes id;
  peer_kind = codes "direct";
  peer_id = codes peer;
  sender_id = codes peer;
  sender_phone = [];
  sender_name = [];
  from_me = false;
  body = codes "hello";
  source = Source.whatsapp;
  contact = contact;
}

abbrev arrivals : List Arrival
arrivals =
    record { asked = quiet; outside = outside 1; message = message_of "m1" "77@lid" none }
    ∷ record { asked = quiet; outside = outside 2; message = message_of "m2" "77@lid" none }
    ∷ record { asked = quiet; outside = outside 3; message = message_of "m1" "77@lid" none }
    ∷ []

receive_all-once_example : count (is_answered_of (codes "m1")) (receive_all arrivals channel) ≤ 1
receive_all-once_example = receive_all-once arrivals channel (codes "m1") refl

-- Ada writes under her LID first and under her number then.
abbrev under_lid : InboundMessage
under_lid = message_of "m1" "77@lid" (some ada)

abbrev under_number : InboundMessage
under_number = message_of "m2" "4930123456@s.whatsapp.net" (some ada)

abbrev run_of : ℕ → RunRow
run_of id = record {
  id = id;
  agent_id = codes "a";
  conversation_id = 1;
  channel_session_id = 1;
  input = codes "hello";
  status = RunStatus.pending;
}

after_first : Channel
after_first = (dispatch_gateway_run (outside 1) config under_lid channel).0

first_started :
    (dispatch_gateway_run (outside 1) config under_lid channel).1 ≡ Dispatched.started (run_of 1)
unfolding dispatch_gateway_run new_run start_run upsert_session ensure_gateway_conversation
    session_key
first_started = refl

second_started :
    (dispatch_gateway_run (outside 2) config under_number after_first).1
    ≡ Dispatched.started (run_of 2)
unfolding after_first dispatch_gateway_run new_run start_run upsert_session
    ensure_gateway_conversation session_key log_event
second_started = refl

dispatch_gateway_run-dialogue_example :
    ((run_of 2).conversation_id ≡ (run_of 1).conversation_id)
    × ((run_of 2).channel_session_id ≡ (run_of 1).channel_session_id)
unfolding after_first dispatch_gateway_run new_run start_run upsert_session
    ensure_gateway_conversation session_key log_event
dispatch_gateway_run-dialogue_example =
    dispatch_gateway_run-dialogue config ada refl (outside 1) (outside 2) under_lid under_number
      channel after_first (run_of 1) (run_of 2) (record { direct = refl; of_contact = refl })
      (record { direct = refl; of_contact = refl }) refl
      (record { sessions = refl; agent = refl; channel_type = refl }) first_started second_started
