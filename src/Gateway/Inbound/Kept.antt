-- ===== src/Gateway/Inbound/Kept.antt =====
-- What the owner's commands leave as it was (services/api/internal/api/handler/gateway.go,
-- `handleOwnerCommand`).
use agent_nexus.Prelude.{Bool, true, false, Option, none, some, List, [], ◌∷◌, if◌then◌else◌}
use agent_nexus.Prelude.Text.{Text, to_lower, trim_space}
use agent_nexus.Gateway.Channel.{
  Contact, ChannelConfig, EventType, Channel, log_event, update_config,
}
use agent_nexus.Gateway.Policy.{InboundMessage, Outside}
use agent_nexus.Gateway.Owner.{Intent}
use agent_nexus.Gateway.Owner.Intents.{parse_owner_natural_command}
use agent_nexus.Gateway.Switch.{
  Handled, run_intent, later_words, first_word, by_words, switch_words, owner_command,
  handle_owner_command,
}
use agent_nexus.Gateway.Commands.{
  Asked, set_assistant_enabled, set_bot_mode, set_chat_approvals, Reply,
}
use agent_nexus.Gateway.Inbound.Changes.{
  Keeps, Keeps-refl, Keeps-trans, log_event-Keeps, update_config-Keeps, toggle-Keeps,
  resolve_escalation-Keeps,
}

-- A command that is handled keeps what a message in general keeps.
pub data KeepsHandled (ch : Channel) : Handled → Type 0 where
  unhandled : KeepsHandled ch none
  handled : {p : Channel × Reply} → Keeps ch p.0 → KeepsHandled ch (some p)

if-KeepsHandled :
    (b : Bool) (ch : Channel) (x y : Handled)
    → KeepsHandled ch x
    → KeepsHandled ch y
    → KeepsHandled ch (if b then x else y)
if-KeepsHandled true ch x y h g = h
if-KeepsHandled false ch x y h g = g

setting-Keeps :
    (o : Outside) (typ : EventType) (cfg : ChannelConfig) (ch : Channel)
    → Keeps ch (log_event o.log_ok typ (update_config o.write_ok cfg ch))
setting-Keeps o typ cfg ch = Keeps-trans (update_config-Keeps _ _ _) (log_event-Keeps _ _ _)

set_assistant_enabled-Keeps :
    (o : Outside) (cfg : ChannelConfig) (b : Bool) (ch : Channel)
    → Keeps ch (set_assistant_enabled o cfg b ch).0
unfolding set_assistant_enabled
set_assistant_enabled-Keeps o cfg b ch = setting-Keeps o _ _ ch

set_bot_mode-Keeps :
    (o : Outside) (cfg : ChannelConfig) (b : Bool) (ch : Channel)
    → Keeps ch (set_bot_mode o cfg b ch).0
unfolding set_bot_mode
set_bot_mode-Keeps o cfg b ch = setting-Keeps o _ _ ch

set_chat_approvals-Keeps :
    (o : Outside) (cfg : ChannelConfig) (b : Bool) (ch : Channel)
    → Keeps ch (set_chat_approvals o cfg b ch).0
unfolding set_chat_approvals
set_chat_approvals-Keeps o cfg b ch = setting-Keeps o _ _ ch

ruleset kept = (
  if-KeepsHandled, KeepsHandled.handled, KeepsHandled.unhandled, Keeps-refl,
  set_assistant_enabled-Keeps, set_bot_mode-Keeps, set_chat_approvals-Keeps, toggle-Keeps,
  resolve_escalation-Keeps,
)

module _ (a : Asked) (o : Outside) (cfg : ChannelConfig) (ch : Channel) where
  run_intent-Keeps : (i : Intent) → Keeps ch (run_intent a o cfg ch i).0
  run_intent-Keeps Intent.enable_bot_mode = search kept
  run_intent-Keeps Intent.disable_bot_mode = search kept
  run_intent-Keeps Intent.start_assistant = search kept
  run_intent-Keeps Intent.stop_assistant = search kept
  run_intent-Keeps (Intent.start_contact target) = toggle-Keeps a o cfg target true ch
  run_intent-Keeps (Intent.stop_contact target) = toggle-Keeps a o cfg target false ch

  later_words-KeepsHandled : (body : Text) → KeepsHandled ch (later_words a o cfg ch body)
  unfolding later_words
  later_words-KeepsHandled body = search kept depth 9

  first_word-KeepsHandled :
      (raw body word second : Text) → KeepsHandled ch (first_word a o cfg ch raw body word second)
  unfolding first_word
  first_word-KeepsHandled raw body word second = search (kept, later_words-KeepsHandled) depth 9

  by_words-KeepsHandled :
      (raw body : Text) (parts : List Text) → KeepsHandled ch (by_words a o cfg ch raw body parts)
  by_words-KeepsHandled raw body [] = unhandled
  by_words-KeepsHandled raw body (word ∷ []) = later_words-KeepsHandled body
  by_words-KeepsHandled raw body (word ∷ second ∷ rest) =
      first_word-KeepsHandled raw body word second

  switch_words-KeepsHandled : (raw body : Text) → KeepsHandled ch (switch_words a o cfg ch raw body)
  unfolding switch_words
  switch_words-KeepsHandled raw body = search (kept, by_words-KeepsHandled) depth 9

  pub handle_owner_command-KeepsHandled :
      (msg : InboundMessage) (contact : Option Contact)
      → KeepsHandled ch (handle_owner_command a o cfg msg contact ch)
  unfolding handle_owner_command owner_command
  handle_owner_command-KeepsHandled msg contact = if-KeepsHandled _ ch _ _ unhandled (
      if-KeepsHandled _ ch _ _ unhandled
        (intended (parse_owner_natural_command (trim_space msg.body))))
    where
      intended :
          (i : Option Intent)
          → KeepsHandled ch (elim i [
            | none ↦ switch_words a o cfg ch (trim_space msg.body) (to_lower (trim_space msg.body))
            | some intent ↦ some (run_intent a o cfg ch intent)
          ])
      intended none =
          switch_words-KeepsHandled (trim_space msg.body) (to_lower (trim_space msg.body))
      intended (some intent) = handled (run_intent-Keeps intent)
