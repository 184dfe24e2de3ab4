-- ===== src/Gateway/Inbound/Changes.antt =====
-- What the steps of `handleInbound` leave as it was
-- (services/api/internal/api/handler/gateway.go).
use agent_nexus.Prelude.{
  ◌≡◌, refl, ◌∙◌, inl, inr, Bool, true, false, Option, none, some, List, [], ◌∷◌, arith, not, ◌&&◌,
  if◌then◌else◌, Bool-cases,
}
use agent_nexus.Prelude.Text.{Text, trim_space}
use agent_nexus.Gateway.Channel.{
  Contact, ChannelConfig, EventType, EscalationStatus, Channel, log_event, update_config,
  create_contact, update_contact, has_event_for, conflicts, normalized, others,
}
use agent_nexus.Gateway.Policy.{
  InboundMessage, Outside, bot_contact, after_approval, request_pairing, auto_approve_bot_sender,
}
use agent_nexus.Gateway.Commands.{
  Asked, toggle_contact, add_contact, after_toggle, after_add, after_resolve, no_match, toggled,
  find_pending, Reply, choose_match, handle_owner_contact_toggle, resolve_escalation,
}

-- The events of before are there, and no run was made, started or given input.
pub record Keeps (ch next : Channel) : Type 0 where
  pub events : (p : Text) → has_event_for p ch.events ≡ true → has_event_for p next.events ≡ true
  pub runs : next.runs ≡ ch.runs
  pub launched : next.launched ≡ ch.launched
  pub inputs : next.inputs ≡ ch.inputs

pub Keeps-refl : (ch : Channel) → Keeps ch ch
Keeps-refl ch = record { events = λ p h. h; runs = refl; launched = refl; inputs = refl }

pub Keeps-trans : {a b c : Channel} → Keeps a b → Keeps b c → Keeps a c
Keeps-trans h g = record {
  events = λ p e. g.events p (h.events p e);
  runs = g.runs ∙ h.runs;
  launched = g.launched ∙ h.launched;
  inputs = g.inputs ∙ h.inputs;
}

pub log_event-Keeps : (ok : Bool) (typ : EventType) (ch : Channel) → Keeps ch (log_event ok typ ch)
unfolding log_event
log_event-Keeps true typ ch = record {
  events = λ p h. ground arith;
  runs = refl;
  launched = refl;
  inputs = refl;
}
log_event-Keeps false typ ch = Keeps-refl ch

pub update_config-Keeps :
    (ok : Bool) (cfg : ChannelConfig) (ch : Channel) → Keeps ch (update_config ok cfg ch)
unfolding update_config
update_config-Keeps true cfg ch = record {
  events = λ p h. h;
  runs = refl;
  launched = refl;
  inputs = refl;
}
update_config-Keeps false cfg ch = Keeps-refl ch

if-Keeps : (b : Bool) (ch x y : Channel) → Keeps ch x → Keeps ch y → Keeps ch (if b then x else y)
if-Keeps true ch x y h g = h
if-Keeps false ch x y h g = g

pair-Keeps :
    (b : Bool) (ch : Channel) (x y : Channel × Reply)
    → Keeps ch x.0
    → Keeps ch y.0
    → Keeps ch (if b then x else y).0
pair-Keeps true ch x y h g = h
pair-Keeps false ch x y h g = g

-- the same of a write that may fail
abbrev KeepsIf : Channel → Option Channel → Type 0
KeepsIf ch none = Unit
KeepsIf ch (some next) = Keeps ch next

create_contact-KeepsIf :
    (ok : Bool) (c : Contact) (ch : Channel) → KeepsIf ch (create_contact ok c ch)
unfolding create_contact
create_contact-KeepsIf ok c ch =
    elim (Bool-cases (ok && not (conflicts (normalized c) ch.contacts))) [
      | inl e ↦ rw e (record { events = λ p h. h; runs = refl; launched = refl; inputs = refl })
      | inr e ↦ rw e tt
    ]

update_contact-KeepsIf :
    (ok : Bool) (c : Contact) (ch : Channel) → KeepsIf ch (update_contact ok c ch)
unfolding update_contact
update_contact-KeepsIf ok c ch =
    elim (Bool-cases (
      ok
      && not (conflicts (record (normalized c) { whatsapp_lid = [] }) (others c.id ch.contacts)))) [
        | inl e ↦ rw e (record { events = λ p h. h; runs = refl; launched = refl; inputs = refl })
        | inr e ↦ rw e tt
      ]

after_toggle-Keeps :
    (o : Outside) (enable : Bool) (c : Contact) (ch : Channel) (r : Option Channel)
    → KeepsIf ch r
    → Keeps ch (after_toggle o enable c ch r).0
after_toggle-Keeps o enable c ch none h = Keeps-refl ch
after_toggle-Keeps o enable c ch (some next) h = Keeps-trans h (log_event-Keeps _ _ _)

after_add-Keeps :
    (o : Outside) (name : Text) (ch : Channel) (r : Option Channel)
    → KeepsIf ch r
    → Keeps ch (after_add o name ch r).0
after_add-Keeps o name ch none h = Keeps-refl ch
after_add-Keeps o name ch (some next) h = Keeps-trans h (log_event-Keeps _ _ _)

after_resolve-Keeps :
    (o : Outside) (code : Text) (status : EscalationStatus) (ch : Channel) (r : Option Text)
    → Keeps ch (after_resolve o code status ch r).0
after_resolve-Keeps o code status ch none = Keeps-refl ch
after_resolve-Keeps o code status ch (some found) =
    Keeps-trans (record { events = λ p h. h; runs = refl; launched = refl; inputs = refl })
      (log_event-Keeps _ _ _)

pub auto_approve_bot_sender-Keeps :
    (o : Outside) (cfg : ChannelConfig) (msg : InboundMessage) (ch : Channel)
    → Keeps ch (auto_approve_bot_sender o cfg msg ch).0
unfolding auto_approve_bot_sender
auto_approve_bot_sender-Keeps o cfg msg ch =
    approved (create_contact o.write_ok (bot_contact o cfg msg) ch)
      (create_contact-KeepsIf o.write_ok (bot_contact o cfg msg) ch)
  where
    approved : (r : Option Channel) → KeepsIf ch r → Keeps ch (after_approval o cfg msg ch r).0
    approved none h = Keeps-refl ch
    approved (some next) h = Keeps-trans h (log_event-Keeps _ _ _)

pub request_pairing-Keeps :
    (o : Outside) (cfg : ChannelConfig) (msg : InboundMessage) (ch : Channel)
    → Keeps ch (request_pairing o cfg msg ch)
unfolding request_pairing
request_pairing-Keeps o cfg msg ch = if-Keeps _ ch _ _ (Keeps-refl ch) (
    if-Keeps o.write_ok ch _ _
      (Keeps-trans (record { events = λ p h. h; runs = refl; launched = refl; inputs = refl })
        (log_event-Keeps o.log_ok EventType.pairing_requested _))
      (Keeps-refl ch))

no_match-Keeps :
    (o : Outside) (cfg : ChannelConfig) (target : Text) (enable : Bool) (ch : Channel)
    → Keeps ch (no_match o cfg target enable ch).0
unfolding add_contact
no_match-Keeps o cfg target enable ch =
    pair-Keeps enable ch _ _
      (pair-Keeps _ ch _ _ (Keeps-refl ch)
        (after_add-Keeps o _ ch _ (create_contact-KeepsIf o.write_ok _ ch)))
      (Keeps-refl ch)

choose_match-Keeps :
    (r : Option (List Contact)) (o : Outside) (cfg : ChannelConfig) (target : Text) (enable : Bool)
    (ch : Channel)
    → Keeps ch (choose_match r o cfg target enable ch).0
unfolding toggle_contact
choose_match-Keeps none o cfg target enable ch = no_match-Keeps o cfg target enable ch
choose_match-Keeps (some []) o cfg target enable ch = no_match-Keeps o cfg target enable ch
choose_match-Keeps (some (c ∷ [])) o cfg target enable ch =
    after_toggle-Keeps o enable c ch _ (update_contact-KeepsIf o.write_ok (toggled enable c) ch)
choose_match-Keeps (some (c ∷ d ∷ cs)) o cfg target enable ch = Keeps-refl ch

pub toggle-Keeps :
    (a : Asked) (o : Outside) (cfg : ChannelConfig) (target : Text) (enable : Bool) (ch : Channel)
    → Keeps ch (handle_owner_contact_toggle a o cfg target enable ch).0
unfolding handle_owner_contact_toggle
toggle-Keeps a o cfg target enable ch =
    pair-Keeps _ ch _ _ (Keeps-refl ch)
      (choose_match-Keeps a.matches o cfg (trim_space target) enable ch)

pub resolve_escalation-Keeps :
    (o : Outside) (cfg : ChannelConfig) (code : Text) (status : EscalationStatus) (ch : Channel)
    → Keeps ch (resolve_escalation o cfg code status ch).0
unfolding resolve_escalation
resolve_escalation-Keeps o cfg code status ch = elim (Bool-cases cfg.chat_approvals_enabled) [
  | inl e ↦ rw e (
      after_resolve-Keeps o code status ch
        (if o.write_ok then find_pending code ch.escalations else none))
  | inr e ↦ rw e (Keeps-refl ch)
]
