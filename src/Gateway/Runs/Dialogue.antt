-- ===== src/Gateway/Runs/Dialogue.antt =====
-- The conversation of a direct chat (services/api/internal/api/handler/gateway.go, `dispatchGatewayRun`).
use agent_nexus.Prelude.{◌≡◌, refl, sym, ap, subst, ◌∙◌, true, false, some, List, [], ◌∷◌}
use agent_nexus.Prelude.Text.{Text, text_eq, codes, is_blank, join}
use agent_nexus.Prelude.Text.Laws.{text_eq_sound}
use agent_nexus.Gateway.Channel.{Contact, ChannelConfig, Session, RunRow, Channel}
use agent_nexus.Gateway.Policy.{InboundMessage, Outside}
use agent_nexus.Gateway.Runs.{
  account_of, agent_of, session_key, find_session, Dispatched, dispatch_gateway_run,
}
use agent_nexus.Gateway.Runs.Recorded.{
  Recorded, IsOf, deliver_or_start-Recorded, deliver_or_start-IsOf,
}

-- A direct message of a contact with a JID.
pub record IsDirect (c : Contact) (msg : InboundMessage) : Type 0 where
  pub direct : text_eq msg.peer_kind (codes "direct") ≡ true
  pub of_contact : msg.contact ≡ some c

contact_key : ChannelConfig → Channel → Contact → Text → Text
contact_key cfg ch c account =
    join
      (codes "agent"
        ∷ agent_of ch (some c)
        ∷ ch.channel_type
        ∷ account
        ∷ codes "direct"
        ∷ c.whatsapp_jid
        ∷ [])
      (codes ":")

session_key-IsDirect :
    (cfg : ChannelConfig) (ch : Channel) (msg : InboundMessage) (c : Contact)
    → IsDirect c msg
    → is_blank c.whatsapp_jid ≡ false
    → session_key cfg ch msg ≡ contact_key cfg ch c (account_of cfg msg)
unfolding session_key contact_key
session_key-IsDirect cfg ch msg c d full =
    rw (d.of_contact, d.direct, full, text_eq_sound msg.peer_kind (codes "direct") d.direct) refl

-- `later` is the channel when a second message comes: its sessions are those that the first left, and
-- its agent and its type are those of before.
pub record Follows (before after later : Channel) : Type 0 where
  pub sessions : later.sessions ≡ after.sessions
  pub agent : later.agent_id ≡ before.agent_id
  pub channel_type : later.channel_type ≡ before.channel_type

contact_key-Follows :
    (cfg : ChannelConfig) (before after later : Channel) (c : Contact) (account : Text)
    → Follows before after later
    → contact_key cfg later c account ≡ contact_key cfg before c account
unfolding contact_key
contact_key-Follows cfg before after later c account f = rw (f.agent, f.channel_type) refl

same_session :
    (account key : Text) (ss : List Session) (r : RunRow) (d : Dispatched)
    → Recorded account key ss (Dispatched.started r)
    → ((s : Session) → find_session account key ss ≡ some s → IsOf s d)
    → (q : RunRow) → d ≡ Dispatched.started q
    → (q.conversation_id ≡ r.conversation_id) × (q.channel_session_id ≡ r.channel_session_id)
same_session account key ss r d h g q e =
    let (s, found, conversation, session) = h in
    let of = subst (IsOf s) e (g s found) in (of.0 ∙ conversation, of.1 ∙ session)

module _ (cfg : ChannelConfig) (c : Contact) (full : is_blank c.whatsapp_jid ≡ false) where
  -- Two direct messages of one contact that has a JID get runs of one session and one conversation,
  -- under whichever of the contact's addresses they come: when both are for one account, the channel
  -- has kept its sessions, its agent and its type between them, and each was given a new run.
  pub dispatch_gateway_run-dialogue :
      (o p : Outside) (first second : InboundMessage) (ch later : Channel) (r q : RunRow)
      → IsDirect c first
      → IsDirect c second
      → account_of cfg second ≡ account_of cfg first
      → Follows ch (dispatch_gateway_run o cfg first ch).0 later
      → (dispatch_gateway_run o cfg first ch).1 ≡ Dispatched.started r
      → (dispatch_gateway_run p cfg second later).1 ≡ Dispatched.started q
      → (q.conversation_id ≡ r.conversation_id) × (q.channel_session_id ≡ r.channel_session_id)
  unfolding dispatch_gateway_run
  dispatch_gateway_run-dialogue o p first second ch later r q d e same f started again =
      same_session (account_of cfg first) (session_key cfg ch first) later.sessions r
        (dispatch_gateway_run p cfg second later).1
        (subst
          (λ ss.
            Recorded (account_of cfg first) (session_key cfg ch first) ss (Dispatched.started r))
          (sym f.sessions)
          (subst (Recorded (account_of cfg first) (session_key cfg ch first) _) started
            (deliver_or_start-Recorded o cfg first ch _)))
        (λ s found. deliver_or_start-IsOf p cfg second later s _ (rw (same, keys) found)) q again
    where
      keys : session_key cfg later second ≡ session_key cfg ch first
      keys =
          session_key-IsDirect cfg later second c e full
          ∙ ap (contact_key cfg later c) same
          ∙ contact_key-Follows cfg ch _ later c (account_of cfg first) f
          ∙ sym (session_key-IsDirect cfg ch first c d full)
