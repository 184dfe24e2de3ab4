-- ===== src/Gateway/Runs/Recorded.antt =====
-- The session of a started run (services/api/internal/api/handler/gateway.go, dispatchGatewayRun).
use agent_nexus.Prelude.{
  ℕ, ◌≡◌, refl, sym, inl, inr, Option, none, some, List, ◌∷◌, arith, Bool-cases,
}
use agent_nexus.Prelude.Text.{Text}
use agent_nexus.Prelude.Text.Laws.{text_eq_refl}
use agent_nexus.Gateway.Channel.{ChannelConfig, Session, Channel, log_event}
use agent_nexus.Gateway.Policy.{InboundMessage, Outside}
use agent_nexus.Gateway.Runs.{
  account_of, agent_of, session_key, ensure_gateway_conversation, find_session, fresh_session,
  add_if_new, upsert_session, Dispatched, start_run, in_session, in_conversation, new_run,
  deliver_or_start,
}

-- A started run is of a session of the channel with this account and key.
abbrev pub Recorded : Text → Text → List Session → Dispatched → Type 0
Recorded account key ss (Dispatched.started r) =
    (s : Session) × (find_session account key ss ≡ some s)
    × (s.conversation_id ≡ r.conversation_id)
    × (s.id ≡ r.channel_session_id)
Recorded account key ss _ = Unit

-- A started run is of the given session.
abbrev pub IsOf : Session → Dispatched → Type 0
IsOf s (Dispatched.started r) =
    (r.conversation_id ≡ s.conversation_id) × (r.channel_session_id ≡ s.id)
IsOf s _ = Unit

find_session-fresh :
    (id : ℕ) (account key : Text) (conversation : ℕ) (ss : List Session)
    → find_session account key (fresh_session id account key conversation ∷ ss)
      ≡ some (fresh_session id account key conversation)
find_session-fresh id account key conversation ss = rw (text_eq_refl account, text_eq_refl key) refl

find_session-add :
    (id : ℕ) (account key : Text) (conversation : ℕ) (ch : Channel) (r : Option Session)
    → find_session account key ch.sessions ≡ r
    → find_session account key
        (add_if_new (fresh_session id account key conversation) ch r).0.sessions
      ≡ some (add_if_new (fresh_session id account key conversation) ch r).1
find_session-add id account key conversation ch none e =
    find_session-fresh id account key conversation ch.sessions
find_session-add id account key conversation ch (some s) e = e

start_run-IsOf :
    (o : Outside) (agent body : Text) (s : Session) (ch : Channel)
    → IsOf s (start_run o agent body s ch).1
unfolding start_run
start_run-IsOf o agent body s ch = ground arith

start_run-sessions :
    (o : Outside) (agent body : Text) (s : Session) (ch : Channel)
    → (start_run o agent body s ch).0.sessions ≡ ch.sessions
unfolding start_run log_event
start_run-sessions o agent body s ch = ground arith

Recorded-IsOf :
    (account key : Text) (ss : List Session) (s : Session) (d : Dispatched)
    → find_session account key ss ≡ some s
    → IsOf s d
    → Recorded account key ss d
Recorded-IsOf account key ss s Dispatched.delivered e h = tt
Recorded-IsOf account key ss s Dispatched.failed e h = tt
Recorded-IsOf account key ss s (Dispatched.started r) e h = (s, e, sym h.0, sym h.1)

in_session-Recorded :
    (o : Outside) (account key agent body : Text) (ch : Channel) (r : Channel × Session)
    → find_session account key r.0.sessions ≡ some r.1
    → Recorded account key
        (in_session o agent body ch r).0.sessions
        (in_session o agent body ch r).1
in_session-Recorded o account key agent body ch (next, s) e = elim (Bool-cases o.session_ok) [
  | inl f ↦ simp f (started)
  | inr f ↦ simp f tt
]
  where
    started :
        Recorded account key
          (start_run o agent body s next).0.sessions
          (start_run o agent body s next).1
    started =
        rw (start_run-sessions o agent body s next)
          (Recorded-IsOf account key next.sessions s _ e (start_run-IsOf o agent body s next))

new_run-Recorded :
    (o : Outside) (cfg : ChannelConfig) (msg : InboundMessage) (ch : Channel)
    → Recorded
        (account_of cfg msg)
        (session_key cfg ch msg)
        (new_run o cfg msg ch).0.sessions
        (new_run o cfg msg ch).1
unfolding new_run upsert_session
new_run-Recorded o cfg msg ch =
    conversed (ensure_gateway_conversation o (session_key cfg ch msg) ch)
  where
    conversed :
        (c : Option ℕ)
        → Recorded
            (account_of cfg msg)
            (session_key cfg ch msg)
            (in_conversation o cfg msg ch c).0.sessions
            (in_conversation o cfg msg ch c).1
    conversed none = tt
    conversed (some c) =
        in_session-Recorded o (account_of cfg msg) (session_key cfg ch msg)
          (agent_of ch msg.contact) msg.body ch _
          (find_session-add o.new_id (account_of cfg msg) (session_key cfg ch msg) c ch
            (find_session (account_of cfg msg) (session_key cfg ch msg) ch.sessions) refl)

-- a session that is there is the one that a new run gets
new_run-IsOf :
    (o : Outside) (cfg : ChannelConfig) (msg : InboundMessage) (ch : Channel) (s : Session)
    → find_session (account_of cfg msg) (session_key cfg ch msg) ch.sessions ≡ some s
    → IsOf s (new_run o cfg msg ch).1
unfolding new_run upsert_session
new_run-IsOf o cfg msg ch s e =
    conversed (ensure_gateway_conversation o (session_key cfg ch msg) ch)
  where
    conversed : (c : Option ℕ) → IsOf s (in_conversation o cfg msg ch c).1
    conversed none = tt
    conversed (some c) = elim (Bool-cases o.session_ok) [
      | inl f ↦ simp (e, f) (start_run-IsOf o (agent_of ch msg.contact) msg.body s ch)
      | inr f ↦ simp (e, f) tt
    ]

pub deliver_or_start-Recorded :
    (o : Outside) (cfg : ChannelConfig) (msg : InboundMessage) (ch : Channel) (r : Option ℕ)
    → Recorded
        (account_of cfg msg)
        (session_key cfg ch msg)
        (deliver_or_start o cfg msg ch r).0.sessions
        (deliver_or_start o cfg msg ch r).1
deliver_or_start-Recorded o cfg msg ch none = new_run-Recorded o cfg msg ch
deliver_or_start-Recorded o cfg msg ch (some run) = elim (Bool-cases o.takes_input) [
  | inl f ↦ simp f tt
  | inr f ↦ simp f (new_run-Recorded o cfg msg ch)
]

pub deliver_or_start-IsOf :
    (o : Outside) (cfg : ChannelConfig) (msg : InboundMessage) (ch : Channel) (s : Session)
    (r : Option ℕ)
    → find_session (account_of cfg msg) (session_key cfg ch msg) ch.sessions ≡ some s
    → IsOf s (deliver_or_start o cfg msg ch r).1
deliver_or_start-IsOf o cfg msg ch s none e = new_run-IsOf o cfg msg ch s e
deliver_or_start-IsOf o cfg msg ch s (some run) e = elim (Bool-cases o.takes_input) [
  | inl f ↦ simp f tt
  | inr f ↦ simp f (new_run-IsOf o cfg msg ch s e)
]
