-- ===== src/Waits/Exclusive.antt =====
-- Who may put a value into the channel of a wait
-- (services/api/internal/api/handler/approval.go, session_wait.go).
use agent_nexus.Prelude.{
  ℕ, ◌+◌, ◌≤◌, ◌≡◌, refl, true, List, [], ◌∷◌, some, get_elem?, set, All, bit, count, count-none,
  count-set, is_some, Option-cases, inl, inr, arith,
}
use agent_nexus.Run.{Run}
use agent_nexus.Waits.Slot.{load_and_delete, send, register, receive}
use agent_nexus.Waits.Requests.{Payload, Request, Waiter, Setting, Outside, World}
use agent_nexus.Waits.Goroutine.{waiter_step}
use agent_nexus.Waits.Handlers.{request_step}
use agent_nexus.Waits.World.{Action, handle, act, run_world, start_world}
use agent_nexus.Waits.Counting.{
  is_new, is_delivering, is_delivered, has_payload, before_register, is_reclaimed, is_new-quiet,
  is_new-untold,
}

-- who may put a value into the channel, or has: the entry, a sender, the buffer, the goroutine
abbrev pub channel_holders : World → ℕ
channel_holders w =
    bit w.slot.registered
    + count is_delivering w.requests
    + bit (is_some w.slot.buffer)
    + bit (has_payload w.waiter)

pub record IsExclusive (s : Setting) (w : World) : Type 0 where
  pub one : channel_holders w ≤ 1
  pub unopened : before_register s.kind w.waiter ≡ true → channel_holders w ≡ 0
  pub closed : is_reclaimed w.waiter ≡ true → channel_holders w ≡ 0
  pub told :
      count is_delivered w.requests ≡ bit (is_some w.slot.buffer) + bit (has_payload w.waiter)

waiter_step-IsExclusive :
    (s : Setting) (o : Outside) (w : World) (ph : Waiter)
    → w.waiter ≡ ph
    → IsExclusive s w
    → IsExclusive s (waiter_step s o w ph)
unfolding waiter_step register load_and_delete receive
waiter_step-IsExclusive s o w Waiter.registering e h = ground arith
waiter_step-IsExclusive s o w Waiter.saving e h = ground arith
waiter_step-IsExclusive s o w Waiter.marking e h = ground arith
waiter_step-IsExclusive s o w Waiter.waiting e h = ground arith
waiter_step-IsExclusive s o w Waiter.expired e h = ground arith
waiter_step-IsExclusive s o w Waiter.grace e h = ground arith
waiter_step-IsExclusive s o w Waiter.reclaiming e h = ground arith
waiter_step-IsExclusive s o w (Waiter.received p) e h = ground arith
waiter_step-IsExclusive s o w (Waiter.clearing p) e h = ground arith
waiter_step-IsExclusive s o w (Waiter.continued p) e h = h
waiter_step-IsExclusive s o w Waiter.reclaimed e h = ground arith
waiter_step-IsExclusive s o w Waiter.abandoned e h = ground arith
waiter_step-IsExclusive s o w Waiter.broken e h = h

-- What a request's step does to the channel: the right to send moves from the entry to the request,
-- and from the request to the buffer.
record Moves (w w2 : World) (r r2 : Request) : Type 0 where
  waiter : w2.waiter ≡ w.waiter
  requests : w2.requests ≡ w.requests
  holders :
      bit w2.slot.registered + bit (is_delivering r2) + bit (is_some w2.slot.buffer)
      ≡ bit w.slot.registered + bit (is_delivering r) + bit (is_some w.slot.buffer)
  told :
      bit (is_delivered r2) + bit (is_some w.slot.buffer)
      ≡ bit (is_delivered r) + bit (is_some w2.slot.buffer)

request_step-Moves :
    (s : Setting) (o : Outside) (w : World) (r : Request)
    → let (w2, r2) = request_step s o w r in Moves w w2 r r2
unfolding request_step load_and_delete send
request_step-Moves s o w (Request.reading p) = ground arith
request_step-Moves s o w (Request.finding p) = ground arith
request_step-Moves s o w (Request.deciding p) = ground arith
request_step-Moves s o w (Request.sweeping p) = ground arith
request_step-Moves s o w (Request.sending p) = ground arith
request_step-Moves s o w (Request.delivering p) = ground arith
request_step-Moves s o w (Request.claiming p) = ground arith
request_step-Moves s o w (Request.failing (Payload.decision approved input)) = ground arith
request_step-Moves s o w (Request.failing (Payload.content text)) = ground arith
request_step-Moves s o w (Request.holding st p) = ground arith
request_step-Moves s o w (Request.starting st p) = ground arith
request_step-Moves s o w Request.cancelling = ground arith
request_step-Moves s o w Request.stopping = ground arith
request_step-Moves s o w Request.deleting = ground arith
request_step-Moves s o w (Request.answered a) = ground arith

pub request_step-requests :
    (s : Setting) (o : Outside) (w : World) (r : Request)
    → (request_step s o w r).0.requests ≡ w.requests
request_step-requests s o w r = (request_step-Moves s o w r).requests

-- the world after a request's step, from what the step does to the channel
moved-IsExclusive :
    (s : Setting) (w w2 : World) (i : ℕ) (r r2 : Request)
    → get_elem? w.requests i ≡ some r
    → Moves w w2 r r2
    → IsExclusive s w
    → IsExclusive s (record w2 { requests = set w2.requests i r2 })
moved-IsExclusive s w w2 i r r2 found m h =
    let sending = count-set is_delivering w.requests i r r2 found in
    let sent = count-set is_delivered w.requests i r r2 found in
    rw (m.waiter, m.requests) (ground (arith, m.holders, m.told))

pub act-IsExclusive :
    (s : Setting) (w : World) (a : Action) → IsExclusive s w → IsExclusive s (act s w a)
unfolding act
act-IsExclusive s w (Action.waits o) h = waiter_step-IsExclusive s o w w.waiter refl h
act-IsExclusive s w (Action.handles i o) h = elim (Option-cases (get_elem? w.requests i)) [
  | inl missing ↦ rw (handle, missing) h
  | inr (r, found) ↦
      let (w2, r2) = request_step s o w r in
      rw (handle, found) (moved-IsExclusive s w w2 i r r2 found (request_step-Moves s o w r) h)
]

pub run_world-IsExclusive :
    (s : Setting) (w : World) (l : List Action) → IsExclusive s w → IsExclusive s (run_world s w l)
unfolding run_world
run_world-IsExclusive s w [] h = h
run_world-IsExclusive s w (a ∷ l) h =
    run_world-IsExclusive s (act s w a) l (act-IsExclusive s w a h)

pub start_world-IsExclusive :
    (s : Setting) (run : Run) (requests : List Request)
    → All (λ r. is_new r ≡ true) requests
    → IsExclusive s (start_world s run requests)
start_world-IsExclusive s run requests new =
    let quiet = count-none is_new is_delivering requests is_new-quiet new in
    let untold = count-none is_new is_delivered requests is_new-untold new in ground arith
