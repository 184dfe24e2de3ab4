-- ===== src/Waits/Resumes.antt =====
-- Who may take the snapshot of a wait and start the run again
-- (services/api/internal/api/handler/wait_state.go, resume.go).
use agent_nexus.Prelude.{
  ℕ, ◌+◌, ◌≤◌, ◌≡◌, refl, true, List, [], ◌∷◌, some, length, get_elem?, set, All, bit, count,
  count-none, count-set, is_some, Option-cases, inl, inr, arith,
}
use agent_nexus.Run.{Run}
use agent_nexus.Waits.Snapshot.{claim_wait_state, save_wait_state, delete_wait_state}
use agent_nexus.Waits.Requests.{Payload, Request, Waiter, Setting, Outside, World}
use agent_nexus.Waits.Goroutine.{waiter_step}
use agent_nexus.Waits.Handlers.{request_step}
use agent_nexus.Waits.World.{Action, handle, act, run_world, start_world}
use agent_nexus.Waits.Counting.{
  is_new, is_holding, is_resumed, before_save, is_new-empty, is_new-unresumed,
}

-- who may start the run again, or has: the row, a request that holds the snapshot, an execution
abbrev pub snapshot_holders : World → ℕ
snapshot_holders w = bit (is_some w.row) + count is_holding w.requests + length w.executions

pub record IsSpent (s : Setting) (w : World) : Type 0 where
  pub one : snapshot_holders w ≤ 1
  pub unsaved : before_save s.kind w.waiter ≡ true → snapshot_holders w ≡ 0
  pub resumed : count is_resumed w.requests ≡ length w.executions

waiter_step-IsSpent :
    (s : Setting) (o : Outside) (w : World) (ph : Waiter)
    → w.waiter ≡ ph
    → IsSpent s w
    → IsSpent s (waiter_step s o w ph)
unfolding waiter_step save_wait_state delete_wait_state
waiter_step-IsSpent s o w Waiter.registering e h = ground arith
waiter_step-IsSpent s o w Waiter.saving e h = ground arith
waiter_step-IsSpent s o w Waiter.marking e h = ground arith
waiter_step-IsSpent s o w Waiter.waiting e h = ground arith
waiter_step-IsSpent s o w Waiter.expired e h = ground arith
waiter_step-IsSpent s o w Waiter.grace e h = ground arith
waiter_step-IsSpent s o w Waiter.reclaiming e h = ground arith
waiter_step-IsSpent s o w (Waiter.received p) e h = ground arith
waiter_step-IsSpent s o w (Waiter.clearing p) e h = ground arith
waiter_step-IsSpent s o w Waiter.reclaimed e h = ground arith
waiter_step-IsSpent s o w Waiter.abandoned e h = ground arith
waiter_step-IsSpent s o w (Waiter.continued p) e h = ground arith
waiter_step-IsSpent s o w Waiter.broken e h = ground arith

-- What a request's step does to the snapshot: the row moves to the request, and from the request to
-- an execution; a snapshot that is deleted or that does not start the run is gone.
record Takes (w w2 : World) (r r2 : Request) : Type 0 where
  waiter : w2.waiter ≡ w.waiter
  requests : w2.requests ≡ w.requests
  holders :
      bit (is_some w2.row) + bit (is_holding r2) + length w2.executions
      ≤ bit (is_some w.row) + bit (is_holding r) + length w.executions
  told : bit (is_resumed r2) + length w.executions ≡ bit (is_resumed r) + length w2.executions

request_step-Takes :
    (s : Setting) (o : Outside) (w : World) (r : Request)
    → let (w2, r2) = request_step s o w r in Takes w w2 r r2
unfolding request_step claim_wait_state delete_wait_state
request_step-Takes s o w (Request.reading p) = ground arith
request_step-Takes s o w (Request.finding p) = ground arith
request_step-Takes s o w (Request.deciding p) = ground arith
request_step-Takes s o w (Request.sweeping p) = ground arith
request_step-Takes s o w (Request.sending p) = ground arith
request_step-Takes s o w (Request.delivering p) = ground arith
request_step-Takes s o w (Request.claiming p) = ground arith
request_step-Takes s o w (Request.failing (Payload.decision approved input)) = ground arith
request_step-Takes s o w (Request.failing (Payload.content text)) = ground arith
request_step-Takes s o w (Request.holding st p) = ground arith
request_step-Takes s o w (Request.starting st p) = ground arith
request_step-Takes s o w Request.cancelling = ground arith
request_step-Takes s o w Request.stopping = ground arith
request_step-Takes s o w Request.deleting = ground arith
request_step-Takes s o w (Request.answered a) = ground arith

taken-IsSpent :
    (s : Setting) (w w2 : World) (i : ℕ) (r r2 : Request)
    → get_elem? w.requests i ≡ some r
    → Takes w w2 r r2
    → IsSpent s w
    → IsSpent s (record w2 { requests = set w2.requests i r2 })
taken-IsSpent s w w2 i r r2 found m h =
    let holding = count-set is_holding w.requests i r r2 found in
    let resumed = count-set is_resumed w.requests i r r2 found in
    rw (m.waiter, m.requests) (ground (arith, m.holders, m.told))

act-IsSpent : (s : Setting) (w : World) (a : Action) → IsSpent s w → IsSpent s (act s w a)
unfolding act
act-IsSpent s w (Action.waits o) h = waiter_step-IsSpent s o w w.waiter refl h
act-IsSpent s w (Action.handles i o) h = elim (Option-cases (get_elem? w.requests i)) [
  | inl missing ↦ rw (handle, missing) h
  | inr (r, found) ↦
      let (w2, r2) = request_step s o w r in
      rw (handle, found) (taken-IsSpent s w w2 i r r2 found (request_step-Takes s o w r) h)
]

pub run_world-IsSpent :
    (s : Setting) (w : World) (l : List Action) → IsSpent s w → IsSpent s (run_world s w l)
unfolding run_world
run_world-IsSpent s w [] h = h
run_world-IsSpent s w (a ∷ l) h = run_world-IsSpent s (act s w a) l (act-IsSpent s w a h)

pub start_world-IsSpent :
    (s : Setting) (run : Run) (requests : List Request)
    → All (λ r. is_new r ≡ true) requests
    → IsSpent s (start_world s run requests)
start_world-IsSpent s run requests new =
    let held = count-none is_new is_holding requests is_new-empty new in
    let resumed = count-none is_new is_resumed requests is_new-unresumed new in ground arith
