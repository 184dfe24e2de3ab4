-- ===== src/Waits/Cancelled.antt =====
-- The status of a run that is cancelled while it waits
-- (services/api/internal/api/handler/runs.go, invoke.go, resume.go).
use agent_nexus.Prelude.{
  ◌≡◌, refl, ◌∙◌, Bool, true, false, not, ◌&&◌, ◌||◌, List, [], ◌∷◌, none, some, get_elem?,
  Option-cases, inl, inr, arith,
}
use agent_nexus.Run.{RunStatus, fail_run, claim_run, cancel_row, set_status}
use agent_nexus.Waits.Snapshot.{WaitType, same_type}
use agent_nexus.Waits.Requests.{Payload, Request, Waiter, Setting, Outside, World}
use agent_nexus.Waits.Goroutine.{waiter_step}
use agent_nexus.Waits.Handlers.{request_step}
use agent_nexus.Waits.World.{Action, handle, act, run_world}

-- The two writes of the goroutine that do not look at the status: entering the wait, and leaving it
-- when the run may park or waits for an approval. The database refuses both once the context is done.
abbrev pub goroutine_writes : Setting → World → Waiter → Bool
goroutine_writes s w Waiter.marking = not w.ctx_done
goroutine_writes s w (Waiter.clearing p) =
    not w.ctx_done && (s.parks || same_type WaitType.approval s.kind)
goroutine_writes s w _ = false

-- the last write of `Approve`, when it found no goroutine and no snapshot
abbrev pub fails_inactive : Request → Bool
fails_inactive (Request.failing (Payload.decision approved input)) = true
fails_inactive _ = false

abbrev pub overwrites : Setting → World → Action → Bool
overwrites s w (Action.waits o) = goroutine_writes s w w.waiter
overwrites s w (Action.handles i o) = elim (get_elem? w.requests i) [
  | none ↦ false
  | some r ↦ fails_inactive r
]

-- a history with a step that overwrites a status
abbrev pub overwritten : Setting → World → List Action → Bool
overwritten s w [] = false
overwritten s w (a ∷ l) = overwrites s w a || overwritten s (act s w a) l

abbrev IsKept : World → World → Type 0
IsKept w w2 = (w2.run.status ≡ RunStatus.cancelled) × (w2.executions ≡ w.executions)

waiter_step-IsKept :
    (s : Setting) (o : Outside) (w : World) (ph : Waiter)
    → w.run.status ≡ RunStatus.cancelled
    → goroutine_writes s w ph ≡ false
    → IsKept w (waiter_step s o w ph)
unfolding waiter_step claim_run set_status
waiter_step-IsKept s o w Waiter.registering h k = ground arith
waiter_step-IsKept s o w Waiter.saving h k = ground arith
waiter_step-IsKept s o w Waiter.marking h k = ground arith
waiter_step-IsKept s o w Waiter.waiting h k = ground arith
waiter_step-IsKept s o w Waiter.expired h k = ground arith
waiter_step-IsKept s o w Waiter.grace h k = ground arith
waiter_step-IsKept s o w Waiter.reclaiming h k = ground arith
waiter_step-IsKept s o w (Waiter.received p) h k = ground arith
waiter_step-IsKept s o w (Waiter.clearing p) h k = ground arith
waiter_step-IsKept s o w Waiter.reclaimed h k = ground arith
waiter_step-IsKept s o w Waiter.abandoned h k = ground arith
waiter_step-IsKept s o w (Waiter.continued p) h k = ground arith
waiter_step-IsKept s o w Waiter.broken h k = ground arith

request_step-IsKept :
    (s : Setting) (o : Outside) (w : World) (r : Request)
    → w.run.status ≡ RunStatus.cancelled
    → fails_inactive r ≡ false
    → IsKept w (request_step s o w r).0
unfolding request_step claim_run cancel_row fail_run
request_step-IsKept s o w (Request.reading p) h k = ground arith
request_step-IsKept s o w (Request.finding p) h k = ground arith
request_step-IsKept s o w (Request.deciding p) h k = ground arith
request_step-IsKept s o w (Request.sweeping p) h k = ground arith
request_step-IsKept s o w (Request.sending p) h k = ground arith
request_step-IsKept s o w (Request.delivering p) h k = ground arith
request_step-IsKept s o w (Request.claiming p) h k = ground arith
request_step-IsKept s o w (Request.failing (Payload.decision approved input)) h k = ground arith
request_step-IsKept s o w (Request.failing (Payload.content text)) h k = ground arith
request_step-IsKept s o w (Request.holding st p) h k = ground arith
request_step-IsKept s o w (Request.starting st p) h k = ground arith
request_step-IsKept s o w Request.cancelling h k = ground arith
request_step-IsKept s o w Request.stopping h k = ground arith
request_step-IsKept s o w Request.deleting h k = ground arith
request_step-IsKept s o w (Request.answered a) h k = ground arith

act-IsKept :
    (s : Setting) (w : World) (a : Action)
    → w.run.status ≡ RunStatus.cancelled
    → overwrites s w a ≡ false
    → IsKept w (act s w a)
unfolding act
act-IsKept s w (Action.waits o) h k = waiter_step-IsKept s o w w.waiter h k
act-IsKept s w (Action.handles i o) h k = elim (Option-cases (get_elem? w.requests i)) [
  | inl missing ↦ rw (handle, missing) (h, refl)
  | inr (r, found) ↦ rw (handle, found) (request_step-IsKept s o w r h (ground (arith, found)))
]

-- Once a run that waits is cancelled, whatever steps the goroutine and the requests take: the run
-- stays cancelled and no execution of it is started, unless one of the steps is a write of a status
-- that does not look at the one that is there: the goroutine's on entering and leaving the wait,
-- which its context stops, and the write of `Approve` for a run that has no goroutine and no
-- snapshot.
pub run_world-cancelled :
    (s : Setting) (w : World) (l : List Action)
    → w.run.status ≡ RunStatus.cancelled
    → overwritten s w l ≡ false
    → ((run_world s w l).run.status ≡ RunStatus.cancelled)
      × ((run_world s w l).executions ≡ w.executions)
unfolding run_world
run_world-cancelled s w [] h k = (h, refl)
run_world-cancelled s w (a ∷ l) h k =
    let (status, same) = act-IsKept s w a h (ground arith) in
    let (later, still) = run_world-cancelled s (act s w a) l status (ground arith) in
    (later, still ∙ same)
