-- ===== src/Waits/Payloads.antt =====
-- What the goroutine is given and what an execution resumes with
-- (services/api/internal/api/handler/approval.go, session_wait.go, resume.go).
use agent_nexus.Prelude.{
  ◌≡◌, refl, true, List, [], ◌∷◌, Option, none, some, get_elem?, All, All-set, All-get_elem?,
  Option-cases, inl, inr, arith,
}
use agent_nexus.Run.{Run}
use agent_nexus.Waits.Snapshot.{
  WaitState, same_type, claim_wait_state, save_wait_state, delete_wait_state,
}
use agent_nexus.Waits.Slot.{register, load_and_delete, send, receive}
use agent_nexus.Waits.Requests.{Payload, Request, Waiter, Setting, Outside, World}
use agent_nexus.Waits.Goroutine.{waiter_step}
use agent_nexus.Waits.Handlers.{kind_of, request_step}
use agent_nexus.Waits.World.{Action, handle, act, run_world, start_world}

module _ (s : Setting) (P : Payload → Type 0) where
  -- the payload that a request brings, and the snapshot that it has taken for it
  abbrev pub Carries : Request → Type 0
  Carries (Request.reading p) = P p
  Carries (Request.finding p) = P p
  Carries (Request.deciding p) = P p
  Carries (Request.sweeping p) = P p
  Carries (Request.sending p) = P p
  Carries (Request.delivering p) = P p × (same_type s.kind (kind_of p) ≡ true)
  Carries (Request.claiming p) = P p
  Carries (Request.failing p) = P p
  Carries (Request.holding st p) =
      P p × (st ≡ s.snapshot) × (same_type (kind_of p) s.snapshot.wait_type ≡ true)
  Carries (Request.starting st p) =
      P p × (st ≡ s.snapshot) × (same_type (kind_of p) s.snapshot.wait_type ≡ true)
  Carries _ = Unit

  -- a request as it comes in, with a payload of which `P` holds
  abbrev pub Arrives : Request → Type 0
  Arrives (Request.reading p) = P p
  Arrives (Request.sweeping p) = P p
  Arrives (Request.sending p) = P p
  Arrives Request.cancelling = Unit
  Arrives _ = ⊥

  Arrives-Carries : (r : Request) → Arrives r → Carries r
  Arrives-Carries (Request.reading p) h = h
  Arrives-Carries (Request.sweeping p) h = h
  Arrives-Carries (Request.sending p) h = h
  Arrives-Carries Request.cancelling h = h
  Arrives-Carries (Request.finding p) h = absurd h
  Arrives-Carries (Request.deciding p) h = absurd h
  Arrives-Carries (Request.delivering p) h = absurd h
  Arrives-Carries (Request.claiming p) h = absurd h
  Arrives-Carries (Request.failing p) h = absurd h
  Arrives-Carries (Request.holding st p) h = absurd h
  Arrives-Carries (Request.starting st p) h = absurd h
  Arrives-Carries Request.stopping h = absurd h
  Arrives-Carries Request.deleting h = absurd h
  Arrives-Carries (Request.answered a) h = absurd h

  All-Arrives-Carries : (l : List Request) → All Arrives l → All Carries l
  All-Arrives-Carries [] h = h
  All-Arrives-Carries (r ∷ l) (h, hs) = (Arrives-Carries r h, All-Arrives-Carries l hs)

  abbrev pub Gets : Waiter → Type 0
  Gets (Waiter.received p) = P p × (same_type s.kind (kind_of p) ≡ true)
  Gets (Waiter.clearing p) = P p × (same_type s.kind (kind_of p) ≡ true)
  Gets (Waiter.continued p) = P p × (same_type s.kind (kind_of p) ≡ true)
  Gets _ = Unit

  abbrev InBuffer : Option Payload → Type 0
  InBuffer none = Unit
  InBuffer (some p) = P p × (same_type s.kind (kind_of p) ≡ true)

  abbrev InRow : Option WaitState → Type 0
  InRow none = Unit
  InRow (some st) = st ≡ s.snapshot

  abbrev pub Executes : WaitState × Payload → Type 0
  Executes (st, p) = P p × (st ≡ s.snapshot) × (same_type (kind_of p) s.snapshot.wait_type ≡ true)

  record IsTrue (w : World) : Type 0 where
    buffer : InBuffer w.slot.buffer
    row : InRow w.row
    waiter : Gets w.waiter
    requests : All Carries w.requests
    executions : All Executes w.executions

  waiter_step-IsTrue :
      (o : Outside) (w : World) (ph : Waiter)
      → w.waiter ≡ ph
      → IsTrue w
      → IsTrue (waiter_step s o w ph)
  unfolding waiter_step register load_and_delete receive save_wait_state delete_wait_state
  waiter_step-IsTrue o w Waiter.registering e h = ground arith
  waiter_step-IsTrue o w Waiter.saving e h = ground arith
  waiter_step-IsTrue o w Waiter.marking e h = ground arith
  waiter_step-IsTrue o w Waiter.waiting e h = ground arith
  waiter_step-IsTrue o w Waiter.expired e h = ground arith
  waiter_step-IsTrue o w Waiter.grace e h = ground arith
  waiter_step-IsTrue o w Waiter.reclaiming e h = ground arith
  waiter_step-IsTrue o w (Waiter.received p) e h = ground arith
  waiter_step-IsTrue o w (Waiter.clearing p) e h = ground arith
  waiter_step-IsTrue o w Waiter.reclaimed e h = ground arith
  waiter_step-IsTrue o w Waiter.abandoned e h = ground arith
  waiter_step-IsTrue o w (Waiter.continued p) e h = ground arith
  waiter_step-IsTrue o w Waiter.broken e h = ground arith

  record StepsTo (w w2 : World) (r2 : Request) : Type 0 where
    buffer : InBuffer w2.slot.buffer
    row : InRow w2.row
    executions : All Executes w2.executions
    carries : Carries r2
    waiter : w2.waiter ≡ w.waiter
    requests : w2.requests ≡ w.requests

  request_step-StepsTo :
      (o : Outside) (w : World) (r : Request)
      → IsTrue w
      → Carries r
      → let (w2, r2) = request_step s o w r in StepsTo w w2 r2
  unfolding request_step load_and_delete send claim_wait_state delete_wait_state
  request_step-StepsTo o w (Request.reading p) h c = ground arith
  request_step-StepsTo o w (Request.finding p) h c = ground arith
  request_step-StepsTo o w (Request.deciding p) h c = ground arith
  request_step-StepsTo o w (Request.sweeping p) h c = ground arith
  request_step-StepsTo o w (Request.sending p) h c = ground arith
  request_step-StepsTo o w (Request.delivering p) h c = ground arith
  request_step-StepsTo o w (Request.claiming p) h c = ground arith
  request_step-StepsTo o w (Request.failing (Payload.decision approved input)) h c = ground arith
  request_step-StepsTo o w (Request.failing (Payload.content text)) h c = ground arith
  request_step-StepsTo o w (Request.holding st p) h c = ground arith
  request_step-StepsTo o w (Request.starting st p) h c = ground arith
  request_step-StepsTo o w Request.cancelling h c = ground arith
  request_step-StepsTo o w Request.stopping h c = ground arith
  request_step-StepsTo o w Request.deleting h c = ground arith
  request_step-StepsTo o w (Request.answered a) h c = ground arith

  act-IsTrue : (w : World) (a : Action) → IsTrue w → IsTrue (act s w a)
  unfolding act
  act-IsTrue w (Action.waits o) h = waiter_step-IsTrue o w w.waiter refl h
  act-IsTrue w (Action.handles i o) h = elim (Option-cases (get_elem? w.requests i)) [
    | inl missing ↦ rw (handle, missing) h
    | inr (r, found) ↦
        let (w2, r2) = request_step s o w r in
        let t =
          request_step-StepsTo o w r h (All-get_elem? Carries w.requests i r h.requests found) in
        rw (handle, found)
          (record {
            buffer = t.buffer;
            row = t.row;
            waiter = rw t.waiter h.waiter;
            requests = rw t.requests (All-set Carries w.requests i r2 h.requests t.carries);
            executions = t.executions;
          })
  ]

  run_world-IsTrue : (w : World) (l : List Action) → IsTrue w → IsTrue (run_world s w l)
  unfolding run_world
  run_world-IsTrue w [] h = h
  run_world-IsTrue w (a ∷ l) h = run_world-IsTrue (act s w a) l (act-IsTrue w a h)

  -- From the start of a wait whose requests all bring a payload of which `P` holds, however they and
  -- the goroutine interleave: a payload that the goroutine has satisfies `P` and is of the kind of its
  -- wait; and every execution that was started has the snapshot that was saved and a payload that
  -- satisfies `P`, of the kind that the snapshot was saved for, so a decision never resumes a session
  -- wait and a session's result never resumes an approval.
  pub run_world-payloads :
      (run : Run) (requests : List Request) (l : List Action)
      → All Arrives requests
      → let w = run_world s (start_world s run requests) l in
        Gets w.waiter × All Executes w.executions
  run_world-payloads run requests l h =
      let start : IsTrue (start_world s run requests) = record {
        buffer = tt;
        row = tt;
        waiter = ground arith;
        requests = All-Arrives-Carries requests h;
        executions = tt;
      } in
      let t = run_world-IsTrue (start_world s run requests) l start in (t.waiter, t.executions)
