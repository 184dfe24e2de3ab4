-- ===== src/Waits/Once.antt =====
-- How often a wait ends, and in which way
-- (services/api/internal/api/handler/approval.go, resume.go).
use agent_nexus.Prelude.{
  ℕ, ◌≤◌, ◌≡◌, sym, true, List, some, length, get_elem?, All, bit, count, count-get_elem?, is_some,
  arith,
}
use agent_nexus.Run.{Run}
use agent_nexus.Waits.Slot.{send}
use agent_nexus.Waits.Requests.{Payload, Request, Setting, World}
use agent_nexus.Waits.World.{Action, run_world, start_world}
use agent_nexus.Waits.Counting.{
  is_new, is_delivering, is_delivered, is_resumed, has_payload, is_reclaimed,
}
use agent_nexus.Waits.Exclusive.{IsExclusive, run_world-IsExclusive, start_world-IsExclusive}
use agent_nexus.Waits.Resumes.{IsSpent, run_world-IsSpent, start_world-IsSpent}

IsExclusive-told :
    (s : Setting) (w : World)
    → IsExclusive s w
    → (count is_delivered w.requests ≤ 1)
      × (bit (has_payload w.waiter) ≤ count is_delivered w.requests)
IsExclusive-told s w h = (ground (arith, h.one, h.told), ground (arith, h.one, h.told))

IsExclusive-closed :
    (s : Setting) (w : World)
    → IsExclusive s w
    → is_reclaimed w.waiter ≡ true
    → (count is_delivered w.requests ≡ 0) × (count is_delivering w.requests ≡ 0)
IsExclusive-closed s w h c =
    (ground (arith, h.closed c, h.told), ground (arith, h.closed c, h.told))

IsSpent-resumed : (s : Setting) (w : World) → IsSpent s w → count is_resumed w.requests ≤ 1
IsSpent-resumed s w h = ground (arith, h.one, h.resumed)

-- From the start of a wait, whatever requests come in and however they and the goroutine interleave:
-- at most one request is told that its payload was delivered, at most one is told that it resumed
-- the run, the executions that were started are as many as the requests told so, and the goroutine
-- has a payload only if a request was told that it was delivered.
pub run_world-once :
    (s : Setting) (run : Run) (requests : List Request) (l : List Action)
    → All (λ r. is_new r ≡ true) requests
    → let w = run_world s (start_world s run requests) l in
      ((count is_delivered w.requests ≤ 1)
        × (count is_resumed w.requests ≤ 1)
        × (length w.executions ≡ count is_resumed w.requests)
        × (bit (has_payload w.waiter) ≤ count is_delivered w.requests))
run_world-once s run requests l new =
    let e =
      run_world-IsExclusive s (start_world s run requests) l
        (start_world-IsExclusive s run requests new) in
    let t =
      run_world-IsSpent s (start_world s run requests) l (start_world-IsSpent s run requests new) in
    let w = run_world s (start_world s run requests) l in
    let (one, told) = IsExclusive-told s w e in (one, IsSpent-resumed s w t, sym t.resumed, told)

-- From the start of a wait, whatever requests come in and however they and the goroutine interleave:
-- when the goroutine has taken its entry back after the timeout, no request was told or is about to
-- be told that it delivered its payload, so nothing is lost when the run parks.
pub run_world-reclaimed :
    (s : Setting) (run : Run) (requests : List Request) (l : List Action)
    → All (λ r. is_new r ≡ true) requests
    → let w = run_world s (start_world s run requests) l in
      is_reclaimed w.waiter ≡ true
      → (count is_delivered w.requests ≡ 0) × (count is_delivering w.requests ≡ 0)
run_world-reclaimed s run requests l new h =
    IsExclusive-closed s (run_world s (start_world s run requests) l)
      (run_world-IsExclusive s (start_world s run requests) l
        (start_world-IsExclusive s run requests new))
      h

pub IsExclusive-send :
    (s : Setting) (w : World) (i : ℕ) (p : Payload)
    → IsExclusive s w
    → get_elem? w.requests i ≡ some (Request.delivering p)
    → is_some (send p w.slot) ≡ true
unfolding send
IsExclusive-send s w i p h found =
    let c = count-get_elem? is_delivering w.requests i (Request.delivering p) found in
    ground (arith, h.one)
