-- ===== src/Waits/Answered.antt =====
-- The steps that a request takes to its answer
-- (services/api/internal/api/handler/runs.go, session_wait.go, resume.go).
use agent_nexus.Prelude.{
  ℕ, ◌+◌, ◌-◌, ◌≤◌, ◌≡◌, Bool, true, List, [], ◌∷◌, none, some, ◌==◌, get_elem?, set, get_elem?-set,
  All, bit, Option-cases, inl, inr, arith,
}
use agent_nexus.Run.{Run}
use agent_nexus.Waits.Slot.{send}
use agent_nexus.Waits.Requests.{Payload, Request, Setting, Outside, World}
use agent_nexus.Waits.Goroutine.{waiter_step}
use agent_nexus.Waits.Handlers.{request_step}
use agent_nexus.Waits.World.{Action, handle, act, run_world, start_world}
use agent_nexus.Waits.Counting.{is_new, is_answered}
use agent_nexus.Waits.Exclusive.{
  IsExclusive, act-IsExclusive, request_step-requests, start_world-IsExclusive,
}
use agent_nexus.Waits.Once.{IsExclusive-send}

-- how many steps are left at most
abbrev rank : Request → ℕ
rank (Request.reading p) = 8
rank (Request.finding p) = 7
rank (Request.deciding p) = 6
rank (Request.sweeping p) = 6
rank (Request.sending p) = 5
rank (Request.claiming p) = 4
rank (Request.holding st p) = 3
rank (Request.starting st p) = 2
rank (Request.delivering p) = 1
rank (Request.failing p) = 1
rank Request.cancelling = 3
rank Request.stopping = 2
rank Request.deleting = 1
rank (Request.answered a) = 0

request_step-rank :
    (s : Setting) (o : Outside) (w : World) (r : Request) (i : ℕ)
    → IsExclusive s w
    → get_elem? w.requests i ≡ some r
    → rank (request_step s o w r).1 ≤ rank r - 1
unfolding request_step send
request_step-rank s o w (Request.reading p) i h found = ground arith
request_step-rank s o w (Request.finding p) i h found = ground arith
request_step-rank s o w (Request.deciding p) i h found = ground arith
request_step-rank s o w (Request.sweeping p) i h found = ground arith
request_step-rank s o w (Request.sending p) i h found = ground arith
request_step-rank s o w (Request.delivering p) i h found =
    ground (arith, IsExclusive-send s w i p h found)
request_step-rank s o w (Request.claiming p) i h found = ground arith
request_step-rank s o w (Request.failing (Payload.decision approved input)) i h found = ground arith
request_step-rank s o w (Request.failing (Payload.content text)) i h found = ground arith
request_step-rank s o w (Request.holding st p) i h found = ground arith
request_step-rank s o w (Request.starting st p) i h found = ground arith
request_step-rank s o w Request.cancelling i h found = ground arith
request_step-rank s o w Request.stopping i h found = ground arith
request_step-rank s o w Request.deleting i h found = ground arith
request_step-rank s o w (Request.answered a) i h found = ground arith

abbrev rank_at : ℕ → World → ℕ
rank_at i w = elim (get_elem? w.requests i) [ none ↦ 0 | some r ↦ rank r ]

abbrev pub answered_at : ℕ → World → Bool
answered_at i w = elim (get_elem? w.requests i) [ none ↦ true | some r ↦ is_answered r ]

-- how many steps of a history are request `i`'s
abbrev pub handled : ℕ → List Action → ℕ
handled i [] = 0
handled i (Action.waits o ∷ l) = handled i l
handled i (Action.handles j o ∷ l) = bit (j == i) + handled i l

rank_at-set :
    (w : World) (i j : ℕ) (r r2 : Request)
    → get_elem? w.requests i ≡ some r
    → rank r2 ≤ rank r - 1
    → rank_at j (record w { requests = set w.requests i r2 }) ≤ rank_at j w - bit (i == j)
rank_at-set w i j r r2 found le = ground (arith, get_elem?-set w.requests i j r2)

handle-rank :
    (s : Setting) (i j : ℕ) (o : Outside) (w : World)
    → IsExclusive s w
    → rank_at j (handle s i o w) ≤ rank_at j w - bit (i == j)
unfolding handle
handle-rank s i j o w h = elim (Option-cases (get_elem? w.requests i)) [
  | inl missing ↦ rw (handle, missing) (ground (arith, missing))
  | inr (r, found) ↦
      let (w2, r2) = request_step s o w r in
      let le = request_step-rank s o w r i h found in
      rw (handle, found, request_step-requests s o w r) (rank_at-set w i j r r2 found le)
]

run_world-rank :
    (s : Setting) (i : ℕ) (w : World) (l : List Action)
    → IsExclusive s w
    → rank_at i (run_world s w l) ≤ rank_at i w - handled i l
unfolding run_world act
run_world-rank s i w [] h = omega arith
run_world-rank s i w (Action.waits o ∷ l) h =
    let later =
      run_world-rank s i (waiter_step s o w w.waiter) l (act-IsExclusive s w (Action.waits o) h) in
    ground arith
run_world-rank s i w (Action.handles j o ∷ l) h =
    let later =
      run_world-rank s i (handle s j o w) l (act-IsExclusive s w (Action.handles j o) h) in
    let now = handle-rank s j i o w h in ground arith

rank-le : (r : Request) → rank r ≤ 8
rank-le r = ground arith

rank_at-new :
    (i : ℕ) (s : Setting) (run : Run) (requests : List Request)
    → All (λ r. is_new r ≡ true) requests
    → rank_at i (start_world s run requests) ≤ 8
rank_at-new i s run requests new = elim (Option-cases (get_elem? requests i)) [
  | inl missing ↦ ground (arith, missing)
  | inr (r, found) ↦ rw (rank_at, found) (rank-le r)
]

rank_at-answered : (i : ℕ) (w : World) → rank_at i w ≤ 0 → answered_at i w ≡ true
rank_at-answered i w h = ground arith

-- From the start of a wait, whatever requests come in and however they and the goroutine interleave:
-- a request that has taken eight steps is answered; no request blocks, since a sender that has taken
-- the entry finds room in the channel.
pub run_world-answered :
    (s : Setting) (run : Run) (requests : List Request) (l : List Action) (i : ℕ)
    → All (λ r. is_new r ≡ true) requests
    → 8 ≤ handled i l
    → answered_at i (run_world s (start_world s run requests) l) ≡ true
run_world-answered s run requests l i new enough =
    let w = start_world s run requests in
    let le = run_world-rank s i w l (start_world-IsExclusive s run requests new) in
    let bound = rank_at-new i s run requests new in
    rank_at-answered i (run_world s w l) (omega (arith, le, bound))
