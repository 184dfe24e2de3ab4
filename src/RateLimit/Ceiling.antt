-- ===== src/RateLimit/Ceiling.antt =====
-- How many requests of a client the rate limiter serves
-- (services/api/internal/api/middleware/ratelimit.go).
use agent_nexus.Prelude.{
  ℕ, ◌+◌, ◌*◌, ◌≤◌, ◌<◌, ◌≡◌, ◌⊎◌, inl, inr, Bool, true, false, Option, none, some, List, [], ◌∷◌,
  arith, ◌==◌, All, count, Bool-cases,
}
use agent_nexus.Prelude.Dict.{lookup}
use agent_nexus.RateLimit.{Window, RateLimiter, Reply, serve}
use agent_nexus.RateLimit.Windows.{IsDistinct, IsOrdered, times_of, replies_to, alone}
use agent_nexus.RateLimit.Clients.{serve-alone}

abbrev pub is_served : Reply → Bool
is_served Reply.served = true
is_served (Reply.too_many_requests n) = false

abbrev pub Within : ℕ → ℕ → ℕ → Type 0
Within start window now = (start ≤ now) × (now < start + window)

module _ (limit window : ℕ) (positive : 0 < limit) where
  -- the window of a client that no time of the stretch leaves
  count-alone_in :
      (times : List ℕ) (c start : ℕ)
      → All (λ now. now < start + window) times
      → (count is_served (alone limit window times (some (record { count = c; start = start }))) + c
          ≤ limit)
        ⊎ (count is_served (alone limit window times (some (record { count = c; start = start })))
            ≡ 0)
  count-alone_in [] c start h = ground arith
  count-alone_in (now ∷ times) c start h =
      ground (arith, positive, count-alone_in times (c + 1) start h.1)

  All-narrow :
      (times : List ℕ) (t now : ℕ)
      → t ≤ now
      → All (λ later. Within t window later) times
      → All (λ later. later < now + window) times
  All-narrow [] t now le h = tt
  All-narrow (later ∷ times) t now le h = (omega arith, All-narrow times t now le h.1)

  count-alone_fresh :
      (times : List ℕ) (now : ℕ)
      → All (λ later. later < now + window) times
      → count is_served (alone limit window times (some (record { count = 1; start = now }))) + 1
        ≤ limit
  count-alone_fresh times now h = ground (arith, positive, count-alone_in times 1 now h)

  count-alone-some :
      (times : List ℕ) (t c start : ℕ)
      → All (λ now. Within t window now) times
      → (count is_served (alone limit window times (some (record { count = c; start = start }))) + c
          ≤ 2 * limit)
        ⊎ (count is_served (alone limit window times (some (record { count = c; start = start })))
            ≤ limit)
  count-alone-some [] t c start h = inr (omega arith)
  count-alone-some (now ∷ times) t c start h = ground (
    arith,
    positive,
    count-alone-some times t (c + 1) start h.1,
    count-alone_fresh times now (All-narrow times t now h.0.0 h.1),
  )

  count-alone_stretch :
      (times : List ℕ) (t : ℕ) (o : Option Window)
      → All (λ now. Within t window now) times
      → count is_served (alone limit window times o) ≤ 2 * limit
  count-alone_stretch [] t o h = omega arith
  count-alone_stretch (now ∷ times) t none h =
      ground (arith, positive, count-alone_fresh times now (All-narrow times t now h.0.0 h.1))
  count-alone_stretch (now ∷ times) t (some v) h =
      ground (arith, count-alone-some (now ∷ times) t v.count v.start h)

All-times_of :
    (P : ℕ → Type 0) (key : ℕ) (reqs : List (ℕ × ℕ))
    → All (λ (r : ℕ × ℕ). P r.0) reqs
    → All P (times_of key reqs)
All-times_of P key [] h = tt
All-times_of P key ((now, k) ∷ reqs) h = elim (Bool-cases (k == key)) [
  | inl e ↦ rw e (h.0, All-times_of P key reqs h.1)
  | inr e ↦ rw e (All-times_of P key reqs h.1)
]

-- However many requests all the clients make, no client is served more than twice the limit in a
-- stretch of time shorter than the window, whatever the map holds when the stretch begins: when the
-- limit is positive, the times do not decrease and the map has one entry per key.
pub serve-count :
    (reqs : List (ℕ × ℕ)) (t key : ℕ) (rl : RateLimiter)
    → 0 < rl.limit
    → IsDistinct rl.hits
    → IsOrdered t reqs
    → All (λ (r : ℕ × ℕ). Within t rl.window r.0) reqs
    → count is_served (replies_to key (serve reqs rl)) ≤ 2 * rl.limit
serve-count reqs t key rl positive d h w = rw (serve-alone reqs t key rl d h) (
    count-alone_stretch rl.limit rl.window positive (times_of key reqs) t (lookup key rl.hits)
      (All-times_of (λ now. Within t rl.window now) key reqs w))
