-- ===== src/RateLimit/Tests.antt =====
-- Runs of the rate limiter (services/api/internal/api/middleware/ratelimit.go).
use agent_nexus.Prelude.{ℕ, ◌*◌, ◌≤◌, ◌≡◌, refl, none, List, [], ◌∷◌, arith, count}
use agent_nexus.RateLimit.{Reply, rate_limit, handle, allow, allow_in, serve}
use agent_nexus.RateLimit.Windows.{replies_to, alone}
use agent_nexus.RateLimit.Clients.{serve-alone}
use agent_nexus.RateLimit.Ceiling.{is_served, serve-count}

-- two clients, with a limit of one request in ten nanoseconds
abbrev two_clients : List (ℕ × ℕ)
two_clients = (8, 7) ∷ (9, 4) ∷ (12, 7) ∷ (18, 7) ∷ (25, 4) ∷ (26, 4) ∷ []

serve-alone_example :
    replies_to 7 (serve two_clients (rate_limit 1 10 0)) ≡ alone 1 10 (8 ∷ 12 ∷ 18 ∷ []) none
unfolding rate_limit
serve-alone_example = serve-alone two_clients 0 7 (rate_limit 1 10 0) tt (omega arith)

serve-two_clients :
    serve two_clients (rate_limit 1 10 0)
    ≡ (7, Reply.served)
      ∷ (4, Reply.served)
      ∷ (7, Reply.too_many_requests 0)
      ∷ (7, Reply.served)
      ∷ (4, Reply.served)
      ∷ (4, Reply.too_many_requests 0)
      ∷ []
unfolding serve handle allow allow_in rate_limit
serve-two_clients = refl

abbrev burst : List (ℕ × ℕ)
burst = (1, 7) ∷ (2, 7) ∷ (3, 7) ∷ []

serve-count_example : count is_served (replies_to 7 (serve burst (rate_limit 1 10 0))) ≤ 2 * 1
unfolding rate_limit
serve-count_example =
    serve-count burst 0 7 (rate_limit 1 10 0) (omega arith) tt (omega arith) (omega arith)
