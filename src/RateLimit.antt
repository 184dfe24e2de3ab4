-- ===== src/RateLimit.antt =====
-- The rate limiter of the endpoints that need no credentials
-- (services/api/internal/api/middleware/ratelimit.go). The texts that identify clients are ids, times
-- and durations are nanoseconds, and a limit of 0 stands for every limit that is not positive.
pub mod Windows
pub mod Clients
pub mod Ceiling
mod Tests
use agent_nexus.Prelude.{
  ℕ, ◌+◌, ◌/◌, Bool, true, Option, none, some, List, [], ◌∷◌, ltb, leb, if◌then◌else◌,
}
use agent_nexus.Prelude.Dict.{lookup, insert}

pub record Window : Type 0 where
  pub count : ℕ
  pub start : ℕ

pub record RateLimiter : Type 0 where
  pub hits : List (ℕ × Window)
  pub limit : ℕ
  pub window : ℕ
  pub last_gc : ℕ

-- `now.Sub(v.start) >= rl.window`
abbrev pub is_over : ℕ → ℕ → Window → Bool
is_over window now v = leb (v.start + window) now

-- the range loop over `rl.hits` that deletes the windows that are over
abbrev pub evict : ℕ → ℕ → List (ℕ × Window) → List (ℕ × Window)
evict window now [] = []
evict window now ((k, v) ∷ m) =
    let rest = evict window now m in if is_over window now v then rest else (k, v) ∷ rest

abbrev pub collect : ℕ → RateLimiter → RateLimiter
collect now rl =
    if ltb (rl.last_gc + rl.window) now
    then record rl { hits = evict rl.window now rl.hits; last_gc = now }
    else rl

-- what `allow` does with the window that it finds: the window it leaves, and its answer
abbrev pub use_window : ℕ → ℕ → ℕ → Option Window → Window × Bool
use_window limit window now none = (record { count = 1; start = now }, true)
use_window limit window now (some v) =
    if is_over window now v
    then (record { count = 1; start = now }, true)
    else (record v { count = v.count + 1 }, leb (v.count + 1) limit)

unfoldable pub allow_in : ℕ → ℕ → RateLimiter → RateLimiter × Bool
allow_in now key rl =
    let (v, ok) = use_window rl.limit rl.window now (lookup key rl.hits) in
    (record rl { hits = insert key v rl.hits }, ok)

unfoldable pub allow : ℕ → ℕ → RateLimiter → RateLimiter × Bool
allow now key rl = allow_in now key (collect now rl)

-- The address that chi took from trusted proxies, the host of `RemoteAddr`, and `RemoteAddr`.
unfoldable pub client_key : Option ℕ → Option ℕ → ℕ → ℕ
client_key (some ip) host remote = ip
client_key none (some host) remote = host
client_key none none remote = remote

pub data Reply : Type 0 where
  served : Reply
  too_many_requests : ℕ → Reply

-- The handler that `RateLimit` returns; the number of a refusal is its `Retry-After`, in seconds.
unfoldable pub handle : ℕ → ℕ → RateLimiter → RateLimiter × Reply
handle now key rl =
    let (after, ok) = allow now key rl in
    if leb rl.limit 0
    then (rl, Reply.served)
    else if ok
    then (after, Reply.served)
    else (after, Reply.too_many_requests (rl.window / 1000000000))

unfoldable pub rate_limit : ℕ → ℕ → ℕ → RateLimiter
rate_limit limit per now = record { hits = []; limit = limit; window = per; last_gc = now }

-- Requests, each a time and a client, in the order in which they take the lock.
unfoldable pub serve : List (ℕ × ℕ) → RateLimiter → List (ℕ × Reply)
serve [] rl = []
serve ((now, key) ∷ rest) rl = let (after, r) = handle now key rl in (key, r) ∷ serve rest after
