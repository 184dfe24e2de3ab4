-- ===== src/RateLimit/Windows.antt =====
-- The windows of the map against a reference that keeps one window
-- (services/api/internal/api/middleware/ratelimit.go).
use agent_nexus.Prelude.{
  ℕ, ◌+◌, ◌/◌, ◌≤◌, ◌≡◌, refl, inl, inr, Bool, Option, none, some, List, [], ◌∷◌, arith, ltb, leb,
  ◌==◌, if◌then◌else◌, Bool-cases,
}
use agent_nexus.Prelude.Dict.{lookup, insert, lookup-insert}
use agent_nexus.RateLimit.{Window, RateLimiter, Reply, is_over, evict, collect, use_window}

-- Every key has one entry, as in a Go map.
abbrev pub IsDistinct : List (ℕ × Window) → Type 0
IsDistinct [] = Unit
IsDistinct ((k, v) ∷ m) = (lookup k m ≡ none) × IsDistinct m

-- The times do not decrease, and none is before `t`.
abbrev pub IsOrdered : ℕ → List (ℕ × ℕ) → Type 0
IsOrdered t [] = Unit
IsOrdered t ((now, key) ∷ rest) = (t ≤ now) × IsOrdered now rest

abbrev pub times_of : ℕ → List (ℕ × ℕ) → List ℕ
times_of key [] = []
times_of key ((now, k) ∷ rest) =
    let later = times_of key rest in if k == key then now ∷ later else later

abbrev pub replies_to : ℕ → List (ℕ × Reply) → List Reply
replies_to key [] = []
replies_to key ((k, r) ∷ rest) =
    let later = replies_to key rest in if k == key then r ∷ later else later

abbrev pub reply_of : ℕ → ℕ → Bool → Reply
reply_of limit window ok =
    if leb limit 0
    then Reply.served
    else if ok
    then Reply.served
    else Reply.too_many_requests (window / 1000000000)

abbrev pub window_after : ℕ → Option Window → Window → Option Window
window_after limit o v = if leb limit 0 then o else some v

abbrev pub alone : ℕ → ℕ → List ℕ → Option Window → List Reply
alone limit window [] o = []
alone limit window (now ∷ rest) o =
    let (v, ok) = use_window limit window now o in
    reply_of limit window ok ∷ alone limit window rest (window_after limit o v)

unless_over : ℕ → ℕ → Option Window → Option Window
unless_over window now none = none
unless_over window now (some v) = if is_over window now v then none else some v

lookup-evict :
    (window now k : ℕ) (m : List (ℕ × Window))
    → IsDistinct m
    → lookup k (evict window now m) ≡ unless_over window now (lookup k m)
unfolding unless_over
lookup-evict window now k [] d = refl
lookup-evict window now k ((j, v) ∷ m) d = ground (arith, lookup-evict window now k m d.1)

lookup-evict-none :
    (window now k : ℕ) (m : List (ℕ × Window))
    → lookup k m ≡ none
    → lookup k (evict window now m) ≡ none
lookup-evict-none window now k [] e = refl
lookup-evict-none window now k ((j, v) ∷ m) e = ground (arith, lookup-evict-none window now k m)

evict-IsDistinct :
    (window now : ℕ) (m : List (ℕ × Window)) → IsDistinct m → IsDistinct (evict window now m)
evict-IsDistinct window now [] d = tt
evict-IsDistinct window now ((j, v) ∷ m) d =
    ground (arith, evict-IsDistinct window now m d.1, lookup-evict-none window now j m d.0)

pub insert-IsDistinct :
    (k : ℕ) (v : Window) (m : List (ℕ × Window)) → IsDistinct m → IsDistinct (insert k v m)
insert-IsDistinct k v [] d = (refl, tt)
insert-IsDistinct k v ((j, w) ∷ m) d =
    ground (arith, insert-IsDistinct k v m d.1, lookup-insert k j v m)

-- What the map holds of a client, against its window in the reference: a window that is over may be
-- gone from the map.
abbrev pub Agree : ℕ → ℕ → Option Window → Option Window → Type 0
Agree window now none none = Unit
Agree window now none (some w) = w.start + window ≤ now
Agree window now (some v) none = ⊥
Agree window now (some v) (some w) = v ≡ w

pub Agree-refl : (window now : ℕ) (o : Option Window) → Agree window now o o
Agree-refl window now none = tt
Agree-refl window now (some v) = refl

pub Agree-later :
    (window t now : ℕ) (a o : Option Window) → t ≤ now → Agree window t a o → Agree window now a o
Agree-later window t now none none h g = tt
Agree-later window t now none (some w) h g = omega arith
Agree-later window t now (some v) none h g = g
Agree-later window t now (some v) (some w) h g = g

Agree-unless_over :
    (window now : ℕ) (a o : Option Window)
    → Agree window now a o
    → Agree window now (unless_over window now a) o
unfolding unless_over
Agree-unless_over window now none o g = g
Agree-unless_over window now (some v) none g = absurd g
Agree-unless_over window now (some v) (some w) g = ground arith

pub use_window-Agree :
    (limit window now : ℕ) (a o : Option Window)
    → Agree window now a o
    → use_window limit window now a ≡ use_window limit window now o
use_window-Agree limit window now none none g = refl
use_window-Agree limit window now none (some w) g = ground arith
use_window-Agree limit window now (some v) none g = absurd g
use_window-Agree limit window now (some v) (some w) g = rw g refl

pub collect-Agree :
    (t now k : ℕ) (rl : RateLimiter) (o : Option Window)
    → IsDistinct rl.hits
    → t ≤ now
    → Agree rl.window t (lookup k rl.hits) o
    → Agree rl.window now (lookup k (collect now rl).hits) o
collect-Agree t now k rl o d h g = elim (Bool-cases (ltb (rl.last_gc + rl.window) now)) [
  | inl e ↦
      rw (e, lookup-evict rl.window now k rl.hits d)
        (Agree-unless_over rl.window now (lookup k rl.hits) o
          (Agree-later rl.window t now (lookup k rl.hits) o h g))
  | inr e ↦ rw e (Agree-later rl.window t now (lookup k rl.hits) o h g)
]

pub collect-IsDistinct :
    (now : ℕ) (rl : RateLimiter) → IsDistinct rl.hits → IsDistinct (collect now rl).hits
collect-IsDistinct now rl d = ground (arith, evict-IsDistinct rl.window now rl.hits d)

pub collect_setting :
    (now : ℕ) (rl : RateLimiter)
    → ((collect now rl).limit ≡ rl.limit) × ((collect now rl).window ≡ rl.window)
collect_setting now rl = ground arith
