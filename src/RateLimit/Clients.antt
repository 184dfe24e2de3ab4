-- ===== src/RateLimit/Clients.antt =====
-- Each client of the rate limiter by itself (services/api/internal/api/middleware/ratelimit.go): a
-- reference limiter that keeps one window and never evicts.
use agent_nexus.Prelude.{
  ℕ, ◌≤◌, ◌≡◌, refl, sym, ap, ◌∙◌, inl, inr, Bool, false, Option, List, [], ◌∷◌, arith, leb, ◌==◌,
  ==_iff, ==_refl, if◌then◌else◌, Bool-cases,
}
use agent_nexus.Prelude.Dict.{lookup, insert, lookup-insert}
use agent_nexus.RateLimit.{Window, RateLimiter, collect, use_window, allow_in, allow, handle, serve}
use agent_nexus.RateLimit.Windows.{
  IsDistinct, IsOrdered, times_of, replies_to, reply_of, window_after, alone, insert-IsDistinct,
  Agree, Agree-refl, Agree-later, use_window-Agree, collect-Agree, collect-IsDistinct,
  collect_setting,
}

abbrev used : ℕ → ℕ → RateLimiter → Window × Bool
used now k rl =
    use_window (collect now rl).limit (collect now rl).window now (lookup k (collect now rl).hits)

abbrev stored : ℕ → ℕ → RateLimiter → RateLimiter
stored now k rl = record (collect now rl) {
  hits = insert k (used now k rl).0 (collect now rl).hits;
}

handle-eq :
    (now k : ℕ) (rl : RateLimiter)
    → handle now k rl ≡ (
      (if leb rl.limit 0 then rl else stored now k rl),
      reply_of rl.limit rl.window (used now k rl).1,
    )
unfolding handle allow allow_in
handle-eq now k rl = ground arith

handle_setting :
    (now k : ℕ) (rl : RateLimiter)
    → ((handle now k rl).0.limit ≡ rl.limit) × ((handle now k rl).0.window ≡ rl.window)
handle_setting now k rl = rw (handle-eq now k rl) (ground (arith, collect_setting now rl))

handle-IsDistinct :
    (now k : ℕ) (rl : RateLimiter) → IsDistinct rl.hits → IsDistinct (handle now k rl).0.hits
handle-IsDistinct now k rl d = rw (handle-eq now k rl) (
    ground (
      arith,
      insert-IsDistinct k (used now k rl).0 (collect now rl).hits (collect-IsDistinct now rl d),
    ))

module _ (t now key : ℕ) (rl : RateLimiter) (o : Option Window) (d : IsDistinct rl.hits)
    (h : t ≤ now) (g : Agree rl.window t (lookup key rl.hits) o) where
  handle_other :
      (k : ℕ) → (k == key) ≡ false → Agree rl.window now (lookup key (handle now k rl).0.hits) o
  handle_other k e = rw (handle-eq now k rl) (
      ground (
        arith,
        Agree-later rl.window t now (lookup key rl.hits) o h g,
        collect-Agree t now key rl o d h g,
        lookup-insert k key (used now k rl).0 (collect now rl).hits,
      ))

  used_own : used now key rl ≡ use_window rl.limit rl.window now o
  used_own =
      rw ((collect_setting now rl).0, (collect_setting now rl).1)
        (use_window-Agree rl.limit rl.window now (lookup key (collect now rl).hits) o
          (collect-Agree t now key rl o d h g))

  handle_own :
      ((handle now key rl).1 ≡ reply_of rl.limit rl.window (use_window rl.limit rl.window now o).1)
      × Agree rl.window now
          (lookup key (handle now key rl).0.hits)
          (window_after rl.limit o (use_window rl.limit rl.window now o).0)
  handle_own =
      rw (handle-eq now key rl, sym used_own)
        (ground (
          arith,
          Agree-later rl.window t now (lookup key rl.hits) o h g,
          lookup-insert key key (used now key rl).0 (collect now rl).hits,
        ))

alone_setting :
    (limit other window per : ℕ) (times : List ℕ) (o : Option Window)
    → limit ≡ other
    → window ≡ per
    → alone limit window times o ≡ alone other per times o
alone_setting limit other window per times o e f = cc (e, f)

serve-Agree :
    (reqs : List (ℕ × ℕ)) (t key : ℕ) (rl : RateLimiter) (o : Option Window)
    → IsDistinct rl.hits
    → IsOrdered t reqs
    → Agree rl.window t (lookup key rl.hits) o
    → replies_to key (serve reqs rl) ≡ alone rl.limit rl.window (times_of key reqs) o
unfolding serve
serve-Agree [] t key rl o d h g = refl
serve-Agree ((now, k) ∷ rest) t key rl o d h g = elim (Bool-cases (k == key)) [
  | inl e ↦
      rw ((==_iff k key).0 e, ==_refl key, (handle_own t now key rl o d h.0 g).0)
        (ap (◌∷◌ (reply_of rl.limit rl.window (use_window rl.limit rl.window now o).1)) (
          serve-Agree rest now key (handle now key rl).0
            (window_after rl.limit o (use_window rl.limit rl.window now o).0)
            (handle-IsDistinct now key rl d) h.1
            (rw (handle_setting now key rl).1 (handle_own t now key rl o d h.0 g).1)
          ∙ alone_setting _ _ _ _ _ _ (handle_setting now key rl).0 (handle_setting now key rl).1))
  | inr e ↦ rw e (
      serve-Agree rest now key (handle now k rl).0 o (handle-IsDistinct now k rl d) h.1
        (rw (handle_setting now k rl).1 (handle_other t now key rl o d h.0 g k e))
      ∙ alone_setting _ _ _ _ _ _ (handle_setting now k rl).0 (handle_setting now k rl).1)
]

-- Whatever the requests of the other clients, the clean-ups of the map among them, each client gets
-- the replies of a limiter of its own, which keeps one window and never evicts: when the times do not
-- decrease and the map has one entry per key.
pub serve-alone :
    (reqs : List (ℕ × ℕ)) (t key : ℕ) (rl : RateLimiter)
    → IsDistinct rl.hits
    → IsOrdered t reqs
    → replies_to key (serve reqs rl)
      ≡ alone rl.limit rl.window (times_of key reqs) (lookup key rl.hits)
serve-alone reqs t key rl d h =
    serve-Agree reqs t key rl (lookup key rl.hits) d h (Agree-refl rl.window t (lookup key rl.hits))
