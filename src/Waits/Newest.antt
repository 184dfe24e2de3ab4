-- ===== src/Waits/Newest.antt =====
-- Which goroutine a cancel stops: `runCancels` of services/api/internal/api/handler/approval.go.
use agent_nexus.Prelude.{
  ℕ, ◌≡◌, Bool, true, false, not, ◌&&◌, List, [], ◌∷◌, some, ◌==◌, member, arith,
}
use agent_nexus.Prelude.Dict.{lookup, lookup-insert, lookup-erase}
use agent_nexus.Waits.Cancels.{
  Cancels, Use, register_run_cancel, compare_and_delete, release, cancel_run, use_cancels,
}

-- The use takes the entry of `run` with pointer `p` away: another goroutine of the run registers, its
-- own goroutine ends, or the run is cancelled.
abbrev pub ends_entry : ℕ → ℕ → Use → Bool
ends_entry run p (Use.registers r) = r == run
ends_entry run p (Use.cancels r) = r == run
ends_entry run p (Use.releases r q) = r == run && q == p

abbrev pub keeps_entry : ℕ → ℕ → List Use → Bool
keeps_entry run p [] = true
keeps_entry run p (u ∷ rest) = not (ends_entry run p u) && keeps_entry run p rest

compare_and_delete-lookup :
    (run r q p : ℕ) (entries : List (ℕ × ℕ))
    → (r == run && q == p) ≡ false
    → lookup run entries ≡ some p
    → lookup run (compare_and_delete r q entries) ≡ some p
unfolding compare_and_delete
compare_and_delete-lookup run r q p entries other h = ground (arith, lookup-erase r run entries)

use_cancels-lookup :
    (run p : ℕ) (c : Cancels) (uses : List Use)
    → lookup run c.entries ≡ some p
    → keeps_entry run p uses ≡ true
    → lookup run (use_cancels c uses).entries ≡ some p
unfolding use_cancels register_run_cancel release cancel_run
use_cancels-lookup run p c [] h k = h
use_cancels-lookup run p c (Use.registers r ∷ rest) h k =
    use_cancels-lookup run p (register_run_cancel r c) rest
      (ground (arith, lookup-insert r run c.next c.entries)) (ground arith)
use_cancels-lookup run p c (Use.cancels r ∷ rest) h k =
    use_cancels-lookup run p (cancel_run r c) rest (ground (arith, lookup-erase r run c.entries))
      (ground arith)
use_cancels-lookup run p c (Use.releases r q ∷ rest) h k =
    use_cancels-lookup run p (release r q c) rest
      (compare_and_delete-lookup run r q p c.entries (ground arith) h) (ground arith)

-- After a goroutine of a run has registered, a cancel of the run stops that goroutine, whatever
-- goroutines of other runs do and whenever earlier goroutines of the same run release their entries,
-- as long as no later goroutine of the run registered, it did not release its own entry, and the run
-- was not cancelled before.
pub cancel_run-newest :
    (run : ℕ) (c : Cancels) (uses : List Use)
    → keeps_entry run c.next uses ≡ true
    → member c.next (cancel_run run (use_cancels (register_run_cancel run c) uses)).cancelled ≡ true
unfolding cancel_run register_run_cancel
cancel_run-newest run c uses k =
    let there =
      use_cancels-lookup run c.next (register_run_cancel run c) uses
        (ground (arith, lookup-insert run run c.next c.entries)) k in
    ground (arith, there)
