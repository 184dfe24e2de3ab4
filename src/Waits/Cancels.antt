-- ===== src/Waits/Cancels.antt =====
-- `runCancels` (services/api/internal/api/handler/approval.go): the map from a run to the cancel
-- function of the goroutine that executes it. The pointers that it holds are numbers, each given out
-- once.
use agent_nexus.Prelude.{ℕ, suc, List, [], ◌∷◌, none, some, ◌==◌, if◌then◌else◌}
use agent_nexus.Prelude.Dict.{lookup, insert, erase}

-- `cancelled` has the contexts that are done.
pub record Cancels : Type 0 where
  pub entries : List (ℕ × ℕ)
  pub next : ℕ
  pub cancelled : List ℕ

-- `registerRunCancel`: the new pointer replaces the one of an earlier goroutine
unfoldable pub register_run_cancel : ℕ → Cancels → Cancels
register_run_cancel run c = record c { entries = insert run c.next c.entries; next = suc c.next }

-- `CompareAndDelete`
unfoldable pub compare_and_delete : ℕ → ℕ → List (ℕ × ℕ) → List (ℕ × ℕ)
compare_and_delete run p entries = elim (lookup run entries) [
  | none ↦ entries
  | some q ↦ if q == p then erase run entries else entries
]

-- the function that `registerRunCancel` returns
unfoldable pub release : ℕ → ℕ → Cancels → Cancels
unfolding compare_and_delete
release run p c = record c {
  entries = compare_and_delete run p c.entries;
  cancelled = p ∷ c.cancelled;
}

-- `cancelRun`
unfoldable pub cancel_run : ℕ → Cancels → Cancels
cancel_run run c = elim (lookup run c.entries) [
  | none ↦ c
  | some p ↦ record c { entries = erase run c.entries; cancelled = p ∷ c.cancelled }
]

pub data Use : Type 0 where
  registers cancels : ℕ → Use
  releases : ℕ → ℕ → Use

unfoldable pub use_cancels : Cancels → List Use → Cancels
unfolding register_run_cancel release cancel_run
use_cancels c [] = c
use_cancels c (Use.registers run ∷ rest) = use_cancels (register_run_cancel run c) rest
use_cancels c (Use.cancels run ∷ rest) = use_cancels (cancel_run run c) rest
use_cancels c (Use.releases run p ∷ rest) = use_cancels (release run p c) rest
