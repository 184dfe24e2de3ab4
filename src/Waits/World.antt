-- ===== src/Waits/World.antt =====
-- Histories of a wait: the goroutine and the requests take their steps in any order.
use agent_nexus.Prelude.{ℕ, false, List, [], ◌∷◌, none, some, get_elem?, set}
use agent_nexus.Run.{Run}
use agent_nexus.Waits.Requests.{Request, Setting, Outside, World}
use agent_nexus.Waits.Goroutine.{first_step, waiter_step}
use agent_nexus.Waits.Handlers.{request_step}

pub data Action : Type 0 where
  waits : Outside → Action
  handles : ℕ → Outside → Action

unfoldable pub handle : Setting → ℕ → Outside → World → World
unfolding request_step
handle s i o w = elim (get_elem? w.requests i) [
  | none ↦ w
  | some r ↦ let (w2, r2) = request_step s o w r in record w2 { requests = set w2.requests i r2 }
]

unfoldable pub act : Setting → World → Action → World
unfolding waiter_step handle
act s w (Action.waits o) = waiter_step s o w w.waiter
act s w (Action.handles i o) = handle s i o w

unfoldable pub run_world : Setting → World → List Action → World
unfolding act
run_world s w [] = w
run_world s w (a ∷ rest) = run_world s (act s w a) rest

-- before the wait: the run is under way, nothing is saved, and the requests are still to come
abbrev pub start_world : Setting → Run → List Request → World
start_world s run requests = record {
  run = run;
  ctx_done = false;
  pending = false;
  row = none;
  slot = record { registered = false; buffer = none };
  waiter = first_step s.kind;
  requests = requests;
  executions = [];
}
