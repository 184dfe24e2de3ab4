-- ===== src/Waits/Goroutine.antt =====
-- The goroutine that waits: the approval gate of `executeRun`, its session wait and
-- `blockingSessionWait`, with `awaitApprovalDecision` and `awaitSessionResult`
-- (services/api/internal/api/handler/invoke.go, approval.go, session_wait.go).
use agent_nexus.Prelude.{not, ◌&&◌, ◌||◌, none, some, if◌then◌else◌}
use agent_nexus.Run.{Run, RunStatus, claim_run, set_status}
use agent_nexus.Waits.Snapshot.{WaitType, same_type, save_wait_state, delete_wait_state}
use agent_nexus.Waits.Slot.{register, load_and_delete, receive}
use agent_nexus.Waits.Requests.{Waiter, Setting, Outside, World}

abbrev wait_status : WaitType → RunStatus
wait_status WaitType.approval = RunStatus.approval_wait
wait_status WaitType.session = RunStatus.session_wait

-- A write in the goroutine's context, which the database refuses when that is done.
abbrev in_ctx : Outside → World → Run → Run
in_ctx o w r = if w.ctx_done || not o.db_ok then w.run else r

-- The steps before the goroutine blocks. A session registers first; an approval inserts its request
-- and writes the status, in one step here, and saves first.
abbrev pub first_step : WaitType → Waiter
first_step WaitType.approval = Waiter.marking
first_step WaitType.session = Waiter.registering

abbrev after_registering : Setting → Waiter
after_registering s = elim s.kind [
  | WaitType.approval ↦ Waiter.waiting
  | WaitType.session ↦ if s.parks then Waiter.saving else Waiter.marking
]

abbrev after_marking : Setting → Waiter
after_marking s = elim s.kind [
  | WaitType.approval ↦ if s.parks then Waiter.saving else Waiter.registering
  | WaitType.session ↦ Waiter.waiting
]

-- A session that cannot be saved removes its entry and fails; an approval goes on without a snapshot.
unfoldable pub save_step : Setting → Outside → World → World
unfolding save_wait_state load_and_delete
save_step s o w = elim s.kind [
  | WaitType.approval ↦ record w {
    row = if o.db_ok then save_wait_state s.snapshot w.row else w.row;
    waiter = Waiter.registering;
  }
  | WaitType.session ↦
      if o.db_ok
      then record w { row = save_wait_state s.snapshot w.row; waiter = Waiter.marking }
      else record w { slot = (load_and_delete w.slot).0; waiter = Waiter.broken }
]

-- the select over the channel and a timer
abbrev select : Outside → World → Waiter → World
select o w late =
    let (s, got) = receive w.slot in
    if o.timed_out
    then record w { waiter = late }
    else elim got [ none ↦ w | some p ↦ record w { slot = s; waiter = Waiter.received p } ]

-- the status after a wait: the child's session wait keeps a cancelled run
unfoldable pub running_again : Setting → Outside → World → Run
unfolding claim_run set_status
running_again s o w =
    if same_type WaitType.session s.kind && not s.parks
    then (if o.db_ok then (claim_run w.run).0 else w.run)
    else in_ctx o w (set_status RunStatus.running w.run)

-- A run that may not park fails when nothing came.
unfoldable pub give_up : Setting → Outside → World → World
unfolding claim_run
give_up s o w = if s.parks then w else elim s.kind [
  | WaitType.approval ↦ record w { waiter = Waiter.broken }
  | WaitType.session ↦ record w {
    run = if o.db_ok then (claim_run w.run).0 else w.run;
    waiter = Waiter.broken;
  }
]

unfoldable pub waiter_step : Setting → Outside → World → Waiter → World
unfolding save_step running_again give_up register load_and_delete receive set_status
    delete_wait_state
waiter_step s o w Waiter.registering = record w {
  slot = register w.slot;
  waiter = after_registering s;
}
waiter_step s o w Waiter.saving = save_step s o w
waiter_step s o w Waiter.marking = record w {
  run = in_ctx o w (set_status (wait_status s.kind) w.run);
  pending = w.pending || (same_type WaitType.approval s.kind && not (w.ctx_done || not o.db_ok));
  waiter = after_marking s;
}
waiter_step s o w Waiter.waiting = select o w Waiter.expired
waiter_step s o w Waiter.expired =
    let (slot, ours) = load_and_delete w.slot in
    record w { slot = slot; waiter = if ours then Waiter.reclaiming else Waiter.grace }
waiter_step s o w Waiter.grace = select o w Waiter.abandoned
waiter_step s o w Waiter.reclaiming =
    let (slot, got) = receive w.slot in
    elim got [
      | none ↦ record w { waiter = Waiter.reclaimed }
      | some p ↦ record w { slot = slot; waiter = Waiter.received p }
    ]
waiter_step s o w (Waiter.received p) = record w {
  row = if s.parks || same_type WaitType.approval s.kind then delete_wait_state w.row else w.row;
  waiter = Waiter.clearing p;
}
waiter_step s o w (Waiter.clearing p) = record w {
  run = running_again s o w;
  waiter = Waiter.continued p;
}
waiter_step s o w Waiter.reclaimed = give_up s o w
waiter_step s o w Waiter.abandoned = give_up s o w
waiter_step s o w _ = w
