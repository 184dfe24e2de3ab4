-- ===== src/Runner.antt =====
-- The runner of coding sessions (services/runner/main.go): the sessions of one key, their journal, and
-- the callbacks to the runs that wait for them. A subscriber is the id of its run. recoverJournals is one
-- step, before any launch.
pub mod Requests
mod Tests
pub mod Sound
pub mod Recovery
use agent_nexus.Prelude.{
  ℕ, zero, suc, ◌+◌, Bool, true, false, not, ◌&&◌, Option, none, some, List, [], ◌∷◌, ◌++◌, ◌==◌,
  ltb, leb, if◌then◌else◌, member,
}

-- The session in the map that is not done, if any, the sessions that are done with the callbacks that
-- each has still to attempt, the journal, and the runs for which a callback was attempted.
pub record Runner : Type 0 where
  pub active : Option (List ℕ)
  pub finishing : List (List ℕ)
  pub journal : Option (List ℕ)
  pub attempted : List ℕ

-- How the write of a journal ends: a file that is not opened stays as it was, and one whose write
-- stops is no JSON, so `recoverJournals` reads no subscriber in it.
pub data Write : Type 0 where
  written not_opened torn : Write

-- `saveJournalLocked`
abbrev pub save_journal : Write → List ℕ → Option (List ℕ) → Option (List ℕ)
save_journal Write.written subs journal = some subs
save_journal Write.not_opened subs journal = journal
save_journal Write.torn subs journal = none

pub data LaunchReply : Type 0 where
  already_running started : LaunchReply

abbrev pub start_session : Write → ℕ → Runner → Runner
start_session write run s = record s {
  active = some (run ∷ []);
  journal = save_journal write (run ∷ []) s.journal;
}

-- the idempotent join
abbrev pub join_session : Write → ℕ → List ℕ → Runner → Runner
join_session write run subs s = if member run subs then s else record s {
  active = some (subs ++ (run ∷ []));
  journal = save_journal write (subs ++ (run ∷ [])) s.journal;
}

-- `handleLaunch` from the lock on
abbrev pub launch : Write → ℕ → Runner → Runner
launch write run s = elim s.active [
  | none ↦ start_session write run s
  | some subs ↦ join_session write run subs s
]

abbrev pub launch_reply : Runner → LaunchReply
launch_reply s = elim s.active [
  | none ↦ LaunchReply.started
  | some subs ↦ LaunchReply.already_running
]

-- `runSession` marks the session as done and copies its subscribers.
abbrev pub finish : Runner → Runner
finish s = elim s.active [
  | none ↦ s
  | some subs ↦ record s { active = none; finishing = s.finishing ++ (subs ∷ []) }
]

-- the next subscriber of a session that is done, and the sessions without it
abbrev pub next_subscriber : ℕ → List (List ℕ) → Option (ℕ × List (List ℕ))
next_subscriber i [] = none
next_subscriber zero ([] ∷ rest) = none
next_subscriber zero ((run ∷ subs) ∷ rest) = some (run, subs ∷ rest)
next_subscriber (suc i) (subs ∷ rest) = elim (next_subscriber i rest) [
  | none ↦ none
  | some (run, later) ↦ some (run, subs ∷ later)
]

abbrev pub attempt : Option (ℕ × List (List ℕ)) → Runner → Runner
attempt none s = s
attempt (some (run, rest)) s = record s { finishing = rest; attempted = run ∷ s.attempted }

-- the sessions without one that has no callback left
abbrev pub without_done : ℕ → List (List ℕ) → Option (List (List ℕ))
without_done i [] = none
without_done zero ([] ∷ rest) = some rest
without_done zero ((run ∷ subs) ∷ rest) = none
without_done (suc i) (subs ∷ rest) = elim (without_done i rest) [
  | none ↦ none
  | some later ↦ some (subs ∷ later)
]

-- `os.Remove` of the journal at the end of `runSession`
abbrev pub remove_journal : Option (List (List ℕ)) → Runner → Runner
remove_journal none s = s
remove_journal (some rest) s = record s { finishing = rest; journal = none }

abbrev pub journaled : Option (List ℕ) → List ℕ
journaled none = []
journaled (some subs) = subs

-- A crash of the process and `recoverJournals`, which attempts the callbacks of the journal.
abbrev pub restart : Runner → Runner
restart s = record s {
  active = none;
  finishing = [];
  journal = none;
  attempted = journaled s.journal ++ s.attempted;
}

pub data Action : Type 0 where
  launches : Write → ℕ → Action
  finishes restarts : Action
  delivers removes : ℕ → Action

unfoldable pub step : Action → Runner → Runner
step (Action.launches write run) s = launch write run s
step Action.finishes s = finish s
step (Action.delivers i) s = attempt (next_subscriber i s.finishing) s
step (Action.removes i) s = remove_journal (without_done i s.finishing) s
step Action.restarts s = restart s

unfoldable pub run_runner : List Action → Runner → Runner
run_runner [] s = s
run_runner (a ∷ rest) s = run_runner rest (step a s)

abbrev pub idle_runner : Runner
idle_runner = record { active = none; finishing = []; journal = none; attempted = [] }
