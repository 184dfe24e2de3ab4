-- ===== src/Runner/Recovery.antt =====
-- What a restart of the runner keeps (services/runner/main.go).
use agent_nexus.Prelude.{
  ℕ, ◌≡◌, refl, sym, ap, ◌∙◌, inl, inr, true, Option, none, some, List, [], ◌∷◌, arith, ==_refl,
  member, member-append, Bool-cases,
}
use agent_nexus.Runner.{
  Runner, Write, join_session, launch, journaled, restart, Action, step, run_runner,
}
use agent_nexus.Runner.Sound.{
  IsSound, IsHeld, IsApart, AllApart, Fits, Holds, Holds-same, restart-Holds, state, finish-Holds,
  attempt-Holds, remove-Holds,
}

join-Holds :
    (run : ℕ) (subs saved attempted : List ℕ)
    → subs ≡ saved
    → Holds
        (state (some subs) [] (some saved) attempted)
        (join_session Write.written run subs (state (some subs) [] (some saved) attempted))
join-Holds run subs saved attempted h = elim (Bool-cases (member run subs)) [
  | inl e ↦ rw e (Holds-same _ h)
  | inr e ↦ rw e (record {
    sound = refl;
    held = λ x g.
        (let k = member-append x subs (run ∷ []) in let j = ap (member x) h in ground (arith));
  })
]

launch-Holds :
    (run : ℕ) (active : Option (List ℕ)) (finishing : List (List ℕ)) (journal : Option (List ℕ))
    (attempted : List ℕ)
    → Fits active finishing journal attempted
    → (active ≡ none → finishing ≡ [])
    → Holds
        (state active finishing journal attempted)
        (launch Write.written run (state active finishing journal attempted))
launch-Holds run (some subs) [] (some saved) attempted h apart =
    join-Holds run subs saved attempted h
launch-Holds run none [] none attempted h apart = record {
  sound = refl;
  held = λ x g. ground (arith);
}
launch-Holds run none (left ∷ rest) journal attempted h apart = ground (arith, apart refl)
launch-Holds run none [] (some saved) attempted h apart = absurd h
launch-Holds run (some subs) [] none attempted h apart = absurd h
launch-Holds run (some subs) (left ∷ rest) journal attempted h apart = absurd h

step-Holds : (a : Action) (s : Runner) → IsSound s → IsApart a s → Holds s (step a s)
unfolding step
step-Holds (Action.launches Write.written run) s h apart =
    launch-Holds run s.active s.finishing s.journal s.attempted h apart
step-Holds (Action.launches Write.not_opened run) s h apart = absurd apart
step-Holds (Action.launches Write.torn run) s h apart = absurd apart
step-Holds Action.finishes s h apart = finish-Holds s.active s.finishing s.journal s.attempted h
step-Holds (Action.delivers i) s h apart =
    attempt-Holds i s.active s.finishing s.journal s.attempted h
step-Holds (Action.removes i) s h apart =
    remove-Holds i s.active s.finishing s.journal s.attempted h
step-Holds Action.restarts s h apart = restart-Holds s h

run_runner-Holds :
    (rest : List Action) (s : Runner) → IsSound s → AllApart rest s → Holds s (run_runner rest s)
unfolding run_runner
run_runner-Holds [] s h apart = Holds-same s h
run_runner-Holds (a ∷ rest) s h apart =
    let now = step-Holds a s h apart.0 in
    let later = run_runner-Holds rest (step a s) now.sound apart.1 in
    record { sound = later.sound; held = λ x g. later.held x (now.held x g) }

joined-IsHeld :
    (run : ℕ) (subs saved attempted : List ℕ)
    → subs ≡ saved
    → IsHeld run (join_session Write.written run subs (state (some subs) [] (some saved) attempted))
joined-IsHeld run subs saved attempted h = elim (Bool-cases (member run subs)) [
  | inl e ↦ rw e (inr (sym (ap (member run) h) ∙ e))
  | inr e ↦ rw e (inr (ground (arith, member-append run subs (run ∷ []), ==_refl run)))
]

launched-IsHeld :
    (run : ℕ) (active : Option (List ℕ)) (finishing : List (List ℕ)) (journal : Option (List ℕ))
    (attempted : List ℕ)
    → Fits active finishing journal attempted
    → IsHeld run (launch Write.written run (state active finishing journal attempted))
launched-IsHeld run none finishing journal attempted h = inr (ground (arith, ==_refl run))
launched-IsHeld run (some subs) [] (some saved) attempted h =
    joined-IsHeld run subs saved attempted h
launched-IsHeld run (some subs) [] none attempted h = absurd h
launched-IsHeld run (some subs) (left ∷ rest) journal attempted h = absurd h

restart-attempted : (x : ℕ) (s : Runner) → IsHeld x s → member x (restart s).attempted ≡ true
restart-attempted x s g = ground (arith, member-append x (journaled s.journal) s.attempted)

-- A runner whose journal fits its sessions starts or joins a session for a run, and then goes on by
-- launches, ends of sessions, callbacks, removals of the journal and restarts. When every journal is
-- written and no launch starts a session while an earlier one of the key is finishing, then a restart at
-- the end leaves the run with a callback attempted, there or before.
pub run_runner-restart :
    (s : Runner) (run : ℕ) (rest : List Action)
    → IsSound s
    → AllApart (Action.launches Write.written run ∷ rest) s
    → member run (restart (run_runner (Action.launches Write.written run ∷ rest) s)).attempted
      ≡ true
unfolding step run_runner
run_runner-restart s run rest h apart =
    let now = step-Holds (Action.launches Write.written run) s h apart.0 in
    let later = run_runner-Holds rest (launch Write.written run s) now.sound apart.1 in
    restart-attempted run (run_runner rest (launch Write.written run s))
      (later.held run (launched-IsHeld run s.active s.finishing s.journal s.attempted h))
