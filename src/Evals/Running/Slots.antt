-- ===== src/Evals/Running/Slots.antt =====
-- The slots of a suite's run: at most five goroutines at once, and no deadlock
-- (services/api/internal/api/handler/evals.go).
use agent_nexus.Prelude.{
  ℕ, zero, suc, ◌+◌, ◌*◌, ◌≤◌, ◌<◌, ◌≡◌, refl, ap, ◌∙◌, ◌⊎◌, inl, inr, Bool, true, false, Option,
  none, some, List, [], ◌∷◌, ◌==◌, ltb, length, count, count-set, get_elem?, set, arith, Bool-cases,
}
use agent_nexus.Evals.{EvalRun}
use agent_nexus.Evals.Running.{
  Outcome, Phase, Suite, max_concurrency, holds_slot, tally, Action, start_case, count_case,
  store_case, step, run_suite, start_suite, is_over,
}
use agent_nexus.Evals.Running.Tally.{count-append}

abbrev pub is_working : Outcome × Phase → Bool
is_working (o, Phase.working) = true
is_working (o, _) = false

-- three steps for a case that waits, two for one that works, one for one that has counted
abbrev pub steps_left : Suite → ℕ
steps_left s = 3 * length s.waiting + (count is_working s.started + count holds_slot s.started)

-- a goroutine that holds its slot
abbrev Holder : List (Outcome × Phase) → Type 0
Holder l =
    (i : ℕ) × (o : Outcome) × ((get_elem? l i ≡ some (o, Phase.working))
      ⊎ (get_elem? l i ≡ some (o, Phase.counted)))

holder : (l : List (Outcome × Phase)) → 0 < count holds_slot l → Holder l
holder [] h = absurd (omega arith)
holder ((o, Phase.working) ∷ l) h = (0, o, inl refl)
holder ((o, Phase.counted) ∷ l) h = (0, o, inr refl)
holder ((o, Phase.released) ∷ l) h = let (i, p, e) = holder l (omega arith) in (suc i, p, e)

-- a step that is left takes one
abbrev Goes : Suite → Type 0
Goes s = (a : Action) × (steps_left (step s a) + 1 ≡ steps_left s)

tally-steps_left : (o : Outcome) (s : Suite) → steps_left (tally o s) ≡ steps_left s
tally-steps_left (Outcome.passing n) s = refl
tally-steps_left (Outcome.failing n) s = refl
tally-steps_left (Outcome.errored n) s = refl

count-Goes :
    (s : Suite) (i : ℕ) (o : Outcome)
    → get_elem? s.started i ≡ some (o, Phase.working)
    → steps_left (step s (Action.counts i)) + 1 ≡ steps_left s
unfolding step
count-Goes s i o e =
    let after = record s { started = set s.started i (o, Phase.counted) } in
    rw e (
      omega (
        arith,
        tally-steps_left o after,
        count-set is_working s.started i (o, Phase.working) (o, Phase.counted) e,
        count-set holds_slot s.started i (o, Phase.working) (o, Phase.counted) e,
      ))

store-Goes :
    (s : Suite) (i : ℕ) (o : Outcome)
    → get_elem? s.started i ≡ some (o, Phase.counted)
    → steps_left (step s (Action.stores true i)) + 1 ≡ steps_left s
unfolding step
store-Goes s i o e = rw e (
    omega (
      arith,
      count-set is_working s.started i (o, Phase.counted) (o, Phase.released) e,
      count-set holds_slot s.started i (o, Phase.counted) (o, Phase.released) e,
    ))

start-Goes :
    (s : Suite) (o : Outcome) (waiting : List Outcome)
    → s.waiting ≡ o ∷ waiting
    → count holds_slot s.started ≡ 0
    → steps_left (step s Action.starts) + 1 ≡ steps_left s
unfolding step
start-Goes s o waiting e h =
    let free : ltb (count holds_slot s.started) max_concurrency ≡ true = ground (arith, h) in
    ap (λ w. steps_left (start_case w s) + 1) e
    ∙ rw free (
        omega (
          arith,
          ap length e,
          count-append is_working s.started ((o, Phase.working) ∷ []),
          count-append holds_slot s.started ((o, Phase.working) ∷ []),
        ))

Holder-Goes : (s : Suite) → Holder s.started → Goes s
Holder-Goes s (i, o, inl e) = (Action.counts i, count-Goes s i o e)
Holder-Goes s (i, o, inr e) = (Action.stores true i, store-Goes s i o e)

idle-Goes :
    (s : Suite) (waiting : List Outcome)
    → s.waiting ≡ waiting
    → count holds_slot s.started ≡ 0
    → (is_over s ≡ true) ⊎ Goes s
idle-Goes s [] e h = inl (ground (arith, h, ap length e))
idle-Goes s (o ∷ waiting) e h = inr (Action.starts, start-Goes s o waiting e h)

Goes-on : (s : Suite) → (is_over s ≡ true) ⊎ Goes s
Goes-on s = elim (Bool-cases (count holds_slot s.started == 0)) [
  | inl idle ↦ idle-Goes s s.waiting refl (ground (arith, idle))
  | inr busy ↦ inr (Holder-Goes s (holder s.started (ground (arith, busy))))
]

-- actions that complete a run
abbrev pub Completion : Suite → ℕ → Type 0
Completion s n = (more : List Action) × (length more ≤ n) × (is_over (run_suite s more) ≡ true)

completes : (n : ℕ) (s : Suite) → steps_left s ≡ n → Completion s n
unfolding run_suite
completes zero s e = elim (Goes-on s) [
  | inl over ↦ ([], omega arith, over)
  | inr (a, less) ↦ absurd (omega arith)
]
completes (suc n) s e = elim (Goes-on s) [
  | inl over ↦ ([], omega arith, over)
  | inr (a, less) ↦
      let (more, short, over) = completes n (step s a) (omega arith) in
      (a ∷ more, omega arith, over)
]

tally-started : (o : Outcome) (s : Suite) → (tally o s).started ≡ s.started
tally-started (Outcome.passing n) s = refl
tally-started (Outcome.failing n) s = refl
tally-started (Outcome.errored n) s = refl

abbrev FitsSlots : Suite → Type 0
FitsSlots s = count holds_slot s.started ≤ max_concurrency

start-FitsSlots :
    (waiting : List Outcome) (s : Suite) → FitsSlots s → FitsSlots (start_case waiting s)
start-FitsSlots [] s h = h
start-FitsSlots (o ∷ waiting) s h =
    ground (arith, count-append holds_slot s.started ((o, Phase.working) ∷ []))

count-FitsSlots :
    (x : Option (Outcome × Phase)) (i : ℕ) (s : Suite)
    → get_elem? s.started i ≡ x
    → FitsSlots s
    → FitsSlots (count_case x i s)
count-FitsSlots (some (o, Phase.working)) i s e h = omega (
  arith,
  ap (count holds_slot)
      (tally-started o (record s { started = set s.started i (o, Phase.counted) })),
  count-set holds_slot s.started i (o, Phase.working) (o, Phase.counted) e,
)
count-FitsSlots (some (o, Phase.counted)) i s e h = h
count-FitsSlots (some (o, Phase.released)) i s e h = h
count-FitsSlots none i s e h = h

store-FitsSlots :
    (x : Option (Outcome × Phase)) (ok : Bool) (i : ℕ) (s : Suite)
    → get_elem? s.started i ≡ x
    → FitsSlots s
    → FitsSlots (store_case x ok i s)
store-FitsSlots (some (o, Phase.counted)) ok i s e h =
    omega (arith, count-set holds_slot s.started i (o, Phase.counted) (o, Phase.released) e)
store-FitsSlots (some (o, Phase.working)) ok i s e h = h
store-FitsSlots (some (o, Phase.released)) ok i s e h = h
store-FitsSlots none ok i s e h = h

run_suite-FitsSlots :
    (s : Suite) (actions : List Action) → FitsSlots s → FitsSlots (run_suite s actions)
unfolding run_suite step
run_suite-FitsSlots s [] h = h
run_suite-FitsSlots s (Action.starts ∷ rest) h =
    run_suite-FitsSlots (step s Action.starts) rest (start-FitsSlots s.waiting s h)
run_suite-FitsSlots s (Action.counts i ∷ rest) h =
    run_suite-FitsSlots (step s (Action.counts i)) rest
      (count-FitsSlots (get_elem? s.started i) i s refl h)
run_suite-FitsSlots s (Action.stores ok i ∷ rest) h =
    run_suite-FitsSlots (step s (Action.stores ok i)) rest
      (store-FitsSlots (get_elem? s.started i) ok i s refl h)

-- After any steps of a suite's run, at most five goroutines hold a slot, and the run can be completed by
-- as many further steps as are left: three for a case that waits, two for one that works, and one for
-- one that has counted and not yet stored its result.
pub run_suite-completes :
    (outcomes : List Outcome) (run : EvalRun) (actions : List Action)
    → (count holds_slot (run_suite (start_suite outcomes run) actions).started ≤ 5)
      × Completion
          (run_suite (start_suite outcomes run) actions)
          (steps_left (run_suite (start_suite outcomes run) actions))
run_suite-completes outcomes run actions =
    let s = run_suite (start_suite outcomes run) actions in
    (
      run_suite-FitsSlots (start_suite outcomes run) actions (omega arith),
      completes (steps_left s) s refl,
    )
