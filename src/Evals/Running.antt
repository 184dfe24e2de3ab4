-- ===== src/Evals/Running.antt =====
-- The run of a suite, executeEvalRun (services/api/internal/api/handler/evals.go): goroutines for the
-- cases, of which five hold a slot at once, and the lock under which they count.
pub mod Tally
pub mod Slots
use agent_nexus.Prelude.{
  ℕ, zero, suc, ◌+◌, Bool, true, false, not, ◌&&◌, ◌||◌, Option, none, some, List, [], ◌∷◌, ◌++◌,
  ◌==◌, ltb, if◌then◌else◌, length, count, get_elem?, set, map,
}
use agent_nexus.Prelude.Text.{Text}
use agent_nexus.Evals.{GradingMode, EvalCase, Judge, Grade, grade, EvalStatus, EvalRun}

-- What RunAgentSync and the judge answer for a case.
pub data CaseAnswer : Type 0 where
  run_error : Text → CaseAnswer
  output : Text → Option Judge → CaseAnswer

pub data Outcome : Type 0 where
  errored passing failing : ℕ → Outcome

abbrev pub outcome_of : (Text → Option Grade) → GradingMode → EvalCase × CaseAnswer → Outcome
outcome_of parse mode (c, CaseAnswer.run_error e) = Outcome.errored c.id
outcome_of parse mode (c, CaseAnswer.output actual judge) =
    if (grade parse mode c actual judge).passed then Outcome.passing c.id else Outcome.failing c.id

-- the run of the agent and the grading; counted under the lock; the result stored and the slot released
pub data Phase : Type 0 where
  working counted released : Phase

pub record Suite : Type 0 where
  pub started : List (Outcome × Phase)
  pub waiting : List Outcome
  pub run : EvalRun
  pub failed_results : List ℕ
  pub results : List ℕ

abbrev pub max_concurrency : ℕ
max_concurrency = 5

abbrev pub holds_slot : Outcome × Phase → Bool
holds_slot (o, Phase.released) = false
holds_slot (o, _) = true

abbrev pub case_of : Outcome → ℕ
case_of (Outcome.errored i) = i
case_of (Outcome.passing i) = i
case_of (Outcome.failing i) = i

-- the block under the lock
abbrev pub tally : Outcome → Suite → Suite
tally (Outcome.errored i) s = record s {
  run = record s.run { error_count = s.run.error_count + 1; failed = s.run.failed + 1 };
  failed_results = i ∷ s.failed_results;
}
tally (Outcome.passing i) s = record s { run = record s.run { passed = s.run.passed + 1 } }
tally (Outcome.failing i) s = record s {
  run = record s.run { failed = s.run.failed + 1 };
  failed_results = i ∷ s.failed_results;
}

pub data Action : Type 0 where
  starts : Action
  counts : ℕ → Action
  stores : Bool → ℕ → Action

-- the loop over the cases, which waits for a slot
abbrev pub start_case : List Outcome → Suite → Suite
start_case [] s = s
start_case (o ∷ waiting) s =
    if ltb (count holds_slot s.started) max_concurrency
    then record s { started = s.started ++ ((o, Phase.working) ∷ []); waiting = waiting }
    else s

abbrev pub count_case : Option (Outcome × Phase) → ℕ → Suite → Suite
count_case (some (o, Phase.working)) i s =
    tally o (record s { started = set s.started i (o, Phase.counted) })
count_case _ i s = s

abbrev pub store_case : Option (Outcome × Phase) → Bool → ℕ → Suite → Suite
store_case (some (o, Phase.counted)) ok i s = record s {
  started = set s.started i (o, Phase.released);
  results = if ok then case_of o ∷ s.results else s.results;
}
store_case _ ok i s = s

unfoldable pub step : Suite → Action → Suite
step s Action.starts = start_case s.waiting s
step s (Action.counts i) = count_case (get_elem? s.started i) i s
step s (Action.stores ok i) = store_case (get_elem? s.started i) ok i s

unfoldable pub run_suite : Suite → List Action → Suite
run_suite s [] = s
run_suite s (a ∷ rest) = run_suite (step s a) rest

abbrev pub start_suite : List Outcome → EvalRun → Suite
start_suite outcomes run = record {
  started = [];
  waiting = outcomes;
  run = record run { status = EvalStatus.running };
  failed_results = [];
  results = [];
}

abbrev pub is_released : Outcome × Phase → Bool
is_released (o, Phase.released) = true
is_released (o, _) = false

-- what `wg.Wait` waits for
abbrev pub is_over : Suite → Bool
is_over s = length s.waiting == 0 && count holds_slot s.started == 0

-- what follows `wg.Wait`: the run, and whether the failed cases are analysed
abbrev pub finish : Suite → EvalRun × Bool
finish s =
    let total = s.run.passed + s.run.failed in
    (
      record s.run {
        score = if ltb 0 total then some (s.run.passed, total) else s.run.score;
        status = EvalStatus.completed;
      },
      ltb 0 (length s.failed_results),
    )

-- `executeEvalRun`, with whether the agent is found, and the steps of the goroutines
unfoldable pub execute_eval_run :
    Bool → List Outcome → EvalRun → List Action → Option (EvalRun × Bool)
execute_eval_run found outcomes run actions =
    let s = run_suite (start_suite outcomes run) actions in
    if found
    then (if is_over s then some (finish s) else none)
    else some (record run { status = EvalStatus.failed }, false)
