-- ===== src/Evals/Tests.antt =====
-- Suites that the theorems are applied to (services/api/internal/api/handler/evals.go).
use agent_nexus.Prelude.{
  ℕ, ◌≤◌, ◌≡◌, refl, true, false, Option, none, some, List, [], ◌∷◌, count, map,
}
use agent_nexus.Prelude.Text.{Text, codes, to_lower, lower_char, trim_space, trim_left, is_space}
use agent_nexus.Evals.{
  GradingMode, EvalCase, Score, Grade, grade, Judge, JudgeEvent, ask_judge, read_judge, strip_fence,
  EvalStatus, EvalRun, pending_run, trigger_run, TriggerReply, auto_runs,
}
use agent_nexus.Evals.Running.{
  CaseAnswer, Action, holds_slot, step, run_suite, start_suite, execute_eval_run,
}
use agent_nexus.Evals.Running.Slots.{steps_left, Completion, run_suite-completes}
use agent_nexus.Evals.Graded.{outcomes_for, Reports, execute_eval_run-Reports}

abbrev no_json : Text → Option Grade
no_json reply = none

abbrev wants : ℕ → Text → EvalCase
wants id text = record { id = id; expected_output = text; grading_criteria = [] }

grade-exact :
    (grade no_json GradingMode.exact (wants 1 (codes " Yes")) (codes "yes ") none).passed ≡ true
unfolding grade to_lower lower_char trim_space trim_left is_space
grade-exact = refl

abbrev good_grade : Grade
good_grade = record { passed = true; score = Score.judged 9; reasoning = codes "fine" }

grade-judge :
    grade
      (λ reply. some good_grade)
      GradingMode.llm_judge
      (wants 1 [])
      []
      (some (Judge.streams (JudgeEvent.delta (codes "{}") ∷ [])))
    ≡ good_grade
unfolding grade ask_judge read_judge
grade-judge = refl

strip_fence-json : strip_fence (codes "```json\n{}\n```") ≡ codes "{}"
unfolding strip_fence trim_space trim_left is_space
strip_fence-json = refl

trigger_run-no_cases : trigger_run true (some []) true ≡ TriggerReply.no_cases
unfolding trigger_run
trigger_run-no_cases = refl

auto_runs-passed_over :
    auto_runs ((some [], true) ∷ (none, true) ∷ (some (wants 1 [] ∷ []), true) ∷ [])
    ≡ pending_run (wants 1 [] ∷ []) ∷ []
unfolding auto_runs
auto_runs-passed_over = refl

abbrev three : List (EvalCase × CaseAnswer)
three =
    (wants 1 (codes "yes"), CaseAnswer.output (codes "yes") none)
    ∷ (wants 2 (codes "no"), CaseAnswer.output (codes "yes") none)
    ∷ (wants 3 (codes "no"), CaseAnswer.run_error (codes "timeout"))
    ∷ []

-- the third case ends first
abbrev mixed : List Action
mixed =
    Action.starts
    ∷ Action.starts
    ∷ Action.starts
    ∷ Action.counts 2
    ∷ Action.stores true 2
    ∷ Action.counts 0
    ∷ Action.counts 1
    ∷ Action.stores false 1
    ∷ Action.stores true 0
    ∷ []

abbrev report : EvalRun
report = record {
  status = EvalStatus.completed;
  total_cases = 3;
  passed = 1;
  failed = 2;
  error_count = 1;
  score = some (1, 3);
}

abbrev of_three : EvalRun
of_three = pending_run (map (λ x. x.0) three)

execute_eval_run-Reports_example : Reports 1 3 1 report true
unfolding execute_eval_run run_suite step grade to_lower lower_char trim_space trim_left is_space
execute_eval_run-Reports_example =
    execute_eval_run-Reports no_json GradingMode.exact three mixed report true refl

run_suite-completes_example :
    (count holds_slot
        (run_suite
          (start_suite (outcomes_for no_json GradingMode.exact three) of_three)
          mixed).started
      ≤ 5)
    × Completion
        (run_suite (start_suite (outcomes_for no_json GradingMode.exact three) of_three) mixed)
        (steps_left
          (run_suite (start_suite (outcomes_for no_json GradingMode.exact three) of_three) mixed))
run_suite-completes_example =
    run_suite-completes (outcomes_for no_json GradingMode.exact three) of_three mixed
