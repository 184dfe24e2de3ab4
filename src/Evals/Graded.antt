-- ===== src/Evals/Graded.antt =====
-- What the run of a suite says of its cases (services/api/internal/api/handler/evals.go).
use agent_nexus.Prelude.{
  ℕ, ◌+◌, ◌≡◌, refl, sym, ap, ◌∙◌, subst, Bool, true, false, Option, none, some, List, [], ◌∷◌,
  ◌++◌, ltb, if◌then◌else◌, length, count, map, arith, Bool-cases, inl, inr,
}
use mathlib.Core.List.{append-nil}
use agent_nexus.Prelude.Text.{Text}
use agent_nexus.Evals.{GradingMode, EvalCase, Grade, grade, EvalStatus, EvalRun, pending_run}
use agent_nexus.Evals.Running.{
  CaseAnswer, Outcome, outcome_of, Suite, holds_slot, Action, run_suite, start_suite, is_over,
  finish, execute_eval_run,
}
use agent_nexus.Evals.Running.Tally.{
  passes, fails, errs, IsTallied, run_suite-IsTallied, start_suite-IsTallied, count-released,
  count-fails,
}

length-nil : {A : Type 0} (l : List A) → length l ≡ 0 → l ≡ []
length-nil [] h = refl
length-nil (x ∷ l) h = absurd (omega arith)

-- what a tally says once nothing is left to do
record Says (outcomes : List Outcome) (s : Suite) : Type 0 where
  passed : s.run.passed ≡ count passes outcomes
  failed : s.run.failed ≡ count fails outcomes
  errors : s.run.error_count ≡ count errs outcomes
  listed : length s.failed_results ≡ count fails outcomes

over-Says :
    (outcomes : List Outcome) (cases : List EvalCase) (s : Suite)
    → IsTallied outcomes (pending_run cases) s
    → length s.waiting ≡ 0
    → count holds_slot s.started ≡ 0
    → Says outcomes s
over-Says outcomes cases s h w f =
    let all : map (λ x. x.0) s.started ≡ outcomes =
      sym (append-nil (map (λ x. x.0) s.started))
      ∙ (ap (λ l. map (λ x. x.0) s.started ++ l) (sym (length-nil s.waiting w)) ∙ h.all) in
    record {
      passed = omega (arith, h.passed, count-released passes s.started f, ap (count passes) all);
      failed = omega (arith, h.failed, count-released fails s.started f, ap (count fails) all);
      errors = omega (arith, h.errors, count-released errs s.started f, ap (count errs) all);
      listed = omega (arith, h.listed, count-released fails s.started f, ap (count fails) all);
    }

module _ (parse : Text → Option Grade) (mode : GradingMode) where
  -- The answer for a case passes its grade.
  abbrev pub is_passing : EvalCase × CaseAnswer → Bool
  is_passing (c, CaseAnswer.run_error e) = false
  is_passing (c, CaseAnswer.output actual judge) = (grade parse mode c actual judge).passed

  abbrev pub outcomes_for : List (EvalCase × CaseAnswer) → List Outcome
  outcomes_for cases = map (λ x. outcome_of parse mode x) cases

  count-passing :
      (cases : List (EvalCase × CaseAnswer))
      → count passes (outcomes_for cases) ≡ count is_passing cases
  count-passing [] = refl
  count-passing ((c, CaseAnswer.run_error e) ∷ cases) = omega (arith, count-passing cases)
  count-passing ((c, CaseAnswer.output actual judge) ∷ cases) =
      elim (Bool-cases (grade parse mode c actual judge).passed) [
        | inl p ↦ rw p (omega (arith, count-passing cases))
        | inr p ↦ rw p (omega (arith, count-passing cases))
      ]

abbrev pub is_error : EvalCase × CaseAnswer → Bool
is_error (c, CaseAnswer.run_error e) = true
is_error (c, CaseAnswer.output actual judge) = false

module _ (parse : Text → Option Grade) (mode : GradingMode) where
  count-errors :
      (cases : List (EvalCase × CaseAnswer))
      → count errs (outcomes_for parse mode cases) ≡ count is_error cases
  count-errors [] = refl
  count-errors ((c, CaseAnswer.run_error e) ∷ cases) = omega (arith, count-errors cases)
  count-errors ((c, CaseAnswer.output actual judge) ∷ cases) =
      elim (Bool-cases (grade parse mode c actual judge).passed) [
        | inl p ↦ rw p (omega (arith, count-errors cases))
        | inr p ↦ rw p (omega (arith, count-errors cases))
      ]

  length-outcomes :
      (cases : List (EvalCase × CaseAnswer)) → length (outcomes_for parse mode cases) ≡ length cases
  length-outcomes [] = refl
  length-outcomes (c ∷ cases) = omega (arith, length-outcomes cases)

-- The tallies and the score of a completed run, and whether its failures are analysed.
pub record Reports (passed total errors : ℕ) (run : EvalRun) (analysed : Bool) : Type 0 where
  pub completed : run.status ≡ EvalStatus.completed
  pub passed_cases : run.passed ≡ passed
  pub all_cases : run.passed + run.failed ≡ total
  pub error_cases : run.error_count ≡ errors
  pub fraction : run.score ≡ (if ltb 0 total then some (passed, total) else none)
  pub analysis : analysed ≡ ltb 0 run.failed

module _ (parse : Text → Option Grade) (mode : GradingMode)
    (cases : List (EvalCase × CaseAnswer)) where
  finish-Reports :
      (s : Suite)
      → IsTallied (outcomes_for parse mode cases) (pending_run (map (λ x. x.0) cases)) s
      → is_over s ≡ true
      → Reports
          (count (is_passing parse mode) cases)
          (length cases)
          (count is_error cases)
          (finish s).0
          (finish s).1
  finish-Reports s h over =
      let outcomes = outcomes_for parse mode cases in
      let says =
        over-Says outcomes (map (λ x. x.0) cases) s h (ground (arith, over))
          (ground (arith, over)) in
      let passed = says.passed ∙ count-passing parse mode cases in
      let all : s.run.passed + s.run.failed ≡ length cases =
        omega (
          arith,
          says.passed,
          says.failed,
          count-fails outcomes,
          length-outcomes parse mode cases,
        ) in
      record {
        completed = refl;
        passed_cases = passed;
        all_cases = all;
        error_cases = says.errors ∙ count-errors parse mode cases;
        fraction =
            ap (λ t. if ltb 0 t then some (s.run.passed, t) else s.run.score) all
            ∙ (ap (λ n. if ltb 0 (length cases) then some (n, length cases) else s.run.score) passed
                ∙ ap
                    (λ z.
                      if ltb 0 (length cases)
                      then some (count (is_passing parse mode) cases, length cases)
                      else z)
                    h.score);
        analysis = ap (ltb 0) (says.listed ∙ sym says.failed);
      }

-- When a run of a suite completes, whatever the order of its goroutines, it reports how many cases pass
-- their grade, that the others failed, how many of these ended with an error, the passing ones of all as
-- its score, and an analysis exactly if a case failed.
pub execute_eval_run-Reports :
    (parse : Text → Option Grade) (mode : GradingMode) (cases : List (EvalCase × CaseAnswer))
    (actions : List Action) (run : EvalRun) (analysed : Bool)
    → execute_eval_run true
        (outcomes_for parse mode cases)
        (pending_run (map (λ x. x.0) cases))
        actions
      ≡ some (run, analysed)
    → Reports
        (count (is_passing parse mode) cases)
        (length cases)
        (count is_error cases)
        run
        analysed
unfolding execute_eval_run
execute_eval_run-Reports parse mode cases actions run analysed h =
    let outcomes = outcomes_for parse mode cases in
    let first = pending_run (map (λ x. x.0) cases) in
    let s = run_suite (start_suite outcomes first) actions in
    elim (Bool-cases (is_over s)) [
      | inl over ↦
          let whole =
            finish-Reports parse mode cases s
              (run_suite-IsTallied outcomes first (start_suite outcomes first) actions
                (start_suite-IsTallied outcomes first))
              over in
          let full : some (finish s) ≡ some (run, analysed) =
            sym (ap (λ b. if b then some (finish s) else none) over) ∙ h in
          let e : finish s ≡ (run, analysed) = cc in
          subst
            (λ p.
              Reports (count (is_passing parse mode) cases) (length cases) (count is_error cases)
                p.0 p.1)
            e whole
      | inr going ↦
          let none_left : ◌≡◌ {A = Option (EvalRun × Bool)} none (some (run, analysed)) =
            sym (ap (λ b. if b then some (finish s) else none) going) ∙ h in
          cc
    ]
