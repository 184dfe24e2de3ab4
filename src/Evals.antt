-- ===== src/Evals.antt =====
-- Grading of one case, and the requests that start the run of a suite
-- (services/api/internal/api/handler/evals.go). The JSON of a judge is read by a parameter.
pub mod Running
pub mod Graded
mod Tests
use agent_nexus.Prelude.{
  ℕ, Bool, true, false, Option, none, some, List, [], ◌∷◌, ◌++◌, if◌then◌else◌, length,
}
use agent_nexus.Prelude.Text.{
  Text, codes, text_eq, is_blank, to_lower, trim_space, has_prefix, has_suffix, contains,
}
use agent_nexus.Prelude.Strings.{trim_prefix, trim_suffix}

pub data GradingMode : Type 0 where
  exact contains_text llm_judge : GradingMode

pub record EvalCase : Type 0 where
  pub id : ℕ
  pub expected_output : Text
  pub grading_criteria : Text

-- a score by a number, as the judge's JSON has it
pub data Score : Type 0 where
  zero_score full_score : Score
  judged : ℕ → Score

pub record Grade : Type 0 where
  pub passed : Bool
  pub score : Score
  pub reasoning : Text

abbrev pub refusal : Text → Grade
refusal reasoning = record { passed = false; score = Score.zero_score; reasoning = reasoning }

abbrev pub verdict : Bool → Text → Text → Grade
verdict passed yes_text no_text =
    if passed
    then record { passed = true; score = Score.full_score; reasoning = yes_text }
    else refusal no_text

-- An event of a judge's stream; one of an error has the error, without which the loop panics.
pub data JudgeEvent : Type 0 where
  delta error : Text → JudgeEvent
  other : JudgeEvent

-- The stream of a judge: the reply, or the grade of an error.
pub data Judgement : Type 0 where
  replied : Text → Judgement
  failed : Grade → Judgement

unfoldable pub read_judge : List JudgeEvent → Text → Judgement
read_judge [] reply = Judgement.replied reply
read_judge (JudgeEvent.delta d ∷ rest) reply = read_judge rest (reply ++ d)
read_judge (JudgeEvent.error e ∷ rest) reply =
    Judgement.failed (refusal (codes "judge LLM error: " ++ e))
read_judge (JudgeEvent.other ∷ rest) reply = read_judge rest reply

-- the fence of a code block around the reply
unfoldable pub strip_fence : Text → Text
strip_fence reply =
    let raw = trim_space reply in
    if has_prefix raw (codes "```")
    then trim_space
        (trim_suffix (trim_prefix (trim_prefix raw (codes "```json")) (codes "```")) (codes "```"))
    else raw

-- What `llm.Complete` does: it refuses, or it streams.
pub data Judge : Type 0 where
  refuses : Text → Judge
  streams : List JudgeEvent → Judge

module _ (parse : Text → Option Grade) where
  abbrev pub parsed : Judgement → Grade
  parsed (Judgement.failed g) = g
  parsed (Judgement.replied reply) = elim (parse (strip_fence reply)) [
    | none ↦ refusal (codes "failed to parse judge response")
    | some g ↦ g
  ]

  -- `llmJudge`, after the prompt
  unfoldable pub ask_judge : Judge → Grade
  ask_judge (Judge.refuses e) = refusal (codes "judge LLM call failed: " ++ e)
  ask_judge (Judge.streams events) = parsed (read_judge events [])

  -- `grade`; the judge is `none` when there is no provider.
  unfoldable pub grade : GradingMode → EvalCase → Text → Option Judge → Grade
  grade GradingMode.exact c actual llm =
      verdict (text_eq (trim_space (to_lower actual)) (trim_space (to_lower c.expected_output)))
        (codes "Exact match") (codes "Output did not exactly match expected")
  grade GradingMode.contains_text c actual llm =
      verdict (contains (to_lower actual) (to_lower c.expected_output))
        (codes "Output contains expected text") (codes "Output did not contain expected text")
  grade GradingMode.llm_judge c actual none =
      refusal (codes "no LLM provider available for judging")
  grade GradingMode.llm_judge c actual (some judge) = ask_judge judge

pub data EvalStatus : Type 0 where
  pending running completed failed : EvalStatus

-- The score is a fraction.
pub record EvalRun : Type 0 where
  pub status : EvalStatus
  pub total_cases : ℕ
  pub passed : ℕ
  pub failed : ℕ
  pub error_count : ℕ
  pub score : Option (ℕ × ℕ)

abbrev pub pending_run : List EvalCase → EvalRun
pending_run cases = record {
  status = EvalStatus.pending;
  total_cases = length cases;
  passed = 0;
  failed = 0;
  error_count = 0;
  score = none;
}

pub data TriggerReply : Type 0 where
  not_found no_cases not_created : TriggerReply
  accepted : EvalRun → TriggerReply

-- `TriggerRun`, with whether the suite is found, its cases, and whether the row is inserted
unfoldable pub trigger_run : Bool → Option (List EvalCase) → Bool → TriggerReply
trigger_run found none created = if found then TriggerReply.no_cases else TriggerReply.not_found
trigger_run found (some []) created =
    if found then TriggerReply.no_cases else TriggerReply.not_found
trigger_run found (some (c ∷ cases)) created =
    if found
    then (if created
        then TriggerReply.accepted (pending_run (c ∷ cases))
        else TriggerReply.not_created)
    else TriggerReply.not_found

-- `TriggerAutoRunsForAgent`: the suites that can be started are, and the others are passed over.
unfoldable pub auto_runs : List (Option (List EvalCase) × Bool) → List EvalRun
auto_runs [] = []
auto_runs ((none, created) ∷ suites) = auto_runs suites
auto_runs ((some [], created) ∷ suites) = auto_runs suites
auto_runs ((some (c ∷ cases), created) ∷ suites) =
    let rest = auto_runs suites in if created then pending_run (c ∷ cases) ∷ rest else rest
