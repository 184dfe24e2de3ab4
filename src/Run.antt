-- ===== src/Run.antt =====
-- The `runs` row: `domain.RunStatus` and the writes to the status column that the handlers make
-- (services/api/internal/api/handler/runs.go, invoke.go, resume.go, approval.go).
use agent_nexus.Prelude.{Bool, true, false, if◌then◌else◌}
use agent_nexus.Prelude.Text.{Text, codes}

pub data RunStatus : Type 0 where
  pending running approval_wait session_wait user_input_wait success failed cancelled : RunStatus

pub record Run : Type 0 where
  pub status : RunStatus
  pub output : Text
  pub error_message : Text

abbrev pub is_cancelled : RunStatus → Bool
is_cancelled cancelled = true
is_cancelled _ = false

-- `status IN ('pending','running','approval_wait','session_wait','user_input_wait')`
abbrev pub is_cancellable : RunStatus → Bool
is_cancellable success = false
is_cancellable failed = false
is_cancellable cancelled = false
is_cancellable _ = true

-- `failRun`
unfoldable pub fail_run : Text → Run → Run
fail_run message r =
    if is_cancelled r.status then r else record r { status = failed; error_message = message }

-- the success writes of `executeRun` and `executeGroupRun`
unfoldable pub complete_run : Text → Run → Run
complete_run output r =
    if is_cancelled r.status then r else record r { status = success; output = output }

-- `UPDATE runs SET status='running' WHERE id=$1 AND status<>'cancelled'`, with whether a row changed
unfoldable pub claim_run : Run → Run × Bool
claim_run r = if is_cancelled r.status then (r, false) else (record r { status = running }, true)

-- `Cancel`: the row, and whether one was changed
unfoldable pub cancel_row : Run → Run × Bool
cancel_row r =
    if is_cancellable r.status then (record r { status = cancelled }, true) else (r, false)

-- The writes that name no status to keep: entering and leaving a wait, and the last write of
-- `Approve`.
unfoldable pub set_status : RunStatus → Run → Run
set_status s r = record r { status = s }

unfoldable pub fail_inactive : Run → Run
fail_inactive r = record r {
  status = failed;
  error_message = codes "Approval received but run goroutine no longer active";
}
