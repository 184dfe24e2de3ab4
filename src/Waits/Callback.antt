-- ===== src/Waits/Callback.antt =====
-- The checks of `SessionCallback` and what it remembers, and `SessionProgress`
-- (services/api/internal/api/handler/session_wait.go). A callback that passes goes on as a request of
-- the waits, at `sending`.
use agent_nexus.Prelude.{Bool, not, ◌&&◌, ◌||◌, Option, none, some, if◌then◌else◌}
use agent_nexus.Prelude.Text.{Text, codes, is_blank, text_eq}
use agent_nexus.Run.{RunStatus, is_cancelled}
use agent_nexus.Waits.Requests.{Answer}

-- `sessionCallbackPayload`, the cost as its JSON text
pub record CallbackPayload : Type 0 where
  pub run_id : Text
  pub session_id : Text
  pub status : Text
  pub mode : Text
  pub repo : Text
  pub ticket_key : Text
  pub branch : Text
  pub summary : Text
  pub cost_usd : Text

-- What is written down for later sessions in the repository: `recordRepoLessons`, `recordRepoMap`.
pub data Memory : Type 0 where
  nothing lessons repo_map : Memory

pub data Verdict : Type 0 where
  refused : Answer → Verdict
  accepted : CallbackPayload → Memory → Verdict

unfoldable pub is_terminal_status : Text → Bool
is_terminal_status s =
    text_eq s (codes "success")
    || text_eq s (codes "budget-exceeded")
    || text_eq s (codes "crashed")

unfoldable pub remembered : CallbackPayload → Memory
remembered p =
    if text_eq p.status (codes "success") && not (is_blank p.repo)
    then (if text_eq p.mode (codes "review")
        then Memory.lessons
        else if is_blank p.mode
        then Memory.repo_map
        else Memory.nothing)
    else Memory.nothing

unfoldable pub check_payload : CallbackPayload → Verdict
unfolding is_terminal_status remembered
check_payload p =
    if is_blank p.run_id || is_blank p.status
    then Verdict.refused Answer.bad_request
    else if is_terminal_status p.status
    then Verdict.accepted p (remembered p)
    else Verdict.refused Answer.bad_request

-- a body that is not the JSON of a payload
unfoldable pub check_body : Option CallbackPayload → Verdict
unfolding check_payload
check_body none = Verdict.refused Answer.bad_request
check_body (some p) = check_payload p

-- `SessionCallback` up to the delivery, by the configured secret, the header and the body
unfoldable pub session_callback : Text → Text → Option CallbackPayload → Verdict
unfolding check_body
session_callback secret header body =
    if is_blank secret
    then Verdict.refused Answer.not_found
    else if text_eq header secret
    then check_body body
    else Verdict.refused Answer.unauthorized

-- `SessionProgress`: the answer, and the summary that the run's metadata is given, if any
unfoldable pub session_progress :
    Text → Text → Option (Text × Text) → RunStatus → Answer × Option Text
session_progress secret header none status =
    if is_blank secret
    then (Answer.not_found, none)
    else if text_eq header secret
    then (Answer.bad_request, none)
    else (Answer.unauthorized, none)
session_progress secret header (some (run_id, summary)) status =
    if is_blank secret
    then (Answer.not_found, none)
    else if not (text_eq header secret)
    then (Answer.unauthorized, none)
    else if is_blank run_id || is_blank summary
    then (Answer.bad_request, none)
    else (Answer.ok, if is_cancelled status then none else some summary)
