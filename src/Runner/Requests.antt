-- ===== src/Runner/Requests.antt =====
-- The requests to the runner (services/runner/main.go): the checks and the key of a launch, the journal's
-- name, and the attempts of a callback.
pub mod Keys
pub mod Callbacks
use agent_nexus.Prelude.{
  ℕ, zero, suc, ◌+◌, ◌*◌, Bool, true, false, not, ◌&&◌, ◌||◌, Option, none, some, List, [], ◌∷◌,
  ◌++◌, ◌==◌, ltb, leb, if◌then◌else◌, map, count,
}
use agent_nexus.Prelude.Text.{Text, codes, text_eq, is_blank, contains}
use agent_nexus.Prelude.Strings.{is_digit}

-- The fields that the checks and the key read.
pub record LaunchRequest : Type 0 where
  pub run_id : Text
  pub repo : Text
  pub ticket_key : Text
  pub task_description : Text
  pub callback_url : Text
  pub mode : Text
  pub head : Text

abbrev pub is_review : LaunchRequest → Bool
is_review r = text_eq r.mode (codes "review")

abbrev pub session_key : LaunchRequest → Text
session_key r =
    let key = r.ticket_key ++ (b'|' ∷ r.repo) in if is_review r then codes "review:" ++ key else key

pub data Refusal : Type 0 where
  missing_field not_owner_name missing_head : Refusal

-- The checks of `handleLaunch`, in their order.
abbrev pub check_launch : LaunchRequest → Option Refusal
check_launch r =
    if is_blank r.run_id
      || is_blank r.repo
      || is_blank r.ticket_key
      || is_blank r.task_description
      || is_blank r.callback_url
    then some Refusal.missing_field
    else if not (count (λ c. c == b'/') r.repo == 1) || contains r.repo (codes "..")
    then some Refusal.not_owner_name
    else if is_review r && is_blank r.head
    then some Refusal.missing_head
    else none

abbrev is_plain : ℕ → Bool
is_plain c =
    (leb b'a' c && leb c b'z')
    || (leb b'A' c && leb c b'Z')
    || is_digit c
    || c == b'-'
    || c == b'_'
    || c == b'.'

-- `sanitize`, on ASCII
abbrev pub sanitize : Text → Text
sanitize s = map (λ c. if is_plain c then c else b'-') s

abbrev pub journal_name : Text → Text
journal_name key = codes "journal-" ++ (sanitize key ++ codes ".json")

-- What one attempt of `deliverCallback` gets: no request, no response, or a status.
pub data Response : Type 0 where
  not_built no_response : Response
  status : ℕ → Response

pub data Verdict : Type 0 where
  delivered rejected again : Verdict

abbrev pub verdict_of : Response → Verdict
verdict_of Response.not_built = Verdict.rejected
verdict_of Response.no_response = Verdict.again
verdict_of (Response.status code) =
    if leb 200 code && ltb code 300
    then Verdict.delivered
    else if leb 400 code && ltb code 500 && not (code == 408) && not (code == 429)
    then Verdict.rejected
    else Verdict.again

pub record Callback : Type 0 where
  pub is_delivered : Bool
  pub attempts : ℕ
  pub slept : ℕ

-- what follows an attempt
abbrev pub after_attempt : Verdict → ℕ → ℕ → Callback → Callback
after_attempt Verdict.delivered made slept later = record {
  is_delivered = true;
  attempts = made;
  slept = slept;
}
after_attempt Verdict.rejected made slept later = record {
  is_delivered = false;
  attempts = made;
  slept = slept;
}
after_attempt Verdict.again made slept later = later

-- The loop with the rounds that are left, the responses to come, the attempts made, the seconds slept,
-- and the backoff.
unfoldable pub deliver_from : ℕ → (ℕ → Response) → ℕ → ℕ → ℕ → Callback
deliver_from zero answers made slept backoff = record {
  is_delivered = false;
  attempts = made;
  slept = slept;
}
deliver_from (suc n) answers made slept backoff =
    let later = deliver_from n (λ k. answers (suc k)) (made + 1) (slept + backoff) (2 * backoff) in
    after_attempt (verdict_of (answers 0)) (made + 1) slept later

unfoldable pub deliver_callback : (ℕ → Response) → Callback
deliver_callback answers = deliver_from 6 answers 0 0 2
