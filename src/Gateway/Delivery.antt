-- ===== src/Gateway/Delivery.antt =====
-- The replies that go out: `deliverWhenComplete` (services/api/internal/api/handler/gateway.go) and
-- `SendWhatsApp` (services/api/internal/gateway/service.go). Times are nanoseconds.
mod Tests
pub mod Replies
pub mod Attempts
pub mod Sending
use agent_nexus.Prelude.{
  ℕ, zero, suc, ◌+◌, Bool, true, false, not, ◌&&◌, Option, none, some, List, [], ◌∷◌, ltb,
  if◌then◌else◌,
}
use agent_nexus.Prelude.Text.{Text, codes, is_blank, trim_space}
use agent_nexus.Run.{RunStatus}

-- five minutes
abbrev pub reply_limit : ℕ
reply_limit = 300000000000

-- One round of the ticker: the time, and the row of the run when the query succeeds.
pub record Poll : Type 0 where
  pub now : ℕ
  pub row : Option (RunStatus × Text)

pub data Delivery : Type 0 where
  polling timed_out : Delivery
  apologised answered : Text → Delivery

abbrev pub completion_reply : Text → Bool → Text
completion_reply output sent_to_other_peer =
    if sent_to_other_peer then codes "Message delivered." else output

abbrev pub error_reply : Text → Text
error_reply output =
    let reply = trim_space output in
    if is_blank reply
    then codes "Sorry, I ran into an error and couldn't complete your request. Please try again."
    else reply

-- What a status makes the loop do: the queue re-arms the deadline.
pub data Turn : Type 0 where
  rearm keep_polling reply report_error : Turn

abbrev pub turn_of : RunStatus → Turn
turn_of RunStatus.pending = Turn.rearm
turn_of RunStatus.running = Turn.keep_polling
turn_of RunStatus.approval_wait = Turn.keep_polling
turn_of RunStatus.user_input_wait = Turn.keep_polling
turn_of RunStatus.success = Turn.reply
turn_of _ = Turn.report_error

-- the loop; the Boolean is what `HasSentAgentDirectToOtherPeer` answers at the end
unfoldable pub deliver_when_complete : Bool → ℕ → List Poll → Delivery
deliver_when_complete elsewhere deadline [] = Delivery.polling
deliver_when_complete elsewhere deadline (p ∷ ps) =
    let rearmed = deliver_when_complete elsewhere (p.now + reply_limit) ps in
    let later = deliver_when_complete elsewhere deadline ps in
    if ltb deadline p.now then Delivery.timed_out else elim p.row [
      | none ↦ later
      | some (status, output) ↦ elim (turn_of status) [
        | Turn.rearm ↦ rearmed
        | Turn.keep_polling ↦ later
        | Turn.reply ↦ Delivery.answered (completion_reply output elsewhere)
        | Turn.report_error ↦ Delivery.apologised (error_reply output)
      ]
    ]

pub data AdapterAnswer : Type 0 where
  posted connecting refused : AdapterAnswer

-- The answers of the adapter to the attempts, and whether the context is done before one.
pub record Adapter : Type 0 where
  pub answers : ℕ → AdapterAnswer
  pub is_done : ℕ → Bool

pub data OutboundStatus : Type 0 where
  pending sent failed : OutboundStatus

pub record Outbound : Type 0 where
  pub status : OutboundStatus
  pub attempts : ℕ

abbrev waits_in_vain : Adapter → ℕ → Bool
waits_in_vain a zero = false
waits_in_vain a (suc n) = a.is_done (suc n)

-- The loop over the attempts, with those that are left: whether it succeeded, and how often it posted.
unfoldable pub post_attempts : Adapter → ℕ → ℕ → Bool × ℕ
post_attempts a zero attempt = (false, attempt)
post_attempts a (suc left) attempt =
    let later = post_attempts a left (attempt + 1) in
    if waits_in_vain a attempt then (false, attempt) else elim (a.answers attempt) [
      | AdapterAnswer.posted ↦ (true, attempt + 1)
      | AdapterAnswer.connecting ↦ later
      | AdapterAnswer.refused ↦ (false, attempt + 1)
    ]

-- `MarkOutbound`, its error dropped
abbrev pub mark_outbound : Bool → OutboundStatus → Outbound → Outbound
mark_outbound db_ok s row =
    if db_ok then record row { status = s; attempts = row.attempts + 1 } else row

abbrev pub fresh_outbound : Outbound
fresh_outbound = record { status = OutboundStatus.pending; attempts = 0 }

-- The row, the status that the caller is told, and the number of posts; none is a row that could not
-- be made.
unfoldable pub send_whatsapp : Bool → Bool → Adapter → Option (Outbound × OutboundStatus × ℕ)
send_whatsapp created db_ok a =
    let (ok, posts) = post_attempts a 5 0 in
    if not created
    then none
    else if ok
    then some (mark_outbound db_ok OutboundStatus.sent fresh_outbound, OutboundStatus.sent, posts)
    else some
        (mark_outbound db_ok OutboundStatus.failed fresh_outbound, OutboundStatus.failed, posts)
