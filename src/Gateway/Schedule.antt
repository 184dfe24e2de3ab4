-- ===== src/Gateway/Schedule.antt =====
-- Messages that are sent at a time, once or again and again
-- (services/api/internal/api/handler/gateway.go, `nextScheduledFireAt` and `fireScheduledMessages`, and
-- `UpdateScheduledMessageStatus`, `RescheduleMessage` and `FetchDueScheduledMessages` in
-- services/api/internal/repository/gateway.go). An interval is Go's int as its 64 bits, so that a negative
-- one is 2 ^ 63 or more; a number of occurrences that is not positive is 0.
mod Tests
pub mod Next
pub mod Rules
pub mod Series
use agent_nexus.Prelude.{
  ℕ, zero, suc, ◌+◌, ◌-◌, ◌*◌, ◌%◌, ◌==◌, Bool, true, false, not, ◌&&◌, ◌||◌, Option, none, some,
  List, [], ◌∷◌, leb, ltb, if◌then◌else◌,
}
use agent_nexus.Gateway.Calendar.{Time, after, add_days, add_months, civil, is_weekend}

-- `unknown` stands for every text that the switch does not name.
pub data Frequency : Type 0 where
  daily weekly monthly yearly weekdays unknown : Frequency

pub record Rule : Type 0 where
  pub frequency : Frequency
  pub interval : ℕ
  pub end_at : Option Time
  pub max_occurrences : ℕ

-- 2 ^ 63 and 2 ^ 64
abbrev sign_bit : ℕ
sign_bit = 0x8000_0000_0000_0000

abbrev word : ℕ
word = 0x1_0000_0000_0000_0000

abbrev pub interval_of : Rule → ℕ
interval_of r = if r.interval == 0 || leb sign_bit r.interval then 1 else r.interval

-- 2 ^ 46 days and 2 ^ 41 months from 1970 on: the seconds of a time before fit 64 bits
abbrev pub end_of_days : ℕ
end_of_days = 0x4000_0000_0000

abbrev pub end_of_months : ℕ
end_of_months = 0x200_0000_0000

-- The loop that passes over Saturday and Sunday; two rounds reach a weekday.
abbrev pub skip_weekend : ℕ → Time → Time
skip_weekend zero t = t
skip_weekend (suc fuel) t =
    let later = skip_weekend fuel (add_days 1 t) in if is_weekend t then later else t

pub data MessageStatus : Type 0 where
  pending sent failed cancelled : MessageStatus

-- `recurrence` is none when the rule is absent or shorter than three characters; a rule that cannot be
-- read is some none.
pub record ScheduledMessage : Type 0 where
  pub send_at : Time
  pub status : MessageStatus
  pub use_agent : Bool
  pub recurrence : Option (Option Rule)
  pub occurrence_count : ℕ

-- The time of a tick, and what the database, the dispatch and the adapter answer.
pub record Tick : Type 0 where
  pub now : Time
  pub fetch_ok : Bool
  pub channel_found : Bool
  pub is_active : Bool
  pub is_whatsapp : Bool
  pub dispatch_ok : Bool
  pub send_ok : Bool
  pub write_ok : Bool

abbrev is_pending : MessageStatus → Bool
is_pending MessageStatus.pending = true
is_pending _ = false

-- the query of the messages that are due, on one message
unfoldable pub is_due : Tick → ScheduledMessage → Bool
is_due t m = is_pending m.status && not (after m.send_at t.now)

abbrev pub update_status : Tick → MessageStatus → ScheduledMessage → ScheduledMessage
update_status t s m = if t.write_ok then record m { status = s } else m

abbrev pub reschedule : Tick → Time → ℕ → ScheduledMessage → ScheduledMessage
reschedule t at count m =
    if t.write_ok then record m { send_at = at; occurrence_count = count } else m

abbrev pub settle : Tick → ScheduledMessage → ℕ → Option Time → ScheduledMessage
settle t m count none = update_status t MessageStatus.sent m
settle t m count (some at) = reschedule t at count m

abbrev pub is_past : Option Time → Time → Bool
is_past none t = false
is_past (some end) t = after t end

abbrev pub unless_past : Option Time → Option Time → Option Time
unless_past end none = none
unless_past end (some t) = if is_past end t then none else some t

-- days from a time to the day after now, which is as many rounds as the loop can take
abbrev pub rounds_to : Time → Time → ℕ
rounds_to now at = (now.day + 1) - at.day

-- What `AddDate` answers for the step of a rule with an interval when the time that it leads to, or a
-- number on the way, is before 1970 or too large.
module _ (beyond : Frequency → ℕ → Time → Time) where
  abbrev pub days_on : Frequency → ℕ → ℕ → Time → Time
  days_on f n k t = if ltb (t.day + k) end_of_days then add_days k t else beyond f n t

  -- a negative number of days
  abbrev pub days_back : Frequency → ℕ → ℕ → Time → Time
  days_back f n k t = if leb k t.day then record t { day = t.day - k } else beyond f n t

  -- `7*r.Interval` is a product of 64-bit integers, which wraps around.
  abbrev pub weeks_on : ℕ → Time → Time
  weeks_on n t =
      let k = (7 * n) % word in
      if ltb k sign_bit
      then days_on Frequency.weekly n k t
      else days_back Frequency.weekly n (word - k) t

  abbrev pub months_on : Frequency → ℕ → ℕ → Time → Time
  months_on f n k t =
      if ltb ((civil t.day).0 + k) end_of_months then add_months k t else beyond f n t

  abbrev pub step_of : Frequency → ℕ → Time → Option Time
  step_of Frequency.daily n t = some (days_on Frequency.daily n n t)
  step_of Frequency.weekly n t = some (weeks_on n t)
  step_of Frequency.monthly n t = some (months_on Frequency.monthly n n t)
  step_of Frequency.yearly n t = some (months_on Frequency.yearly n (12 * n) t)
  step_of Frequency.weekdays n t = some (skip_weekend 2 (add_days 1 t))
  step_of Frequency.unknown n t = none

  -- none is a rule that is not JSON or has no frequency
  unfoldable pub next_scheduled_fire_at : Option Rule → Time → ℕ → Option Time
  next_scheduled_fire_at none from count = none
  next_scheduled_fire_at (some r) from count =
      if ltb 0 r.max_occurrences && leb r.max_occurrences count
      then none
      else unless_past r.end_at (step_of r.frequency (interval_of r) from)

  -- The loop that catches up, on fuel. A step that moves the time forward moves it to a later day; one
  -- whose number of days has wrapped around moves it back, and then the loop of the source goes on after
  -- the fuel, where this one stops with the time that it has reached.
  unfoldable pub catch_up : ℕ → Option Rule → Time → ℕ → Option Time → Option Time
  catch_up zero r now count next = next
  catch_up (suc fuel) r now count none = none
  catch_up (suc fuel) r now count (some t) =
      let later = catch_up fuel r now count (next_scheduled_fire_at r t count) in
      if after t now then some t else later

  abbrev pub next_of : Tick → ScheduledMessage → Option Rule → Option Time
  next_of t m r =
      let count = m.occurrence_count + 1 in
      let first = next_scheduled_fire_at r m.send_at count in
      catch_up (rounds_to t.now m.send_at) r t.now count first

  abbrev pub after_delivery : Tick → ScheduledMessage → Option (Option Rule) → ScheduledMessage
  after_delivery t m none = update_status t MessageStatus.sent m
  after_delivery t m (some r) = settle t m (m.occurrence_count + 1) (next_of t m r)

  -- One message of the loop: what becomes of its row, and whether it was delivered.
  unfoldable pub fire : Tick → ScheduledMessage → ScheduledMessage × Bool
  fire t m =
      if not (t.channel_found && t.is_active)
      then (m, false)
      else if not t.is_whatsapp
      then (update_status t MessageStatus.failed m, false)
      else if if m.use_agent then t.dispatch_ok else t.send_ok
      then (after_delivery t m m.recurrence, true)
      else (update_status t MessageStatus.failed m, false)

  unfoldable pub tick : Tick → ScheduledMessage → ScheduledMessage × Bool
  tick t m = if t.fetch_ok && is_due t m then fire t m else (m, false)

  -- How often a message is delivered in a sequence of ticks.
  unfoldable pub deliveries : List Tick → ScheduledMessage → ℕ
  deliveries [] m = 0
  deliveries (t ∷ ts) m =
      let (next, delivered) = tick t m in
      if delivered then deliveries ts next + 1 else deliveries ts next
