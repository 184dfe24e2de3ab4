-- ===== src/Gateway/Reminders.antt =====
-- The reminders that are due (services/api/internal/api/handler/gateway.go, `fireReminders`, and
-- `FetchDueReminders` in services/api/internal/repository/gateway.go).
mod Tests
pub mod Slots
use agent_nexus.Prelude.{
  ℕ, zero, suc, ◌+◌, Bool, true, false, not, ◌&&◌, Option, none, some, List, [], ◌∷◌, leb,
  if◌then◌else◌,
}
use agent_nexus.Prelude.Text.{Text, is_blank}

pub data ReminderStatus : Type 0 where
  pending completed failed cancelled : ReminderStatus

-- A reminder with what the joins of the query find: the channel's activity and the peer.
pub record DueReminder : Type 0 where
  pub status : ReminderStatus
  pub due_at : Option ℕ
  pub channel_active : Bool
  pub peer_id : Text
  pub use_agent : Bool

-- What the calls for one reminder answer.
pub record Answers : Type 0 where
  pub channel_found : Bool
  pub is_active : Bool
  pub is_whatsapp : Bool
  pub dispatch_ok : Bool
  pub send_ok : Bool
  pub write_ok : Bool

abbrev pub is_pending : ReminderStatus → Bool
is_pending ReminderStatus.pending = true
is_pending _ = false

abbrev is_reached : ℕ → Option ℕ → Bool
is_reached now none = false
is_reached now (some at) = leb at now

abbrev pub is_due : ℕ → DueReminder → Bool
is_due now r = is_pending r.status && r.channel_active && is_reached now r.due_at

abbrev pub update_status : Answers → ReminderStatus → DueReminder → DueReminder
update_status a s r = if a.write_ok then record r { status = s } else r

abbrev pub can_send : Answers → Bool
can_send a = a.channel_found && a.is_active && a.is_whatsapp

-- one round of the loop
unfoldable pub fire_reminder : Answers → DueReminder → DueReminder
fire_reminder a r =
    if is_blank r.peer_id
    then update_status a ReminderStatus.cancelled r
    else if not (can_send a)
    then r
    else if if r.use_agent then a.dispatch_ok else a.send_ok
    then update_status a ReminderStatus.completed r
    else update_status a ReminderStatus.failed r

-- The reminders in the order of their due times, each with the answers that its round would get; the
-- number is how many the query still returns.
unfoldable pub fire_due : ℕ → ℕ → List (DueReminder × Answers) → List DueReminder
fire_due now zero [] = []
fire_due now (suc slots) [] = []
fire_due now zero ((r, a) ∷ rest) = r ∷ fire_due now zero rest
fire_due now (suc slots) ((r, a) ∷ rest) =
    let fired = fire_reminder a r ∷ fire_due now slots rest in
    let passed = r ∷ fire_due now (suc slots) rest in if is_due now r then fired else passed

-- the LIMIT of the query
abbrev pub slot_limit : ℕ
slot_limit = 50

-- A tick; a query that fails fires none.
unfoldable pub fire_reminders : Bool → ℕ → List (DueReminder × Answers) → List DueReminder
fire_reminders fetch_ok now rs = fire_due now (if fetch_ok then slot_limit else 0) rs
