-- ===== src/Waits/Slot.antt =====
-- The run's entry in `approvalRegistry` or `sessionRegistry` and the channel of the wait
-- (services/api/internal/api/handler/approval.go, session_wait.go): each function is one operation on
-- the `sync.Map` or on the channel, which has room for one value.
use agent_nexus.Prelude.{Bool, true, false, Option, none, some}

pub record Slot (A : Type 0) : Type 0 where
  pub registered : Bool
  pub buffer : Option A

module _ {A : Type 0} where
  -- `RegisterApprovalWait`, `RegisterSessionWait`: a new channel, and its entry
  unfoldable pub register : Slot A → Slot A
  register s = record { registered = true; buffer = none }

  -- `LoadAndDelete`, with whether there was an entry
  unfoldable pub load_and_delete : Slot A → Slot A × Bool
  load_and_delete s = (record s { registered = false }, s.registered)

  -- `ch <- a`: none while the channel is full
  unfoldable pub send : A → Slot A → Option (Slot A)
  send a s = elim s.buffer [ none ↦ some (record s { buffer = some a }) | some b ↦ none ]

  -- `<-ch`: the value, if there is one
  unfoldable pub receive : Slot A → Slot A × Option A
  receive s = (record s { buffer = none }, s.buffer)
