-- ===== src/Waits/Snapshot.antt =====
-- `runWaitState` and the row of `run_wait_states` of one run
-- (services/api/internal/api/handler/wait_state.go). The JSON of the snapshot is not part of the
-- model: what is read back is what was written.
use agent_nexus.Prelude.{
  ℕ, Bool, true, false, not, List, Option, none, some, length, ltb, if◌then◌else◌,
}
use agent_nexus.Prelude.Text.{Text}
use agent_nexus.Provider.{Message, ToolCall}

-- Go's int, of which the checks below use the sign.
pub data ℤ : Type 0 where
  pos : ℕ → ℤ
  negsuc : ℕ → ℤ

pub data WaitType : Type 0 where
  approval session : WaitType

abbrev pub same_type : WaitType → WaitType → Bool
same_type approval approval = true
same_type session session = true
same_type approval session = false
same_type session approval = false

-- `runWaitState`, without the version
pub record WaitState : Type 0 where
  pub wait_type : WaitType
  pub workspace_id : ℕ
  pub user_id : ℕ
  pub agent_id : ℕ
  pub conversation_id : ℕ
  pub input : Text
  pub messages : List Message
  pub stable_system : Text
  pub pending_calls : List ToolCall
  pub call_index : ℤ
  pub step_count : ℕ
  pub total_input : ℕ
  pub total_output : ℕ
  pub action_log : List Text
  pub memory_save_called : Bool
  pub requested_tools : List Text
  pub active_skills : List Text
  pub active_memory_ids : List Text

-- `saveWaitState`: the upsert
unfoldable pub save_wait_state : WaitState → Option WaitState → Option WaitState
save_wait_state st row = some st

-- `claimWaitState`: the row after it, and the snapshot if there was one of that type
unfoldable pub claim_wait_state : WaitType → Option WaitState → Option WaitState × Option WaitState
claim_wait_state k none = (none, none)
claim_wait_state k (some st) = if same_type k st.wait_type then (none, some st) else (some st, none)

-- `deleteWaitState`
unfoldable pub delete_wait_state : Option WaitState → Option WaitState
delete_wait_state row = none

-- the test of the pending call in `ResumeApprovedRun` and `ResumeSessionRun`
abbrev in_calls : ℤ → List ToolCall → Bool
in_calls (pos i) calls = ltb i (length calls)
in_calls (negsuc i) calls = false

unfoldable pub is_corrupt : WaitState → Bool
is_corrupt st = not (in_calls st.call_index st.pending_calls)
