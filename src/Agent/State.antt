-- ===== src/Agent/State.antt =====
-- What the loop of `executeRun` keeps between its steps, and what it asks of the tables that it builds
-- (services/api/internal/api/handler/invoke.go, tools_helper.go).
use agent_nexus.Prelude.{
  ℕ, suc, ◌≡◌, refl, arith, Bool, List, [], ◌∷◌, ◌++◌, Option, none, some, length, take, ltb,
  if◌then◌else◌,
}
use agent_nexus.Prelude.Text.{Text, codes, is_blank, trim_space}
use agent_nexus.Provider.{Message, ToolCall}
use agent_nexus.Workflow.Delivery.{quote_chars}

-- What happens outside the loop: an approval request is inserted, a tool or a delegate is called.
pub data Effect : Type 0 where
  asked ran delegated : Text → Effect

pub record Loop : Type 0 where
  pub messages : List Message
  pub step_count : ℕ
  pub action_log : List Text
  pub memory_save_called : Bool
  pub trace : List Effect

-- The tables of a round by a tool's name: `allowedToolNames`, the keys of `delegateHandlers`,
-- `RequiresApproval` of what `resolveDBTool` finds, `AlwaysActiveTools` and `skillToolMap`; and the
-- options of the run.
pub record Rules : Type 0 where
  pub lazy_tools : Bool
  pub allowed : Text → Bool
  pub is_delegate : Text → Bool
  pub requires_approval : Text → Bool
  pub always_active : Text → Bool
  pub skill_of : Text → Option Text
  pub max_steps : ℕ
  pub parks : Bool

-- How the wait at the approval gate ends.
pub data Approval : Type 0 where
  approved rejected timed_out : Approval

-- What a tool gives: its output, an error of its own or of its call, or `ErrRunParked`.
pub data ToolReply : Type 0 where
  output failure : Text → ToolReply
  session_parked : ToolReply

-- what comes from outside for one call of a batch
pub record Answer : Type 0 where
  pub ctx_done : Bool
  pub approval : Approval
  pub reply : ToolReply
  pub delegate_output : Text

-- how a call, or a batch of them, ends
pub data Outcome : Type 0 where
  went_on : Loop → Outcome
  failed : Text → Loop → Outcome
  parked : ℕ → Loop → Outcome

-- the next iteration, unless the loop has returned
abbrev pub proceed : Outcome → (Loop → Outcome) → Outcome
proceed (Outcome.went_on l) next = next l
proceed (Outcome.failed message l) next = Outcome.failed message l
proceed (Outcome.parked i l) next = Outcome.parked i l

pub proceed-went_on :
    (o : Outcome) (next : Loop → Outcome) (l2 : Loop)
    → proceed o next ≡ Outcome.went_on l2
    → (l : Loop) × (o ≡ Outcome.went_on l) × (next l ≡ Outcome.went_on l2)
proceed-went_on (Outcome.went_on l) next l2 h = (l, refl, h)
proceed-went_on (Outcome.failed message l) next l2 h = ground arith
proceed-went_on (Outcome.parked i l) next l2 h = ground arith

-- `summarizeToolCall`, whose 160 bytes are characters here
unfoldable pub summarize_tool_call : Text → Text → Text → Text
unfolding trim_space
summarize_tool_call name input err_msg =
    let trimmed = trim_space input in
    let short = if ltb 160 (length trimmed) then take 160 trimmed ++ codes "…" else trimmed in
    let call = name ++ codes "(" ++ short ++ codes ")" in
    if is_blank err_msg then call ++ codes " → done" else call ++ codes " → failed: " ++ err_msg

abbrev quoted : Text → Text
unfolding quote_chars
quoted t = codes "\"" ++ quote_chars t ++ codes "\""

-- `lazyToolNotActiveError`
unfoldable pub lazy_tool_not_active_error : Text → Option Text → Text
unfolding quote_chars
lazy_tool_not_active_error tool none =
    codes "tool "
    ++ quoted tool
    ++ codes " is not active this turn — call native_request_tool("
    ++ quoted tool
    ++ codes ") first, then call it again next turn."
lazy_tool_not_active_error tool (some skill) =
    codes "tool "
    ++ quoted tool
    ++ codes " is not active yet — it belongs to on-demand skill "
    ++ quoted skill
    ++ codes ". Call native_request_skill("
    ++ quoted skill
    ++ codes ") (or native_request_tool("
    ++ quoted tool
    ++ codes ")) first, then call "
    ++ quoted tool
    ++ codes " again next turn."

-- a message with the role "tool"
abbrev pub tool_message : ToolCall → Text → Bool → Message
tool_message c content is_error = record {
  role = codes "tool";
  content = content;
  tool_call_id = c.id;
  tool_name = c.name;
  tool_calls = [];
  is_error = is_error;
}

abbrev pub add_message : Message → Loop → Loop
add_message m l = record l { messages = l.messages ++ m ∷ [] }

abbrev pub note : Effect → Loop → Loop
note e l = record l { trace = l.trace ++ e ∷ [] }

-- `if !execCtx.AlwaysActiveTools[call.Name]`
unfoldable pub log_action : Rules → ToolCall → Text → Loop → Loop
unfolding summarize_tool_call
log_action r c err_msg l =
    if r.always_active c.name
    then l
    else record l { action_log = l.action_log ++ summarize_tool_call c.name c.input err_msg ∷ [] }

-- the step that a call is, with its limit
unfoldable pub count_call : Rules → Loop → Outcome
count_call r l =
    let counted : Loop = record l { step_count = suc l.step_count } in
    if ltb r.max_steps counted.step_count
    then Outcome.failed (codes "max steps exceeded") counted
    else Outcome.went_on counted
