-- ===== src/Provider.antt =====
-- `Message` and `ToolCall` of services/api/internal/provider/interface.go, without inline media.
pub mod Tokens
pub mod Truncation
mod Tests
use agent_nexus.Prelude.{Bool, List}
use agent_nexus.Prelude.Text.{Text}

pub record ToolCall : Type 0 where
  pub id : Text
  pub name : Text
  pub input : Text
  pub thought_signature : Text

pub record Message : Type 0 where
  pub role : Text
  pub content : Text
  pub tool_call_id : Text
  pub tool_name : Text
  pub tool_calls : List ToolCall
  pub is_error : Bool
