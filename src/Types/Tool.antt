-- ===== src/Types/Tool.antt =====
-- pkg/types: common.go, tool.go, permission.go.
use gm_agent.Prelude.{ℕ, String, Bool}
use gm_agent.Prelude.Dict.{Dict}
use gm_agent.Types.Json.{Json}

-- An instant, as the number of nanoseconds on the clock.
abbrev pub Time : Type 0
Time = ℕ

-- A 64-bit integer as its two's-complement bit pattern.
abbrev pub Int64 : Type 0
Int64 = ℕ

-- The operational modes are the texts of the type `RuntimeMode`, the empty one included.
abbrev pub RuntimeMode : Type 0
RuntimeMode = String

abbrev pub mode_planning : RuntimeMode
mode_planning = "planning"

abbrev pub mode_executing : RuntimeMode
mode_executing = "executing"

pub record Tool : Type 0 where
  pub name : String
  pub description : String
  pub parameters : Dict Json
  pub metadata : Dict String
  pub read_only : Bool

pub record ToolCall : Type 0 where
  pub id : String
  pub name : String
  pub arguments : String

pub record ToolResult : Type 0 where
  pub tool_call_id : String
  pub tool_name : String
  pub content : String
  pub is_error : Bool
  pub error : String

pub record FileChange : Type 0 where
  pub patch_id : String
  pub file_path : String
  pub backup_path : String
  pub operation : String

pub record PermissionRule : Type 0 where
  pub id : String
  pub tool_name : String
  pub action : String
  pub pattern : String
  pub created_at : Time
