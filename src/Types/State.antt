-- ===== src/Types/State.antt =====
-- pkg/types/state.go: the snapshot on which all decisions of the runtime are made. A nil slice is
-- the empty list, a pointer is an `Option`, and a nil map is the empty map.
use gm_agent.Prelude.{ℕ, String, Bool, Option, none, List, [], ◌||◌, ◌==◌}
use gm_agent.Prelude.Dict.{Dict}
use gm_agent.Types.Json.{Json}
use gm_agent.Types.Tool.{Time, Int64, RuntimeMode, ToolCall, FileChange}

abbrev pub GoalType : Type 0
GoalType = String

abbrev pub goal_type_user_request : GoalType
goal_type_user_request = "user_request"

abbrev pub GoalStatus : Type 0
GoalStatus = String

abbrev pub goal_status_pending : GoalStatus
goal_status_pending = "pending"

abbrev pub goal_status_in_progress : GoalStatus
goal_status_in_progress = "in_progress"

abbrev pub goal_status_completed : GoalStatus
goal_status_completed = "completed"

pub record Goal : Type 0 where
  pub id : String
  pub type : GoalType
  pub description : String
  pub priority : Int64
  pub status : GoalStatus
  pub source_event_id : String
  pub deadline : Option Time
  pub max_steps : Int64
  pub steps_used : Int64
  pub created_at : Time
  pub updated_at : Time

pub record TaskConstraints : Type 0 where
  pub max_steps : Int64
  pub max_tokens : Int64
  pub timeout : Int64
  pub allowed_tools : List String
  pub policy_level : String

pub record TaskError : Type 0 where
  pub code : String
  pub message : String
  pub details : Json

pub record TaskStats : Type 0 where
  pub steps : Int64
  pub tokens_used : Int64
  pub tool_calls : Int64
  pub duration : Int64

pub record TaskResult : Type 0 where
  pub status : String
  pub summary : String
  pub artifacts : List String
  pub error : Option TaskError
  pub stats : TaskStats

pub record Task : Type 0 where
  pub id : String
  pub goal_id : String
  pub parent_id : String
  pub type : String
  pub description : String
  pub inputs : Dict Json
  pub status : String
  pub constraints : TaskConstraints
  pub result : Option TaskResult
  pub created_at : Time
  pub started_at : Option Time
  pub ended_at : Option Time

pub record Message : Type 0 where
  pub id : String
  pub role : String
  pub content : String
  pub tool_calls : List ToolCall
  pub tool_call_id : String
  pub tool_name : String
  pub token_count : Int64
  pub timestamp : Time

pub record ContextWindow : Type 0 where
  pub messages : List Message
  pub total_tokens : Int64
  pub max_tokens : Int64
  pub reserve_output : Int64
  pub last_compaction_at : Option Time
  pub compaction_count : Int64

pub record Lock : Type 0 where
  pub resource : String
  pub owner : String
  pub type : String
  pub acquired_at : Time
  pub expires_at : Time

pub record Artifact : Type 0 where
  pub id : String
  pub type : String
  pub name : String
  pub path : String
  pub content : List ℕ
  pub metadata : Dict String
  pub size : Int64
  pub task_id : String
  pub goal_id : String
  pub created_at : Time

pub record State : Type 0 where
  pub version : Int64
  pub updated_at : Time
  pub system_prompt : String
  pub mode : RuntimeMode
  pub plan_content : String
  pub goals : List Goal
  pub tasks : Dict (Option Task)
  pub artifacts : Dict (Option Artifact)
  pub locks : Dict (Option Lock)
  pub context : Option ContextWindow

unfoldable pub new_state : Time → State
new_state now = record {
  version = 0;
  updated_at = now;
  system_prompt = "";
  mode = "";
  plan_content = "";
  goals = [];
  tasks = [];
  artifacts = [];
  locks = [];
  context = Option.some (record {
    messages = [];
    total_tokens = 0;
    max_tokens = 0;
    reserve_output = 0;
    last_compaction_at = none;
    compaction_count = 0;
  });
}

-- The test that `reducer` and `selectGoal` make of a goal.
unfoldable pub is_active : Goal → Bool
is_active g = g.status == goal_status_pending || g.status == goal_status_in_progress

-- `Checkpoint` of pkg/types/tool.go.
pub record Checkpoint : Type 0 where
  pub id : String
  pub state_version : Int64
  pub last_event_id : String
  pub timestamp : Time
  pub state : Option State
  pub file_changes : List FileChange
