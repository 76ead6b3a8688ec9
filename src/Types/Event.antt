-- ===== src/Types/Event.antt =====
-- pkg/types/event.go: an event is one of the structs that embed `BaseEvent`.
use gm_agent.Prelude.{String, Bool, List}
use gm_agent.Prelude.Dict.{Dict}
use gm_agent.Types.Tool.{Time, Int64, RuntimeMode, ToolCall}
use gm_agent.Types.State.{Task}

pub record BaseEvent : Type 0 where
  pub id : String
  pub type : String
  pub timestamp : Time
  pub actor : String
  pub subject : String

pub record Usage : Type 0 where
  pub prompt_tokens : Int64
  pub completion_tokens : Int64
  pub total_tokens : Int64

pub record UserMessageEvent : Type 0 where
  pub base : BaseEvent
  pub content : String
  pub priority : Int64
  pub semantic : String

pub record SystemPromptEvent : Type 0 where
  pub base : BaseEvent
  pub prompt : String

pub record LlmResponseEvent : Type 0 where
  pub base : BaseEvent
  pub model : String
  pub content : String
  pub tool_calls : List ToolCall
  pub usage : Usage

pub record LlmTokenEvent : Type 0 where
  pub base : BaseEvent
  pub delta : String

pub record ToolResultEvent : Type 0 where
  pub base : BaseEvent
  pub tool_call_id : String
  pub tool_name : String
  pub success : Bool
  pub output : String
  pub error : String
  pub duration : Int64

pub record ErrorEvent : Type 0 where
  pub base : BaseEvent
  pub command_id : String
  pub error : String
  pub severity : String

pub record CheckpointEvent : Type 0 where
  pub base : BaseEvent
  pub checkpoint_id : String
  pub state_version : Int64

pub record PermissionRequestEvent : Type 0 where
  pub base : BaseEvent
  pub request_id : String
  pub tool_name : String
  pub permission : String
  pub patterns : List String
  pub metadata : Dict String

pub record PermissionResponseEvent : Type 0 where
  pub base : BaseEvent
  pub request_id : String
  pub approved : Bool
  pub always : Bool

pub record PlanGeneratedEvent : Type 0 where
  pub base : BaseEvent
  pub goal_id : String
  pub plan_content : String
  pub tasks : List Task

pub record PlanApprovedEvent : Type 0 where
  pub base : BaseEvent
  pub goal_id : String

pub record PlanRejectedEvent : Type 0 where
  pub base : BaseEvent
  pub goal_id : String
  pub feedback : String

pub record ModeTransitionEvent : Type 0 where
  pub base : BaseEvent
  pub from_mode : RuntimeMode
  pub to_mode : RuntimeMode
  pub reason : String

-- The interface `Event`: the concrete types behind it, a bare `BaseEvent` included.
pub data Event : Type 0 where
  user_message : UserMessageEvent → Event
  system_prompt : SystemPromptEvent → Event
  llm_response : LlmResponseEvent → Event
  llm_token : LlmTokenEvent → Event
  tool_result : ToolResultEvent → Event
  error : ErrorEvent → Event
  checkpoint : CheckpointEvent → Event
  permission_request : PermissionRequestEvent → Event
  permission_response : PermissionResponseEvent → Event
  plan_generated : PlanGeneratedEvent → Event
  plan_approved : PlanApprovedEvent → Event
  plan_rejected : PlanRejectedEvent → Event
  mode_transition : ModeTransitionEvent → Event
  plain : BaseEvent → Event

unfoldable pub base_of : Event → BaseEvent
base_of (user_message e) = e.base
base_of (system_prompt e) = e.base
base_of (llm_response e) = e.base
base_of (llm_token e) = e.base
base_of (tool_result e) = e.base
base_of (error e) = e.base
base_of (checkpoint e) = e.base
base_of (permission_request e) = e.base
base_of (permission_response e) = e.base
base_of (plan_generated e) = e.base
base_of (plan_approved e) = e.base
base_of (plan_rejected e) = e.base
base_of (mode_transition e) = e.base
base_of (plain b) = b

unfoldable pub event_id : Event → String
unfolding base_of
event_id e = (base_of e).id

unfoldable pub event_timestamp : Event → Time
unfolding base_of
event_timestamp e = (base_of e).timestamp
