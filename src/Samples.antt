-- ===== src/Samples.antt =====
-- Concrete values for the tests: an outside world that is easy to follow, states and tools.
use gm_agent.Prelude.{
  ℕ, zero, suc, String, true, false, none, some, [], ◌∷◌, ◌==◌, ◌||◌, ◌<+>◌, if◌then◌else◌,
}
use gm_agent.Prelude.Result.{value}
use gm_agent.Types.Json.{object, end, null}
use gm_agent.Types.Tool.{Tool, ToolCall}
use gm_agent.Types.State.{
  Goal, State, Task, ContextWindow, goal_status_pending, goal_type_user_request,
}
use gm_agent.Types.Event.{BaseEvent}
use gm_agent.External.{External}

abbrev pub unary : ℕ → String
unary zero = "O"
unary (suc n) = "I" <+> unary n

abbrev pub external : External
external = record {
  ulid = unary;
  now = λ n. n;
  unmarshal_map = λ s. if s == "{}" then some (some []) else none;
  unmarshal_path = λ s. if s == "" then none else some s;
  marshal_map = λ m. value "{}";
  unmarshal_any = λ s. if s == "{}" || s == "{ }" then some (object end) else none;
  marshal_any = λ v. "{}";
  path_base = λ s. s;
  stack = "stack";
}

abbrev pub base : BaseEvent
base = record { id = "evt_1"; type = "t"; timestamp = 7; actor = "user"; subject = "" }

abbrev pub goal : Goal
goal = record {
  id = "gol_1";
  type = goal_type_user_request;
  description = "say hello";
  priority = 0;
  status = goal_status_pending;
  source_event_id = "";
  deadline = some 9;
  max_steps = 0;
  steps_used = 0;
  created_at = 0;
  updated_at = 0;
}

abbrev pub task : Task
task = record {
  id = "tsk_1";
  goal_id = "gol_1";
  parent_id = "";
  type = "";
  description = "";
  inputs = ("path", null) ∷ [];
  status = "running";
  constraints = record {
    max_steps = 0;
    max_tokens = 0;
    timeout = 0;
    allowed_tools = [];
    policy_level = "";
  };
  result = none;
  created_at = 1;
  started_at = some 2;
  ended_at = none;
}

abbrev pub window : ContextWindow
window = record {
  messages = [];
  total_tokens = 0;
  max_tokens = 0;
  reserve_output = 0;
  last_compaction_at = none;
  compaction_count = 0;
}

abbrev pub busy : State
busy = record {
  version = 4;
  updated_at = 0;
  system_prompt = "";
  mode = "";
  plan_content = "";
  goals = goal ∷ [];
  tasks = ("tsk_1", some task) ∷ ("gone", none) ∷ [];
  artifacts = [];
  locks = [];
  context = some window;
}

abbrev pub writer : Tool
writer = record {
  name = "write_file";
  description = "";
  parameters = [];
  metadata = ("category", "filesystem") ∷ [];
  read_only = false;
}

abbrev pub reader : Tool
reader = record {
  name = "read_file";
  description = "";
  parameters = [];
  metadata = ("category", "filesystem") ∷ [];
  read_only = true;
}

abbrev pub call_of : Tool → ToolCall
call_of t = record { id = "call_1"; name = t.name; arguments = "{}" }
