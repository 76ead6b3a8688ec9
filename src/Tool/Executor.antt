-- ===== src/Tool/Executor.antt =====
-- pkg/tool/executor.go: a tool call, from the registry through the policy and the user to the
-- handler. `W` is the world that handlers and the user's approval change.
pub mod Laws
use gm_agent.Prelude.{
  ℕ, ◌+◌, String, Bool, true, false, Option, none, some, List, [], ◌∷◌, ◌<+>◌, if◌then◌else◌,
}
use gm_agent.Prelude.Dict.{Dict, lookup, insert}
use gm_agent.Prelude.Result.{Result, Error, ok, err, panic, message, wrap, error_text}
use gm_agent.Types.Tool.{Tool, ToolCall, ToolResult, RuntimeMode}
use gm_agent.Tool.Registry.{Registry, get, list_tools}
use gm_agent.Tool.Policy.{Policy, PolicyAction, allow, deny, confirm, check, category_of}
use gm_agent.External.{External, generate_id}

-- `Handler`: the output, and an error or nil.
abbrev pub Handler : Type 0 → Type 0
Handler W = String → W → (String × Option Error) × W

pub record PermissionRequest : Type 0 where
  pub request_id : String
  pub tool_name : String
  pub permission : String
  pub patterns : List String
  pub metadata : Dict String

abbrev pub PermissionCallback : Type 0 → Type 0
PermissionCallback W = PermissionRequest → W → Result Bool × W

pub record Executor (W : Type 0) : Type 0 where
  pub registry : Registry
  pub policy : Policy W
  pub handlers : Dict (Handler W)
  pub permission_callback : Option (PermissionCallback W)

unfoldable pub denied_by_user : ToolCall → ToolResult
denied_by_user call = record {
  tool_call_id = call.id;
  tool_name = call.name;
  content = "Permission denied by user";
  is_error = true;
  error = "user denied permission";
}

unfoldable pub result_of : ToolCall → String × Option Error → ToolResult
result_of call (output, none) = record {
  tool_call_id = call.id;
  tool_name = call.name;
  content = output;
  is_error = false;
  error = "";
}
result_of call (output, some e) = record {
  tool_call_id = call.id;
  tool_name = call.name;
  content = output;
  is_error = true;
  error = error_text e;
}

module _ {W : Type 0} where
  unfoldable pub new_executor : Registry → Policy W → Executor W
  new_executor registry policy = record {
    registry = registry;
    policy = policy;
    handlers = [];
    permission_callback = none;
  }

  unfoldable pub set_permission_callback : PermissionCallback W → Executor W → Executor W
  set_permission_callback cb e = record e { permission_callback = some cb }

  unfoldable pub register_handler : String → Handler W → Executor W → Executor W
  register_handler name handler e = record e { handlers = insert name handler e.handlers }

  -- Steps 4 and 5 of `Execute`: the handler is looked up and run.
  unfoldable pub run_handler : Executor W → ToolCall → W → Result ToolResult × W
  unfolding result_of
  run_handler e call w = elim (lookup call.name e.handlers) [
    | none ↦ (err (message ("no handler implementation for tool: " <+> call.name)), w)
    | some handler ↦ let (out, w') = handler call.arguments w in (ok (result_of call out), w')
  ]

  unfoldable pub after_approval : Executor W → ToolCall → Result Bool → W → Result ToolResult × W
  unfolding run_handler denied_by_user
  after_approval e call (ok true) w = run_handler e call w
  after_approval e call (ok false) w = (ok (denied_by_user call), w)
  after_approval e call (err x) w = (err (wrap "permission request failed" x), w)
  after_approval e call (panic p) w = (panic p, w)

module _ (ext : External) where
  unfoldable pub permission_request : Tool → ToolCall → ℕ → PermissionRequest
  unfolding generate_id
  permission_request tool call n = record {
    request_id = generate_id ext "perm" n;
    tool_name = call.name;
    permission = category_of tool;
    patterns = call.arguments ∷ [];
    metadata = tool.metadata;
  }

module _ (ext : External) {W : Type 0} where
  -- Step 3: the user is asked. Without a callback the answer is taken to be yes.
  unfoldable pub confirm_call : Executor W → Tool → ToolCall → ℕ → W → Result ToolResult × W
  unfolding permission_request after_approval
  confirm_call e tool call n w = elim e.permission_callback [
    | none ↦ run_handler e call w
    | some ask ↦
        let (answer, w') = ask (permission_request ext tool call n) w in
        after_approval e call answer w'
  ]

  unfoldable pub act :
      Executor W → Tool → ToolCall → ℕ → W → Result PolicyAction → Result ToolResult × W
  unfolding run_handler confirm_call
  act e tool call n w (err x) = (err x, w)
  act e tool call n w (panic p) = (panic p, w)
  act e tool call n w (ok deny) =
      (err (message ("policy denied execution of tool: " <+> call.name)), w)
  act e tool call n w (ok confirm) = confirm_call e tool call n w
  act e tool call n w (ok allow) = run_handler e call w

  unfoldable pub execute : Executor W → RuntimeMode → ToolCall → ℕ → W → Result ToolResult × W
  unfolding act
  execute e mode call n w = elim (get call.name e.registry) [
    | none ↦ (err (message ("tool not found: " <+> call.name)), w)
    | some tool ↦ act e tool call n w (check ext e.policy mode call.name call.arguments w)
  ]

unfoldable pub list_definitions : {W : Type 0} → Executor W → List Tool
unfolding list_tools
list_definitions e = list_tools e.registry
