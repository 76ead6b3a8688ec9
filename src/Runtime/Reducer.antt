-- ===== src/Runtime/Reducer.antt =====
-- pkg/runtime/reducer.go: the function from a state and an event to the next state and the commands
-- that it asks for. Go's panics, here a nil context, are a result of their own.
pub mod Parts
pub mod Answers
pub mod Laws
mod Tests
use gm_agent.Prelude.{
  ℕ, ◌+◌, ◌%◌, ◌^◌, String, Bool, false, not, ◌&&◌, Option, none, some, List, [], ◌∷◌, ◌++◌, ◌==◌,
  ◌<+>◌, any, length, if◌then◌else◌,
}
use mathlib.Core.List.{reverse}
use gm_agent.Prelude.Dict.{Dict, insert}
use gm_agent.Prelude.Result.{Result, ok, err, panic, message, ◌>>=◌}
use gm_agent.Types.Json.{Json}
use gm_agent.Types.Tool.{Time, ToolCall}
use gm_agent.Types.State.{Artifact, State, is_active}
use gm_agent.Types.Clone.{clone}
use gm_agent.Types.Event.{
  Event, UserMessageEvent, LlmResponseEvent, ToolResultEvent, user_message, system_prompt,
  llm_response, tool_result, event_timestamp,
}
use gm_agent.Types.Command.{Command, call_tool}
use gm_agent.Runtime.Goals.{new_goal, complete_goal}
use gm_agent.Runtime.History.{blank_message, append_message, find_backwards, messages_of}
use gm_agent.External.{External, generate_id, new_base_command}

pub record Reduced : Type 0 where
  pub state : State
  pub commands : List Command
  -- the number of the next identifier
  pub draws : ℕ

-- The clone that the reducer works on, with its version and its time.
unfoldable pub begin : State → Event → State
begin s e = record (clone s) { version = (s.version + 1) % 2 ^ 64; updated_at = event_timestamp e }

unfoldable pub new_artifact : String → String → String → Time → Artifact
new_artifact id name path created_at = record {
  id = id;
  type = "file";
  name = name;
  path = path;
  content = [];
  metadata = [];
  size = 0;
  task_id = "";
  goal_id = "";
  created_at = created_at;
}

-- An answer with a text and without tool calls, which ends the goal.
unfoldable pub is_direct : LlmResponseEvent → Bool
is_direct e = elim e.tool_calls [
  | [] ↦ not (e.content == "") && not (e.content == " ")
  | _ ∷ _ ↦ false
]

module _ (ext : External) where
  -- The goal of a user message, where no goal is active.
  unfoldable pub ensure_goal : String → State → ℕ → Reduced
  unfolding is_active any generate_id new_goal
  ensure_goal content s n =
      if any is_active s.goals then record { state = s; commands = []; draws = n } else record {
        state = record s { goals = s.goals ++ new_goal (generate_id ext "gol" n) content ∷ [] };
        commands = [];
        draws = n + 1;
      }

  unfoldable pub reduce_user_message : UserMessageEvent → State → ℕ → Result Reduced
  unfolding append_message ensure_goal
  reduce_user_message e s n = do
    s' ← append_message (record blank_message { role = "user"; content = e.content }) s
    ok (ensure_goal e.content s' n)

  -- The arguments of a tool call; what does not parse is the empty map.
  unfoldable pub parse_arguments : String → Option (Dict Json)
  parse_arguments text =
      if text == "" then some [] else elim (ext.unmarshal_map text) [ none ↦ some [] | some m ↦ m ]

  unfoldable pub tool_commands : List ToolCall → ℕ → List Command
  unfolding parse_arguments new_base_command
  tool_commands [] n = []
  tool_commands (tc ∷ tcs) n =
      call_tool (record {
        base = new_base_command ext "call_tool" n;
        tool_call_id = tc.id;
        tool_name = tc.name;
        arguments = parse_arguments tc.arguments;
      })
      ∷ tool_commands tcs (n + 1)

  -- What follows the message of the model: a direct answer ends the goal, and each tool call
  -- becomes a command.
  unfoldable pub respond : LlmResponseEvent → State → ℕ → Reduced
  unfolding complete_goal is_direct tool_commands
  respond e s n = record {
    state = if is_direct e then complete_goal s else s;
    commands = tool_commands e.tool_calls n;
    draws = n + length e.tool_calls;
  }

  unfoldable pub reduce_llm_response : LlmResponseEvent → State → ℕ → Result Reduced
  unfolding append_message respond
  reduce_llm_response e s n = do
    s' ←
        append_message
          (record blank_message {
            role = "assistant";
            content = if e.content == "" then " " else e.content;
            tool_calls = e.tool_calls;
          })
          s
    ok (respond e s' n)

  -- `create_file` has succeeded: the path of the call makes an artifact.
  unfoldable pub register_artifact : ToolResultEvent → State → ℕ → Reduced
  unfolding find_backwards messages_of new_artifact generate_id event_timestamp
  register_artifact e s n =
      let unchanged : Reduced = record { state = s; commands = []; draws = n } in
      elim (find_backwards e.tool_call_id (reverse (messages_of s))) [
        | none ↦ unchanged
        | some tc ↦ elim (ext.unmarshal_path tc.arguments) [
          | none ↦ unchanged
          | some path ↦ if path == "" then unchanged else record {
            state = record s {
              artifacts =
                  insert (generate_id ext "art" n)
                    (some (
                      new_artifact (generate_id ext "art" n) (ext.path_base path) path
                        (event_timestamp (tool_result e))))
                    s.artifacts;
            };
            commands = [];
            draws = n + 1;
          }
        ]
      ]

  -- What follows the message of a tool: `task_complete` ends the goal, and `create_file` makes an
  -- artifact.
  unfoldable pub conclude : ToolResultEvent → State → ℕ → Reduced
  unfolding complete_goal register_artifact
  conclude e s n =
      let s' = if e.tool_name == "task_complete" && e.success then complete_goal s else s in
      if e.tool_name == "create_file" && e.success
      then register_artifact e s' n
      else record { state = s'; commands = []; draws = n }

  unfoldable pub reduce_tool_result : ToolResultEvent → State → ℕ → Result Reduced
  unfolding append_message conclude
  reduce_tool_result e s n = do
    s' ←
        append_message
          (record blank_message {
            role = "tool";
            content = if e.success then e.output else "Error: " <+> e.error;
            tool_call_id = e.tool_call_id;
            tool_name = e.tool_name;
          })
          s
    ok (conclude e s' n)

  -- The switch on the type of the event.
  unfoldable pub reduce : Event → State → ℕ → Result Reduced
  unfolding reduce_user_message reduce_llm_response reduce_tool_result
  reduce (system_prompt e) s n =
      ok (record { state = record s { system_prompt = e.prompt }; commands = []; draws = n })
  reduce (user_message e) s n = reduce_user_message e s n
  reduce (llm_response e) s n = reduce_llm_response e s n
  reduce (tool_result e) s n = reduce_tool_result e s n
  reduce _ s n = ok (record { state = s; commands = []; draws = n })

  unfoldable pub reducer : State → Event → ℕ → Result Reduced
  unfolding begin reduce
  reducer s e n = reduce e (begin s e) n

  -- The deferred `recover` turns a panic into an error.
  abbrev recovered : Result Reduced → Result Reduced
  recovered (ok r) = ok r
  recovered (err e) = err e
  recovered (panic p) = err (message ("reducer panic: " <+> p <+> "\nstack: " <+> ext.stack))

  unfoldable pub safe_reduce : State → Event → ℕ → Result Reduced
  unfolding reducer
  safe_reduce s e n = recovered (reducer s e n)
