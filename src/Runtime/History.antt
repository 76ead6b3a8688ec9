-- ===== src/Runtime/History.antt =====
-- The conversation in pkg/runtime/reducer.go: how a message is added and how a tool call is found.
use gm_agent.Prelude.{String, Option, none, some, List, [], ◌∷◌, ◌++◌, ◌==◌, if◌then◌else◌}
use gm_agent.Prelude.Result.{Result, ok, panic}
use gm_agent.Types.Tool.{ToolCall}
use gm_agent.Types.State.{Message, State}

abbrev pub blank_message : Message
blank_message = record {
  id = "";
  role = "";
  content = "";
  tool_calls = [];
  tool_call_id = "";
  tool_name = "";
  token_count = 0;
  timestamp = 0;
}

abbrev pub nil_dereference : String
nil_dereference = "runtime error: invalid memory address or nil pointer dereference"

-- `newState.Context.Messages = append(newState.Context.Messages, msg)`
unfoldable pub append_message : Message → State → Result State
append_message m s = elim s.context [
  | none ↦ panic nil_dereference
  | some c ↦ ok (record s { context = some (record c { messages = c.messages ++ m ∷ [] }) })
]

-- The first tool call of that id, in the messages of the assistant, from the newest message back.
unfoldable pub find_in_calls : String → List ToolCall → Option ToolCall
find_in_calls id [] = none
find_in_calls id (tc ∷ tcs) = if tc.id == id then some tc else find_in_calls id tcs

unfoldable pub find_backwards : String → List Message → Option ToolCall
unfolding find_in_calls
find_backwards id [] = none
find_backwards id (m ∷ ms) =
    let rest = find_backwards id ms in
    if m.role == "assistant"
    then elim (find_in_calls id m.tool_calls) [ some tc ↦ some tc | none ↦ rest ]
    else rest

unfoldable pub messages_of : State → List Message
messages_of s = elim s.context [ none ↦ [] | some c ↦ c.messages ]
