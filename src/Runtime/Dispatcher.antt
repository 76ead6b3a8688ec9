-- ===== src/Runtime/Dispatcher.antt =====
-- pkg/runtime/dispatcher.go: how commands are carried out and which events they produce.
pub mod Laws
use gm_agent.Prelude.{
  ℕ, ◌+◌, String, Bool, true, false, Option, none, some, List, [], ◌∷◌, ◌++◌, ◌==◌, ◌<+>◌,
  if◌then◌else◌,
}
use gm_agent.Prelude.Dict.{Dict}
use gm_agent.Prelude.Result.{Error, Reply, value, failed, wrap, error_text}
use gm_agent.Types.Json.{Json}
use gm_agent.Types.Tool.{RuntimeMode, ToolCall, ToolResult}
use gm_agent.Types.Event.{Event, Usage, llm_response, llm_token, tool_result, error}
use gm_agent.Types.Command.{
  Command, CallLlmCommand, CallToolCommand, call_llm, call_tool, command_id,
}
use gm_agent.Runtime.Services.{Services, ChatRequest, ChatResponse, StreamChunk}
use gm_agent.External.{External, new_base_event}

abbrev no_usage : Usage
no_usage = record { prompt_tokens = 0; completion_tokens = 0; total_tokens = 0 }

-- What a stream has brought so far.
pub record Received (W : Type 0) : Type 0 where
  pub content : String
  pub tool_calls : List ToolCall
  pub draws : ℕ
  pub world : W

-- The events of a command, the next identifier and the world.
pub record Outcome (W : Type 0) : Type 0 where
  pub events : Reply (List Event)
  pub draws : ℕ
  pub world : W

module _ (ext : External) {W : Type 0} (srv : Services W) where
  -- One chunk: a token event is logged at once, and a failure to log it is only reported.
  unfoldable pub receive : StreamChunk → Received W → Received W
  unfolding new_base_event
  receive chunk got =
      let token = llm_token (record {
        base = new_base_event ext "llm_token" "llm" "" got.draws;
        delta = chunk.content;
      }) in
      let (_, logged) = srv.store.append_event token got.world in
      if chunk.content == ""
      then record got { tool_calls = got.tool_calls ++ chunk.tool_calls }
      else record {
        content = got.content <+> chunk.content;
        tool_calls = got.tool_calls ++ chunk.tool_calls;
        draws = got.draws + 1;
        world = logged;
      }

  unfoldable pub consume : List StreamChunk → Received W → Received W
  unfolding receive
  consume [] got = got
  consume (chunk ∷ chunks) got = consume chunks (receive chunk got)

  unfoldable pub create_response_event : ChatResponse → ℕ → Event
  unfolding new_base_event
  create_response_event resp n = llm_response (record {
    base = new_base_event ext "llm_response" "llm" "" n;
    model = resp.model;
    content = resp.content;
    tool_calls = resp.tool_calls;
    usage = resp.usage;
  })

  unfoldable pub streamed_event : CallLlmCommand → Received W → Event
  unfolding new_base_event
  streamed_event cmd got = llm_response (record {
    base = new_base_event ext "llm_response" "llm" "" got.draws;
    model = cmd.model;
    content = got.content;
    tool_calls = got.tool_calls;
    usage = no_usage;
  })

  -- The answer of the synchronous call, which stands in where no stream can be started.
  unfoldable pub fall_back : Reply ChatResponse → ℕ → W → Outcome W
  unfolding create_response_event
  fall_back (failed x) n w = record { events = failed x; draws = n; world = w }
  fall_back (value resp) n w = record {
    events = value (create_response_event resp n ∷ []);
    draws = n + 1;
    world = w;
  }

  unfoldable pub execute_call_llm : CallLlmCommand → ℕ → W → Outcome W
  unfolding fall_back consume streamed_event
  execute_call_llm cmd n w =
      let req : ChatRequest = record {
        model = cmd.model;
        messages = cmd.messages;
        tools = cmd.tools;
      } in
      let (stream, w') = srv.llm.stream_chat req w in
      elim stream [
        | failed x ↦ let (resp, w'') = srv.llm.chat req w' in fall_back resp n w''
        | value chunks ↦
            let got =
              consume chunks (record { content = ""; tool_calls = []; draws = n; world = w' }) in
            record {
              events = value (streamed_event cmd got ∷ []);
              draws = got.draws + 1;
              world = got.world;
            }
      ]

  -- The event that reports the end of a tool call.
  unfoldable pub tool_result_event : CallToolCommand → Reply ToolResult → ℕ → Event
  unfolding new_base_event
  tool_result_event cmd reply n =
      let base = new_base_event ext "tool_result" "tool" cmd.tool_name n in
      elim reply [
        | failed x ↦ tool_result (record {
          base = base;
          tool_call_id = cmd.tool_call_id;
          tool_name = cmd.tool_name;
          success = false;
          output = "";
          error = error_text x;
          duration = 0;
        })
        | value result ↦ tool_result (record {
          base = base;
          tool_call_id = cmd.tool_call_id;
          tool_name = cmd.tool_name;
          success = if result.is_error then false else true;
          output = result.content;
          error = if result.is_error then result.error else "";
          duration = 0;
        })
      ]

  unfoldable pub encode_arguments : Option (Dict Json) → Reply String
  encode_arguments none = value "{}"
  encode_arguments (some m) = elim (ext.marshal_map m) [
    | failed x ↦ failed (wrap "marshal tool arguments" x)
    | value text ↦ value text
  ]

  unfoldable pub execute_call_tool : RuntimeMode → CallToolCommand → ℕ → W → Outcome W
  unfolding encode_arguments tool_result_event
  execute_call_tool mode cmd n w = elim (encode_arguments cmd.arguments) [
    | failed x ↦ record { events = failed x; draws = n; world = w }
    | value text ↦
        let call : ToolCall = record {
          id = cmd.tool_call_id;
          name = cmd.tool_name;
          arguments = text;
        } in
        let (reply, w') = srv.tools.execute mode call w in
        record { events = value (tool_result_event cmd reply n ∷ []); draws = n + 1; world = w' }
  ]

  -- The switch on the type of the command; other commands do nothing.
  unfoldable pub carry_out : RuntimeMode → Command → ℕ → W → Outcome W
  unfolding execute_call_llm execute_call_tool
  carry_out mode (call_llm c) n w = execute_call_llm c n w
  carry_out mode (call_tool c) n w = execute_call_tool mode c n w
  carry_out mode _ n w = record { events = value []; draws = n; world = w }

  unfoldable pub error_event : Command → Error → ℕ → Event
  unfolding new_base_event command_id
  error_event cmd x n = error (record {
    base = new_base_event ext "error" "runtime" "" n;
    command_id = command_id cmd;
    error = error_text x;
    severity = "recoverable";
  })

  -- A command that fails becomes an error event.
  unfoldable pub collect : Command → Outcome W → List Event × ℕ × W
  unfolding error_event
  collect cmd o = elim o.events [
    | value events ↦ (events, o.draws, o.world)
    | failed x ↦ (error_event cmd x o.draws ∷ [], o.draws + 1, o.world)
  ]

  unfoldable pub run_commands : RuntimeMode → List Command → List Event → ℕ → W → List Event × ℕ × W
  unfolding collect carry_out
  run_commands mode [] events n w = (events, n, w)
  run_commands mode (cmd ∷ cmds) events n w =
      let (produced, n', w') = collect cmd (carry_out mode cmd n w) in
      run_commands mode cmds (events ++ produced) n' w'

  -- The events are persisted together; where that fails none is returned.
  unfoldable pub persist : List Event → W → Reply (List Event) × W
  persist [] w = (value [], w)
  persist (e ∷ es) w =
      let (failure, w') = srv.store.append_events (e ∷ es) w in
      elim failure [ none ↦ (value (e ∷ es), w') | some x ↦ (failed x, w') ]

  unfoldable pub dispatch : RuntimeMode → List Command → ℕ → W → Outcome W
  unfolding run_commands persist
  dispatch mode cmds n w =
      let (events, n', w') = run_commands mode cmds [] n w in
      let (kept, w'') = persist events w' in record { events = kept; draws = n'; world = w'' }
