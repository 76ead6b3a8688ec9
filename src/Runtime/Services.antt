-- ===== src/Runtime/Services.antt =====
-- What the runtime relies on: pkg/runtime/interfaces.go, the part of store.Store that it calls, the
-- types of pkg/llm/provider.go, and the tracker of file changes. `W` is the world behind them.
use gm_agent.Prelude.{String, Bool, Option, List}
use gm_agent.Prelude.Result.{Error, Reply}
use gm_agent.Types.Tool.{RuntimeMode, Tool, ToolCall, ToolResult, FileChange}
use gm_agent.Types.State.{Message, State, Checkpoint}
use gm_agent.Types.Event.{Event, Usage}

pub record ChatRequest : Type 0 where
  pub model : String
  pub messages : List Message
  pub tools : List Tool

pub record ChatResponse : Type 0 where
  pub model : String
  pub content : String
  pub tool_calls : List ToolCall
  pub usage : Usage

pub record StreamChunk : Type 0 where
  pub content : String
  pub tool_calls : List ToolCall

-- A stream is the list of the chunks that arrive until the channel is closed.
pub record LlmGateway (W : Type 0) : Type 0 where
  pub chat : ChatRequest → W → Reply ChatResponse × W
  pub stream_chat : ChatRequest → W → Reply (List StreamChunk) × W

pub record ToolExecutor (W : Type 0) : Type 0 where
  pub execute : RuntimeMode → ToolCall → W → Reply ToolResult × W
  pub list : W → List Tool

-- A write returns nil (`none`) or an error.
pub record Store (W : Type 0) : Type 0 where
  pub append_event : Event → W → Option Error × W
  pub append_events : List Event → W → Option Error × W
  pub save_state : State → W → Option Error × W
  pub save_checkpoint : Checkpoint → W → Option Error × W
  pub load_latest_state : W → Reply State

pub record Services (W : Type 0) : Type 0 where
  pub llm : LlmGateway W
  pub tools : ToolExecutor W
  pub store : Store W
  -- `tracker.Flush()`
  pub flush : W → List FileChange × W
  -- whether `ctx.Done()` is closed
  pub done : W → Bool
