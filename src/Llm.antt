-- ===== src/Llm.antt =====
-- packages/agent/pkg/llm: provider.go, gateway.go, and factory/factory.go. A provider is a pair of
-- functions on the world; how each provider is made is left to a record of functions.
pub mod Laws
pub mod Gemini
pub mod Mock
pub mod Openai
mod Tests
use gm_agent.Prelude.{ℕ, String, Bool, List, ◌==◌, ◌||◌, ◌<+>◌, if◌then◌else◌}
use gm_agent.Prelude.Integers.{ℤ}
use gm_agent.Prelude.Result.{Reply, value, failed, message, wrap}
use gm_agent.Types.Tool.{Tool, ToolCall}
use gm_agent.Types.State.{Message}
use gm_agent.Types.Event.{Usage}
use gm_agent.Runtime.Services.{ChatRequest, ChatResponse, StreamChunk, LlmGateway}
use gm_agent.Config.{Floats, ProviderOptions, Config, get_active_provider}

pub record ProviderRequest (F : Type 0) : Type 0 where
  pub model : String
  pub messages : List Message
  pub tools : List Tool
  pub max_tokens : ℤ
  pub temperature : F

pub record ProviderResponse : Type 0 where
  pub id : String
  pub model : String
  pub content : String
  pub tool_calls : List ToolCall
  pub usage : Usage

pub record Provider (F W : Type 0) : Type 0 where
  pub call : ProviderRequest F → W → Reply ProviderResponse × W
  pub call_stream : ProviderRequest F → W → Reply (List StreamChunk) × W

pub record Gateway (F W : Type 0) : Type 0 where
  pub provider : Provider F W
  pub options : ProviderOptions F

pub record GeminiConfig : Type 0 where
  pub api_key : String
  pub project_id : String
  pub location : String
  pub model : String

pub record OpenaiConfig : Type 0 where
  pub api_key : String
  pub base_url : String

-- The `New` functions of llm/gemini, llm/openai and llm/mock.
pub record Makers (F W : Type 0) : Type 0 where
  pub new_gemini : GeminiConfig → Reply (Provider F W)
  pub new_openai : OpenaiConfig → Provider F W
  pub new_mock : String → Provider F W

unfoldable pub to_response : ProviderResponse → ChatResponse
to_response r = record {
  model = r.model;
  content = r.content;
  tool_calls = r.tool_calls;
  usage = r.usage;
}

module _ {F W : Type 0} where
  unfoldable pub new_gateway : Floats F → Provider F W → ProviderOptions F → Gateway F W
  new_gateway floats provider opts =
      let t =
        if floats.float_is_zero opts.temperature then floats.seven_tenths else opts.temperature in
      record { provider = provider; options = record opts { temperature = t } }

  unfoldable pub request_of : Gateway F W → ChatRequest → ProviderRequest F
  request_of g req = record {
    model = req.model;
    messages = req.messages;
    tools = req.tools;
    max_tokens = g.options.max_tokens;
    temperature = g.options.temperature;
  }

  unfoldable pub chat : Gateway F W → ChatRequest → W → Reply ChatResponse × W
  unfolding request_of to_response
  chat g req w =
      let (reply, w') = g.provider.call (request_of g req) w in
      elim reply [ failed x ↦ (failed x, w') | value r ↦ (value (to_response r), w') ]

  unfoldable pub stream_chat : Gateway F W → ChatRequest → W → Reply (List StreamChunk) × W
  unfolding request_of
  stream_chat g req w = g.provider.call_stream (request_of g req) w

  -- The interface that the runtime sees.
  unfoldable pub as_service : Gateway F W → LlmGateway W
  unfolding chat stream_chat
  as_service g = record { chat = chat g; stream_chat = stream_chat g }

  unfoldable pub create_provider : Makers F W → String → ProviderOptions F → Reply (Provider F W)
  create_provider makers id opts =
      if id == "gemini"
      then makers.new_gemini (record {
        api_key = opts.api_key;
        project_id = opts.project_id;
        location = opts.location;
        model = opts.model;
      })
      else if id == "openai" || id == "deepseek"
      then value (makers.new_openai (record { api_key = opts.api_key; base_url = opts.base_url }))
      else if id == "anthropic"
      then failed (message "anthropic provider not yet implemented")
      else if id == "mock"
      then value (makers.new_mock opts.model)
      else failed (message ("unknown provider: " <+> id))

  unfoldable pub new_provider :
      Floats F → Makers F W → (String → String) → Config F → Reply (Provider F W × String)
  unfolding get_active_provider create_provider
  new_provider floats makers getenv cfg = elim (get_active_provider floats getenv cfg) [
    | failed x ↦ failed (wrap "failed to get active provider" x)
    | value (id, opts) ↦ elim (create_provider makers id opts) [
      | failed x ↦ failed x
      | value provider ↦ value (provider, id)
    ]
  ]
