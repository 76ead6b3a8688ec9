-- ===== src/Llm/Mock.antt =====
-- packages/agent/pkg/llm/mock/provider.go.
use gm_agent.Prelude.{String, Option, none, some, List, [], ◌∷◌, ◌==◌, ◌<+>◌, if◌then◌else◌}
use gm_agent.Prelude.Result.{Result, ok, panic}
use gm_agent.Types.State.{Message}
use gm_agent.Runtime.Services.{StreamChunk}
use gm_agent.Llm.{ProviderRequest, ProviderResponse}

unfoldable pub last_message : List Message → Option Message
last_message [] = none
last_message (m ∷ []) = some m
last_message (m ∷ n ∷ ms) = last_message (n ∷ ms)

unfoldable pub mock_response : String → String → ProviderResponse
mock_response stamp content = record {
  id = "mock-" <+> stamp;
  model = "mock-model";
  content = content;
  tool_calls = [];
  usage = record { prompt_tokens = 0; completion_tokens = 0; total_tokens = 0 };
}

-- `stamp` is the time in nanoseconds. Without messages the index is out of range.
unfoldable pub call_mock :
    {F : Type 0} → String → String → ProviderRequest F → Result ProviderResponse
unfolding last_message mock_response
call_mock response stamp req =
    if response == ""
    then elim (last_message req.messages) [
      | none ↦ panic "index out of range"
      | some m ↦ ok (mock_response stamp ("Mock response to: " <+> m.content))
    ]
    else ok (mock_response stamp response)

unfoldable pub stream_mock : String → List StreamChunk
stream_mock response =
    record {
      content = if response == "" then "Mock streaming response" else response;
      tool_calls = [];
    }
    ∷ []
