-- ===== src/Llm/Openai/Tests.antt =====
-- The provider of OpenAI against a service that sends two tool calls in turns.
use mathlib.Core.List.{reverse, reverse_perm}
use gm_agent.Prelude.{ℕ, ◌+◌, String, ◌≡◌, refl, some, List, [], ◌∷◌}
use gm_agent.Prelude.Result.{value, panic}
use gm_agent.Prelude.Integers.{ℤ}
use gm_agent.Runtime.Services.{StreamChunk}
use gm_agent.Llm.{ProviderRequest}
use gm_agent.Llm.Openai.Laws.{Carried, convert_messages-Carried}
use gm_agent.Types.State.{Message}
use gm_agent.Llm.Openai.{
  convert_messages, CompletionResponse, Fragment, Choice, OpenaiProvider, new_openai, call,
  call_stream, receive,
}
use gm_agent.Llm.Openai.Stream.{Delivers, call_stream-Delivers}

abbrev piece : ℕ → String → String → String → Fragment
piece i id name arguments = record { index = some i; id = id; name = name; arguments = arguments }

abbrev answers : List (List Choice)
answers =
    (record { content = "Let me"; fragments = []; finish_reason = "" } ∷ [])
    ∷ []
    ∷ (record {
      content = " look.";
      fragments = piece 0 "call_a" "glob" "{\"pat" ∷ piece 1 "call_b" "grep" "{}" ∷ [];
      finish_reason = "";
    }
        ∷ [])
    ∷ (record {
      content = "";
      fragments = piece 0 "" "" "tern\":1}" ∷ [];
      finish_reason = "tool_calls";
    }
        ∷ [])
    ∷ (record { content = "unread"; fragments = []; finish_reason = "" } ∷ [])
    ∷ []

abbrev empty_response : CompletionResponse
empty_response = record {
  id = "r";
  model = "m";
  choices = [];
  usage = record { prompt_tokens = 0; completion_tokens = 0; total_tokens = 0 };
}

abbrev provider : OpenaiProvider ℕ ℕ
provider =
    new_openai
      (λ cfg. record {
        create = λ req w. (value empty_response, w + 1);
        create_stream = λ req w. (value answers, w + 1);
      })
      "https://api.openai.com/v1" (record { api_key = "k"; base_url = "" })

abbrev request : ProviderRequest ℕ
request = record {
  model = "gpt-4o";
  messages = [];
  tools = [];
  max_tokens = ℤ.pos 100;
  temperature = 7;
}

streamed :
    receive reverse answers []
    ≡ record { content = "Let me"; tool_calls = [] }
      ∷ record { content = " look."; tool_calls = [] }
      ∷ record {
        content = "";
        tool_calls =
            record { id = "call_b"; name = "grep"; arguments = "{}" }
            ∷ record { id = "call_a"; name = "glob"; arguments = "{\"pattern\":1}" }
            ∷ [];
      }
      ∷ []
unfolding receive
streamed = refl

-- An answer without choices is a crash of the process.
no_choices : (call (λ t. t) provider request 0).0 ≡ panic "index out of range"
unfolding call new_openai
no_choices = refl

call_stream-Delivers_example :
    (chunks : List StreamChunk) × (call_stream (λ t. t) reverse provider request 0
      ≡ (value chunks, 1))
    × Delivers answers chunks
unfolding new_openai
call_stream-Delivers_example =
    call_stream-Delivers (λ t. t) reverse reverse_perm provider request 0 1 answers refl

abbrev conversation : List Message
conversation =
    record {
      id = "msg_1";
      role = "assistant";
      content = "";
      tool_calls = record { id = "call_a"; name = "glob"; arguments = "{}" } ∷ [];
      tool_call_id = "";
      tool_name = "";
      token_count = 0;
      timestamp = 1;
    }
    ∷ record {
      id = "msg_2";
      role = "tool";
      content = "a.txt";
      tool_calls = [];
      tool_call_id = "call_a";
      tool_name = "glob";
      token_count = 0;
      timestamp = 2;
    }
    ∷ []

convert_messages-Carried_example : Carried conversation (convert_messages conversation)
convert_messages-Carried_example = convert_messages-Carried conversation
