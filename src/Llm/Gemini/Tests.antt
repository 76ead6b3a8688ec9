-- ===== src/Llm/Gemini/Tests.antt =====
-- The provider of Gemini on a short conversation.
use gm_agent.Prelude.{ℕ, String, false, none, some, List, [], ◌∷◌, ◌≡◌, refl, ◌==◌}
use gm_agent.Prelude.Result.{panic, value}
use gm_agent.Prelude.Integers.{ℤ}
use gm_agent.Types.Json.{text}
use gm_agent.Types.Tool.{ToolCall}
use gm_agent.Types.State.{Message}
use gm_agent.Llm.{ProviderRequest}
use gm_agent.Runtime.History.{nil_dereference}
use gm_agent.Tools.Catalog.{edit_file_tool}
use gm_agent.Llm.Gemini.{
  ArgumentCodec, Content, GenerateConfig, prepare_call, convert_response, receive, to_int32,
}
use gm_agent.Llm.Gemini.Schemas.{members_of, required_of}
use gm_agent.Llm.Gemini.Laws.{AllSay, ordinary, last_system, instruction, prepare_call-Says}

abbrev json : ArgumentCodec
json = record { unmarshal = λ s. value (some (("raw", text s) ∷ [])); marshal = λ args. "{}" }

abbrev message_of : String → String → List ToolCall → Message
message_of role content calls = record {
  id = "msg_1";
  role = role;
  content = content;
  tool_calls = calls;
  tool_call_id = "";
  tool_name = "glob";
  token_count = 0;
  timestamp = 1;
}

abbrev request : ProviderRequest ℕ
request = record {
  model = "";
  messages =
      message_of "system" "be brief" []
      ∷ message_of "user" "look" []
      ∷ message_of "assistant" "" (record { id = "call_1"; name = "glob"; arguments = "{}" } ∷ [])
      ∷ message_of "tool" "a.txt" []
      ∷ message_of "system" "be long" []
      ∷ [];
  tools = [];
  max_tokens = ℤ.negsuc 0;
  temperature = 7;
}

prepare_call-Says_example :
    (name : String) × (contents : List Content) × (conf : GenerateConfig ℕ) × (prepare_call json
        (λ t. t)
        request
      ≡ value (name, contents, conf))
    × AllSay json (ordinary request.messages) contents
    × (conf.system_instruction ≡ instruction (last_system request.messages none))
    × ((name == "") ≡ false)
prepare_call-Says_example =
    prepare_call-Says json (λ t. t) request
      (tt, (tt, (((refl, (some (("raw", text "{}") ∷ []), refl, refl)), tt), (tt, (tt, tt)))))

-- Only the last of two system messages is sent.
instructed : last_system request.messages none ≡ some "be long"
unfolding last_system
instructed = refl

-- No parameter of a built-in tool is required for this provider.
nothing_required : required_of (members_of edit_file_tool.parameters) ≡ []
unfolding required_of members_of edit_file_tool
nothing_required = refl

no_usage :
    convert_response json
      (some (record {
        candidates = some (record { role = ""; parts = [] }) ∷ [];
        usage = none;
        whole_text = "";
      }))
      "m"
    ≡ panic nil_dereference
unfolding convert_response
no_usage = refl

-- A chunk without candidates ends the process.
no_candidates :
    receive json (value (record { candidates = []; usage = none; whole_text = "" }) ∷ [])
    ≡ ([], some "index out of range")
unfolding receive
no_candidates = refl

all_bits : to_int32 (ℤ.negsuc 0) ≡ 4294967295
unfolding to_int32
all_bits = refl
