-- ===== src/Llm/Openai.antt =====
-- packages/agent/pkg/llm/openai/provider.go. The client of go-openai is a record of functions, its
-- structures have the fields that the provider sets or reads, and `narrow` is Go's `float32`.
pub mod Laws
pub mod Stream
mod Tests
use gm_agent.Prelude.{
  ℕ, String, Bool, true, false, Option, none, some, List, [], ◌∷◌, ◌++◌, map, not, ◌==◌, eqb, ◌<+>◌,
  if◌then◌else◌,
}
use gm_agent.Prelude.Dict.{Dict}
use gm_agent.Prelude.Integers.{ℤ}
use gm_agent.Prelude.Result.{Result, ok, err, panic, Reply, value, failed, wrap}
use gm_agent.Types.Json.{Json}
use gm_agent.Types.Tool.{Tool, ToolCall, Int64}
use gm_agent.Types.State.{Message}
use gm_agent.Types.Event.{Usage}
use gm_agent.Runtime.Services.{StreamChunk}
use gm_agent.Llm.{ProviderRequest, ProviderResponse, OpenaiConfig}

pub record WireCall : Type 0 where
  pub id : String
  pub type : String
  pub name : String
  pub arguments : String

pub record WireMessage : Type 0 where
  pub role : String
  pub content : String
  pub tool_call_id : String
  pub tool_calls : List WireCall

pub record WireTool : Type 0 where
  pub type : String
  pub name : String
  pub description : String
  pub parameters : Dict Json

pub record CompletionRequest (F : Type 0) : Type 0 where
  pub model : String
  pub messages : List WireMessage
  pub tools : List WireTool
  pub max_tokens : ℤ
  pub temperature : F
  pub stream : Bool

pub record CompletionResponse : Type 0 where
  pub id : String
  pub model : String
  pub choices : List WireMessage
  pub usage : Usage

-- A piece of a tool call; the index is a Go `*int`.
pub record Fragment : Type 0 where
  pub index : Option Int64
  pub id : String
  pub name : String
  pub arguments : String

pub record Choice : Type 0 where
  pub content : String
  pub fragments : List Fragment
  pub finish_reason : String

-- A stream is the list of the choices of each response, until `Recv` fails.
pub record Client (F W : Type 0) : Type 0 where
  pub create : CompletionRequest F → W → Reply CompletionResponse × W
  pub create_stream : CompletionRequest F → W → Reply (List (List Choice)) × W

pub record ClientConfig : Type 0 where
  pub api_key : String
  pub base_url : String

pub record OpenaiProvider (F W : Type 0) : Type 0 where
  pub client : Client F W
  pub config : OpenaiConfig

abbrev pub tool_type_function : String
tool_type_function = "function"

-- `New`; `default_url` is the address that `openai.DefaultConfig` sets.
unfoldable pub client_config : String → OpenaiConfig → ClientConfig
client_config default_url cfg = record {
  api_key = cfg.api_key;
  base_url = if not (cfg.base_url == "") then cfg.base_url else default_url;
}

unfoldable pub new_openai :
    {F W : Type 0} → (ClientConfig → Client F W) → String → OpenaiConfig → OpenaiProvider F W
unfolding client_config
new_openai connect default_url cfg = record {
  client = connect (client_config default_url cfg);
  config = cfg;
}

unfoldable pub wire_call : ToolCall → WireCall
wire_call c = record {
  id = c.id;
  type = tool_type_function;
  name = c.name;
  arguments = c.arguments;
}

unfoldable pub convert_message : Message → WireMessage
unfolding wire_call
convert_message m = record {
  role = m.role;
  content = if m.content == "" then " " else m.content;
  tool_call_id = if m.role == "tool" then m.tool_call_id else "";
  tool_calls = map wire_call m.tool_calls;
}

unfoldable pub convert_messages : List Message → List WireMessage
unfolding convert_message
convert_messages ms = map convert_message ms

unfoldable pub convert_tool : Tool → WireTool
convert_tool t = record {
  type = tool_type_function;
  name = t.name;
  description = t.description;
  parameters = t.parameters;
}

unfoldable pub convert_tools : List Tool → List WireTool
unfolding convert_tool
convert_tools ts = map convert_tool ts

unfoldable pub convert_tool_call : WireCall → ToolCall
convert_tool_call c = record { id = c.id; name = c.name; arguments = c.arguments }

unfoldable pub convert_tool_calls : List WireCall → List ToolCall
unfolding convert_tool_call
convert_tool_calls cs = map convert_tool_call cs

unfoldable pub convert_usage : Usage → Usage
convert_usage u = record {
  prompt_tokens = u.prompt_tokens;
  completion_tokens = u.completion_tokens;
  total_tokens = u.total_tokens;
}

unfoldable pub completion_request :
    {F : Type 0} → (F → F) → Bool → ProviderRequest F → CompletionRequest F
unfolding convert_messages convert_tools
completion_request narrow stream req = record {
  model = req.model;
  messages = convert_messages req.messages;
  tools = convert_tools req.tools;
  max_tokens = req.max_tokens;
  temperature = narrow req.temperature;
  stream = stream;
}

-- `resp.Choices[0]` is read unguarded.
unfoldable pub provider_response : CompletionResponse → Result ProviderResponse
unfolding convert_usage convert_tool_calls
provider_response resp = elim resp.choices [
  | [] ↦ panic "index out of range"
  | choice ∷ _ ↦ ok (record {
    id = resp.id;
    model = resp.model;
    content = choice.content;
    tool_calls = convert_tool_calls choice.tool_calls;
    usage = convert_usage resp.usage;
  })
]

-- `toolCallBuilder`, in the order in which the indices have come up.
abbrev pub Builder : Type 0
Builder = List (ℕ × ToolCall)

-- The arguments grow; an identifier or a name that comes later replaces the one there.
unfoldable pub extend : Fragment → ToolCall → ToolCall
extend f c = record {
  id = if not (f.id == "") then f.id else c.id;
  name = if not (f.name == "") then f.name else c.name;
  arguments = c.arguments <+> f.arguments;
}

unfoldable pub first_piece : Fragment → ToolCall
first_piece f = record { id = f.id; name = f.name; arguments = "" }

unfoldable pub put_piece : ℕ → Fragment → Builder → Builder
unfolding extend first_piece
put_piece i f [] = (i, extend f (first_piece f)) ∷ []
put_piece i f ((j, c) ∷ rest) =
    let later = put_piece i f rest in if eqb j i then (j, extend f c) ∷ rest else (j, c) ∷ later

unfoldable pub add_fragment : Fragment → Builder → Builder
unfolding put_piece
add_fragment f b = elim f.index [ none ↦ b | some i ↦ put_piece i f b ]

unfoldable pub gather : List Fragment → Builder → Builder
unfolding add_fragment
gather [] b = b
gather (f ∷ fs) b = gather fs (add_fragment f b)

unfoldable pub text_chunk : String → List StreamChunk
text_chunk content =
    if not (content == "") then record { content = content; tool_calls = [] } ∷ [] else []

-- Go visits the map in any order: `arrange` is the order of this run.
unfoldable pub calls_chunk : (List ToolCall → List ToolCall) → Builder → List StreamChunk
calls_chunk arrange [] = []
calls_chunk arrange (entry ∷ rest) =
    record { content = ""; tool_calls = arrange (map (λ e. e.1) (entry ∷ rest)) } ∷ []

-- The goroutine of `CallStream`: what it sends until it closes the channel.
unfoldable pub receive :
    (List ToolCall → List ToolCall) → List (List Choice) → Builder → List StreamChunk
unfolding gather text_chunk calls_chunk
receive arrange [] b = []
receive arrange ([] ∷ rest) b = receive arrange rest b
receive arrange ((choice ∷ _) ∷ rest) b =
    let b' = gather choice.fragments b in
    let later = receive arrange rest b' in
    text_chunk choice.content
    ++ (if not (choice.finish_reason == "") then calls_chunk arrange b' else later)

module _ {F W : Type 0} (narrow : F → F) where
  unfoldable pub call : OpenaiProvider F W → ProviderRequest F → W → Result ProviderResponse × W
  unfolding completion_request provider_response
  call p req w =
      let (reply, w') = p.client.create (completion_request narrow false req) w in
      elim reply [ failed x ↦ (err x, w') | value resp ↦ (provider_response resp, w') ]

  unfoldable pub call_stream :
      (List ToolCall → List ToolCall)
      → OpenaiProvider F W
      → ProviderRequest F
      → W
      → Reply (List StreamChunk) × W
  unfolding completion_request receive
  call_stream arrange p req w =
      let (reply, w') = p.client.create_stream (completion_request narrow true req) w in
      elim reply [
        | failed x ↦ (failed (wrap "create stream" x), w')
        | value responses ↦ (value (receive arrange responses []), w')
      ]
