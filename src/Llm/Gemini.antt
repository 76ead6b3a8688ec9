-- ===== src/Llm/Gemini.antt =====
-- packages/agent/pkg/llm/gemini/provider.go. The client of genai is a record of functions, its
-- structures have the fields that the provider sets or reads, and `json` is the codec of arguments.
pub mod Schemas
pub mod Laws
mod Tests
use gm_agent.Prelude.{
  ℕ, ◌-◌, ◌%◌, ◌^◌, String, Bool, true, false, not, ◌||◌, ◌&&◌, Option, none, some, List, [], ◌∷◌,
  ◌++◌, map, ◌==◌, ◌<+>◌, if◌then◌else◌,
}
use gm_agent.Prelude.Dict.{Dict}
use gm_agent.Prelude.Integers.{ℤ, pos, negsuc}
use gm_agent.Prelude.Result.{Result, ok, err, panic, Reply, value, failed, message, wrap}
use gm_agent.Types.Json.{Json, text}
use gm_agent.Types.Tool.{Tool, ToolCall, Int64}
use gm_agent.Types.State.{Message}
use gm_agent.Types.Event.{Usage}
use gm_agent.Runtime.History.{nil_dereference}
use gm_agent.Runtime.Services.{StreamChunk}
use gm_agent.Llm.{ProviderRequest, ProviderResponse, GeminiConfig}
use gm_agent.Llm.Gemini.Schemas.{Schema, members_of, convert_schema}

pub data Backend : Type 0 where
  gemini_api vertex_ai : Backend

pub record ClientConfig : Type 0 where
  pub api_key : String
  pub backend : Backend
  pub project : String
  pub location : String

-- A nil map of arguments is `none`.
pub record FunctionCall : Type 0 where
  pub name : String
  pub args : Option (Dict Json)

pub record FunctionResponse : Type 0 where
  pub name : String
  pub response : Dict Json

pub record Part : Type 0 where
  pub text : String
  pub function_call : Option FunctionCall
  pub function_response : Option FunctionResponse

pub record Content : Type 0 where
  pub role : String
  pub parts : List Part

pub record FunctionDeclaration : Type 0 where
  pub name : String
  pub description : String
  pub parameters : Schema

pub record GenerateConfig (F : Type 0) : Type 0 where
  pub temperature : F
  -- an int32
  pub max_output_tokens : ℕ
  pub system_instruction : Option Content
  -- the one tool that declares all functions, where there is one
  pub tools : Option (List FunctionDeclaration)

-- A candidate without content is `none`; `whole_text` is what `Text()` returns.
pub record GenerateResponse : Type 0 where
  pub candidates : List (Option Content)
  pub usage : Option Usage
  pub whole_text : String

-- A stream is the list of what its iterator yields.
pub record Client (F W : Type 0) : Type 0 where
  pub generate : String → List Content → GenerateConfig F → W → Reply (Option GenerateResponse) × W
  pub generate_stream :
      String → List Content → GenerateConfig F → W → List (Reply GenerateResponse) × W

-- `json.Unmarshal` into a `map[string]any`, and `json.Marshal` of one ("" where it fails).
pub record ArgumentCodec : Type 0 where
  pub unmarshal : String → Reply (Option (Dict Json))
  pub marshal : Option (Dict Json) → String

pub record GeminiProvider (F W : Type 0) : Type 0 where
  pub client : Client F W
  pub config : GeminiConfig

unfoldable pub client_config : GeminiConfig → ClientConfig
client_config cfg =
    if not (cfg.project_id == "") && not (cfg.location == "")
    then record {
      api_key = cfg.api_key;
      backend = vertex_ai;
      project = cfg.project_id;
      location = cfg.location;
    }
    else record { api_key = cfg.api_key; backend = gemini_api; project = ""; location = "" }

unfoldable pub new_gemini :
    {F W : Type 0} → (ClientConfig → Reply (Client F W)) → GeminiConfig → Reply (GeminiProvider F W)
unfolding client_config
new_gemini connect cfg = elim (connect (client_config cfg)) [
  | failed x ↦ failed (wrap "failed to create gemini client" x)
  | value client ↦ value (record { client = client; config = cfg })
]

unfoldable pub role_of : String → String
role_of role = if role == "assistant" then "model" else "user"

abbrev pub text_part : String → Part
text_part content = record { text = content; function_call = none; function_response = none }

abbrev pub call_part : String → Option (Dict Json) → Part
call_part name args = record {
  text = "";
  function_call = some (record { name = name; args = args });
  function_response = none;
}

unfoldable pub text_parts : String → List Part
text_parts content = if not (content == "") then text_part content ∷ [] else []

-- The answer of a tool is wrapped in an object.
unfoldable pub result_parts : Message → List Part
result_parts m =
    if m.role == "tool"
    then record {
      text = "";
      function_call = none;
      function_response =
          some (record { name = m.tool_name; response = ("result", text m.content) ∷ [] });
    }
      ∷ []
    else []

module _ (json : ArgumentCodec) where
  unfoldable pub arguments_of : ToolCall → Reply (Option (Dict Json))
  arguments_of c = if c.arguments == "" then value none else elim (json.unmarshal c.arguments) [
    | failed x ↦ failed (wrap ("failed to unmarshal tool arguments for " <+> c.name) x)
    | value args ↦ value args
  ]

  unfoldable pub call_parts : List ToolCall → Reply (List Part)
  unfolding arguments_of
  call_parts [] = value []
  call_parts (c ∷ cs) = elim (arguments_of c) [
    | failed x ↦ failed x
    | value args ↦ elim (call_parts cs) [
      | failed x ↦ failed x
      | value parts ↦ value (call_part c.name args ∷ parts)
    ]
  ]

  unfoldable pub convert_message : Message → Reply Content
  unfolding role_of text_parts call_parts result_parts
  convert_message m = elim (call_parts m.tool_calls) [
    | failed x ↦ failed x
    | value calls ↦ value (record {
      role = role_of m.role;
      parts = text_parts m.content ++ (calls ++ result_parts m);
    })
  ]

  -- The loop over the messages, with the system instruction so far.
  unfoldable pub convert_messages :
      List Message → Option Content → Reply (List Content × Option Content)
  unfolding convert_message
  convert_messages [] system = value ([], system)
  convert_messages (m ∷ ms) system =
      let next : Reply (List Content × Option Content) = elim (convert_message m) [
        | failed x ↦ failed x
        | value c ↦ elim (convert_messages ms system) [
          | failed x ↦ failed x
          | value (cs, found) ↦ value (c ∷ cs, found)
        ]
      ] in
      let skipped =
        convert_messages ms (some (record { role = ""; parts = text_part m.content ∷ [] })) in
      if m.role == "system" then skipped else next

unfoldable pub declare : Tool → FunctionDeclaration
unfolding convert_schema members_of
declare t = record {
  name = t.name;
  description = t.description;
  parameters = convert_schema (members_of t.parameters);
}

-- `Tool.Parameters` is taken not to be a nil map.
unfoldable pub convert_tools : List Tool → Option (List FunctionDeclaration)
unfolding declare
convert_tools [] = none
convert_tools (t ∷ ts) = some (map declare (t ∷ ts))

-- `int32(n)`, as a bit pattern.
unfoldable pub to_int32 : ℤ → ℕ
to_int32 (pos n) = n % 2 ^ 32
to_int32 (negsuc n) = 2 ^ 32 - 1 - n % 2 ^ 32

unfoldable pub model_name : String → String
model_name name = if name == "" then "gemini-1.5-flash" else name

module _ (json : ArgumentCodec) {F : Type 0} (narrow : F → F) where
  unfoldable pub prepare_call : ProviderRequest F → Reply (String × List Content × GenerateConfig F)
  unfolding convert_messages convert_tools to_int32 model_name
  prepare_call req = elim (convert_messages json req.messages none) [
    | failed x ↦ failed x
    | value (contents, system) ↦ value (
      model_name req.model,
      contents,
      record {
        temperature = narrow req.temperature;
        max_output_tokens = to_int32 req.max_tokens;
        system_instruction = system;
        tools = convert_tools req.tools;
      },
    )
  ]

module _ (json : ArgumentCodec) where
  unfoldable pub read_text : List Part → String
  read_text [] = ""
  read_text (p ∷ ps) = p.text <+> read_text ps

  -- The calls have no identifier.
  unfoldable pub read_calls : List Part → List ToolCall
  read_calls [] = []
  read_calls (p ∷ ps) = elim p.function_call [
    | none ↦ read_calls ps
    | some c ↦ record { id = ""; name = c.name; arguments = json.marshal c.args } ∷ read_calls ps
  ]

  unfoldable pub response_of : List Part → String → Option Usage → Result ProviderResponse
  unfolding read_text read_calls
  response_of parts model none = panic nil_dereference
  response_of parts model (some usage) = ok (record {
    id = "";
    model = model;
    content = read_text parts;
    tool_calls = read_calls parts;
    usage = usage;
  })

  unfoldable pub convert_response : Option GenerateResponse → String → Result ProviderResponse
  unfolding response_of
  convert_response none model = err (message "no candidates returned")
  convert_response (some resp) model = elim resp.candidates [
    | [] ↦ err (message "no candidates returned")
    | none ∷ _ ↦ panic nil_dereference
    | some c ∷ _ ↦ response_of c.parts model resp.usage
  ]

  unfoldable pub chunk_of : String → List ToolCall → List StreamChunk
  chunk_of said [] =
      if not (said == "") then record { content = said; tool_calls = [] } ∷ [] else []
  chunk_of said (c ∷ cs) = record { content = said; tool_calls = c ∷ cs } ∷ []

  -- What the goroutine of `CallStream` sends, and the panic that ends it, if one does.
  unfoldable pub receive : List (Reply GenerateResponse) → List StreamChunk × Option String
  unfolding read_calls chunk_of
  receive [] = ([], none)
  receive (failed x ∷ rest) = ([], none)
  receive (value resp ∷ rest) = elim resp.candidates [
    | [] ↦ ([], some "index out of range")
    | none ∷ _ ↦ ([], some nil_dereference)
    | some c ∷ _ ↦
        let (chunks, crash) = receive rest in
        (chunk_of resp.whole_text (read_calls c.parts) ++ chunks, crash)
  ]

module _ (json : ArgumentCodec) {F W : Type 0} (narrow : F → F) where
  unfoldable pub call : GeminiProvider F W → ProviderRequest F → W → Result ProviderResponse × W
  unfolding prepare_call convert_response
  call p req w = elim (prepare_call json narrow req) [
    | failed x ↦ (err x, w)
    | value (name, contents, conf) ↦
        let (reply, w') = p.client.generate name contents conf w in
        elim reply [ failed x ↦ (err x, w') | value resp ↦ (convert_response json resp name, w') ]
  ]

  unfoldable pub call_stream :
      GeminiProvider F W → ProviderRequest F → W → Reply (List StreamChunk × Option String) × W
  unfolding prepare_call receive
  call_stream p req w = elim (prepare_call json narrow req) [
    | failed x ↦ (failed x, w)
    | value (name, contents, conf) ↦
        let (items, w') = p.client.generate_stream name contents conf w in
        (value (receive json items), w')
  ]
