-- ===== src/Llm/Gemini/Laws.antt =====
-- What the provider of Gemini makes of the messages of a request.
use package.text.Mathlib.TextLemmas
use gm_agent.Prelude.{
  String, false, Option, none, some, List, [], ◌∷◌, ◌++◌, map, ◌≡◌, ◌≢◌, ◌⊎◌, inl, inr, refl, sym,
  ap, ◌∙◌, ◌==◌, ◌<+>◌, All, if◌then◌else◌, Bool-cases, eq_iff, append-nil, arith,
}
use gm_agent.Prelude.Dict.{Dict}
use gm_agent.Prelude.Result.{value}
use gm_agent.Types.Json.{Json, text}
use gm_agent.Types.Tool.{ToolCall}
use gm_agent.Types.State.{Message}
use gm_agent.Llm.{ProviderRequest}
use gm_agent.Llm.Gemini.{
  ArgumentCodec, Content, Part, FunctionResponse, GenerateConfig, arguments_of, call_parts,
  text_parts, result_parts, role_of, convert_message, convert_messages, model_name, prepare_call,
  to_int32, convert_tools, read_text, read_calls, text_part, call_part,
}

-- A call without its identifier, which the service does not keep.
unfoldable pub anonymous : ToolCall → ToolCall
anonymous c = record c { id = "" }

unfoldable pub responses : List Part → List FunctionResponse
responses [] = []
responses (p ∷ ps) = elim p.function_response [ none ↦ responses ps | some r ↦ r ∷ responses ps ]

-- The messages that are no system messages.
unfoldable pub ordinary : List Message → List Message
ordinary [] = []
ordinary (m ∷ ms) = let rest = ordinary ms in if m.role == "system" then rest else m ∷ rest

-- The content of the last system message.
unfoldable pub last_system : List Message → Option String → Option String
last_system [] found = found
last_system (m ∷ ms) found = last_system ms (if m.role == "system" then some m.content else found)

abbrev pub instruction : Option String → Option Content
instruction none = none
instruction (some t) = some (record { role = ""; parts = text_part t ∷ [] })

model_name-filled : (name : String) → (model_name name == "") ≡ false
unfolding model_name
model_name-filled name = elim (Bool-cases (name == "")) [
  | inl e ↦ rw (model_name, e) refl
  | inr e ↦ rw (model_name, e) e
]

module _ (json : ArgumentCodec) where
  -- The arguments are there, and the codec brings them back as they are.
  abbrev pub IsPlain : ToolCall → Type 0
  IsPlain c =
      ((c.arguments == "") ≡ false)
      × ((args : Option (Dict Json)) × (json.unmarshal c.arguments ≡ value args)
          × (json.marshal args ≡ c.arguments))

  -- Reading the content as the provider reads an answer gives the text and the calls of the message;
  -- the answer of a tool goes along under the tool's name.
  pub record Says (m : Message) (c : Content) : Type 0 where
    pub role : (c.role ≡ "model") ⊎ ((c.role ≡ "user") × (m.role ≢ "assistant"))
    pub said : read_text json c.parts ≡ m.content
    pub calls : read_calls json c.parts ≡ map anonymous m.tool_calls
    pub answer :
        ((m.role ≡ "tool")
          × (responses c.parts
              ≡ record { name = m.tool_name; response = ("result", text m.content) ∷ [] } ∷ []))
        ⊎ ((m.role ≢ "tool") × (responses c.parts ≡ []))

  abbrev pub AllSay : List Message → List Content → Type 0
  AllSay [] [] = Unit
  AllSay [] (_ ∷ _) = ⊥
  AllSay (_ ∷ _) [] = ⊥
  AllSay (m ∷ ms) (c ∷ cs) = Says m c × AllSay ms cs

  read_text-append :
      (ps qs : List Part) → read_text json (ps ++ qs) ≡ read_text json ps <+> read_text json qs
  unfolding read_text
  read_text-append [] qs = sym (TextLemmas.nil-append _)
  read_text-append (p ∷ ps) qs =
      ap (λ (t : String). p.text <+> t) (read_text-append ps qs)
      ∙ sym (TextLemmas.append_assoc p.text _ _)

  read_calls-append :
      (ps qs : List Part) → read_calls json (ps ++ qs) ≡ read_calls json ps ++ read_calls json qs
  unfolding read_calls
  read_calls-append [] qs = refl
  read_calls-append (p ∷ ps) qs = ground (arith, read_calls-append ps qs)

  responses-append : (ps qs : List Part) → responses (ps ++ qs) ≡ responses ps ++ responses qs
  unfolding responses
  responses-append [] qs = refl
  responses-append (p ∷ ps) qs = ground (arith, responses-append ps qs)

  call_parts-cons :
      (c : ToolCall) (cs : List ToolCall) (args : Option (Dict Json)) (ps : List Part)
      → arguments_of json c ≡ value args
      → call_parts json cs ≡ value ps
      → call_parts json (c ∷ cs) ≡ value (call_part c.name args ∷ ps)
  unfolding call_parts
  call_parts-cons c cs args ps e h = ground arith

  text-text_parts : (t : String) → read_text json (text_parts t) ≡ t
  unfolding read_text text_parts
  text-text_parts t = elim (Bool-cases (t == "")) [
    | inl e ↦ rw ((eq_iff t "").0 e) refl
    | inr e ↦ rw (text_parts, e) (TextLemmas.append-nil t)
  ]

  calls-text_parts : (t : String) → read_calls json (text_parts t) ≡ []
  unfolding read_calls text_parts
  calls-text_parts t = ground arith

  responses-text_parts : (t : String) → responses (text_parts t) ≡ []
  unfolding responses text_parts
  responses-text_parts t = ground arith

  text-result_parts : (m : Message) → read_text json (result_parts m) ≡ ""
  unfolding read_text result_parts
  text-result_parts m = elim (Bool-cases (m.role == "tool")) [
    | inl e ↦ rw (result_parts, e) refl
    | inr e ↦ rw (result_parts, e) refl
  ]

  calls-result_parts : (m : Message) → read_calls json (result_parts m) ≡ []
  unfolding read_calls result_parts
  calls-result_parts m = ground arith

  responses-result_parts :
      (m : Message)
      → ((m.role ≡ "tool")
          × (responses (result_parts m)
              ≡ record { name = m.tool_name; response = ("result", text m.content) ∷ [] } ∷ []))
        ⊎ ((m.role ≢ "tool") × (responses (result_parts m) ≡ []))
  unfolding responses result_parts
  responses-result_parts m = ground (arith, eq_iff m.role "tool")

  call_parts-read :
      (cs : List ToolCall)
      → All IsPlain cs
      → (ps : List Part) × (call_parts json cs ≡ value ps)
        × (read_text json ps ≡ "")
        × (read_calls json ps ≡ map anonymous cs)
        × (responses ps ≡ [])
  unfolding call_parts read_text read_calls responses arguments_of anonymous
  call_parts-read [] h = ([], refl, refl, refl, refl)
  call_parts-read (c ∷ cs) ((filled, (args, decoded, encoded)), h) =
      let (ps, parts, silent, calls, quiet) = call_parts-read cs h in
      (
        call_part c.name args ∷ ps,
        call_parts-cons c cs args ps (ground arith) parts,
        TextLemmas.nil-append _ ∙ silent,
        ground arith,
        quiet,
      )

  module _ (m : Message) (ps : List Part) (quiet : responses ps ≡ []) where
    responses-parts :
        responses (text_parts m.content ++ (ps ++ result_parts m)) ≡ responses (result_parts m)
    responses-parts =
        responses-append (text_parts m.content) (ps ++ result_parts m)
        ∙ ap (λ (l : List FunctionResponse). l ++ responses (ps ++ result_parts m))
            (responses-text_parts m.content)
        ∙ responses-append ps (result_parts m)
        ∙ ap (λ (l : List FunctionResponse). l ++ responses (result_parts m)) quiet

  convert_message-value :
      (m : Message) (ps : List Part)
      → call_parts json m.tool_calls ≡ value ps
      → convert_message json m
        ≡ value (record {
          role = role_of m.role;
          parts = text_parts m.content ++ (ps ++ result_parts m);
        })
  unfolding convert_message
  convert_message-value m ps e = ground arith

  convert_message-Says :
      (m : Message)
      → All IsPlain m.tool_calls
      → (c : Content) × (convert_message json m ≡ value c) × Says m c
  unfolding role_of
  convert_message-Says m h =
      let (ps, parts, silent, calls, quiet) = call_parts-read m.tool_calls h in
      (
        record { role = role_of m.role; parts = text_parts m.content ++ (ps ++ result_parts m) },
        convert_message-value m ps parts,
        record {
          role = ground (arith, eq_iff m.role "assistant");
          said =
              rw
                (
                  read_text-append (text_parts m.content) (ps ++ result_parts m),
                  read_text-append ps (result_parts m),
                  text-text_parts m.content,
                  silent,
                  text-result_parts m,
                )
                (TextLemmas.append-nil m.content);
          calls =
              rw
                (
                  read_calls-append (text_parts m.content) (ps ++ result_parts m),
                  read_calls-append ps (result_parts m),
                  calls-text_parts m.content,
                  calls,
                  calls-result_parts m,
                )
                (append-nil _);
          answer = rw (responses-parts m ps quiet) (responses-result_parts m);
        },
      )

  convert_messages-Say :
      (ms : List Message) (system : Option String)
      → All (λ (m : Message). All IsPlain m.tool_calls) ms
      → (cs : List Content) × (convert_messages json ms (instruction system)
          ≡ value (cs, instruction (last_system ms system)))
        × AllSay (ordinary ms) cs
  unfolding convert_messages ordinary last_system
  convert_messages-Say [] system h = ([], refl, tt)
  convert_messages-Say (m ∷ ms) system (plain, h) = elim (Bool-cases (m.role == "system")) [
    | inl e ↦ rw e (convert_messages-Say ms (some m.content) h)
    | inr e ↦
        let (c, converted, says) = convert_message-Says m plain in
        let (cs, rest, say) = convert_messages-Say ms system h in
        rw e (c ∷ cs, ground arith, (says, say))
  ]

  module _ {F : Type 0} (narrow : F → F) where
    -- Where the arguments of all calls are plain, a request can be prepared: every message but the
    -- system messages goes along in its place, the last system message is the instruction, and a
    -- model is named.
    pub prepare_call-Says :
        (req : ProviderRequest F)
        → All (λ (m : Message). All IsPlain m.tool_calls) req.messages
        → (name : String) × (contents : List Content) × (conf : GenerateConfig F) × (prepare_call
              json narrow req
            ≡ value (name, contents, conf))
          × AllSay (ordinary req.messages) contents
          × (conf.system_instruction ≡ instruction (last_system req.messages none))
          × ((name == "") ≡ false)
    unfolding prepare_call model_name
    prepare_call-Says req h =
        let (contents, converted, say) = convert_messages-Say req.messages none h in
        (
          model_name req.model,
          contents,
          record {
            temperature = narrow req.temperature;
            max_output_tokens = to_int32 req.max_tokens;
            system_instruction = instruction (last_system req.messages none);
            tools = convert_tools req.tools;
          },
          ground arith,
          say,
          refl,
          model_name-filled req.model,
        )
