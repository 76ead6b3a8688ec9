-- ===== src/Llm/Openai/Laws.antt =====
-- What the provider of OpenAI makes of messages, tools and answers.
use gm_agent.Prelude.{
  String, ◌≡◌, ◌≢◌, ◌⊎◌, ap, refl, List, [], ◌∷◌, map, false, ◌==◌, arith, All, if◌then◌else◌,
  Bool-cases, inl, inr, eq_iff,
}
use gm_agent.Types.Tool.{ToolCall}
use gm_agent.Types.State.{Message}
use gm_agent.Llm.Openai.{
  WireCall, WireMessage, wire_call, convert_message, convert_messages, convert_tool_calls,
}

-- The wire message says what the message says, and its content is never empty.
pub record Carries (m : Message) (w : WireMessage) : Type 0 where
  pub role : w.role ≡ m.role
  pub filled : (w.content == "") ≡ false
  pub content : (w.content ≡ m.content) ⊎ ((m.content ≡ "") × (w.content ≡ " "))
  pub answers :
      ((m.role ≡ "tool") × (w.tool_call_id ≡ m.tool_call_id))
      ⊎ ((m.role ≢ "tool") × (w.tool_call_id ≡ ""))
  pub calls : convert_tool_calls w.tool_calls ≡ m.tool_calls
  pub functions : All (λ (c : WireCall). c.type ≡ "function") w.tool_calls

abbrev pub Carried : List Message → List WireMessage → Type 0
Carried [] [] = Unit
Carried [] (_ ∷ _) = ⊥
Carried (_ ∷ _) [] = ⊥
Carried (m ∷ ms) (w ∷ ws) = Carries m w × Carried ms ws

convert_tool_calls-wire_call : (cs : List ToolCall) → convert_tool_calls (map wire_call cs) ≡ cs
unfolding convert_tool_calls wire_call
convert_tool_calls-wire_call [] = refl
convert_tool_calls-wire_call (c ∷ cs) =
    ap (λ (t : List ToolCall). c ∷ t) (convert_tool_calls-wire_call cs)

wire_call-function :
    (cs : List ToolCall) → All (λ (c : WireCall). c.type ≡ "function") (map wire_call cs)
unfolding wire_call
wire_call-function [] = tt
wire_call-function (c ∷ cs) = (refl, wire_call-function cs)

filled_lem : (content : String) → ((if content == "" then " " else content) == "") ≡ false
filled_lem content = elim (Bool-cases (content == "")) [ inl e ↦ rw e refl | inr e ↦ rw e e ]

convert_message-Carries : (m : Message) → Carries m (convert_message m)
unfolding convert_message
convert_message-Carries m = record {
  role = refl;
  filled = filled_lem m.content;
  content = ground (arith, eq_iff m.content "");
  answers = ground (arith, eq_iff m.role "tool");
  calls = convert_tool_calls-wire_call m.tool_calls;
  functions = wire_call-function m.tool_calls;
}

-- Every message of the state goes to the model in its place.
pub convert_messages-Carried : (ms : List Message) → Carried ms (convert_messages ms)
unfolding convert_messages
convert_messages-Carried [] = tt
convert_messages-Carried (m ∷ ms) = (convert_message-Carries m, convert_messages-Carried ms)
