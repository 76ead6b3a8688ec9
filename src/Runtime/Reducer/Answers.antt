-- ===== src/Runtime/Reducer/Answers.antt =====
-- What the reducer makes of an answer of the model.
use gm_agent.Prelude.{
  List-cases, sym, ◌∙◌, ℕ, ◌+◌, ◌-◌, String, true, false, Option, none, some, List, [], ◌∷◌, ◌≡◌,
  ◌≢◌, ◌⊎◌, refl, inl, inr, arith, eq_iff, ◌==◌, Bool-cases, Option-cases,
}
use gm_agent.Prelude.Dict.{Dict}
use gm_agent.Prelude.Result.{ok}
use gm_agent.Types.Json.{Json}
use gm_agent.Types.Tool.{ToolCall}
use gm_agent.Types.State.{State}
use gm_agent.Types.Event.{LlmResponseEvent, llm_response}
use gm_agent.Types.Command.{Command, CallToolCommand, call_tool}
use gm_agent.External.{External}
use gm_agent.Runtime.Goals.Laws.{count_active}
use gm_agent.Runtime.Reducer.{
  Reduced, begin, reducer, reduce, is_direct, parse_arguments, tool_commands,
}
use gm_agent.Runtime.Reducer.Parts.{reduce_llm_response-Reduces}
use gm_agent.Runtime.Reducer.Laws.{goals-begin, completed_count}

-- The answer asks for no tool, and its text is neither empty nor a single blank.
abbrev pub IsDirect : LlmResponseEvent → Type 0
IsDirect e = (e.tool_calls ≡ []) × (e.content ≢ "") × (e.content ≢ " ")

cons-nil : {A : Type 0} {x : A} {xs : List A} → x ∷ xs ≢ []
cons-nil h = cc

is_direct-cases :
    (e : LlmResponseEvent)
    → ((is_direct e ≡ true) × IsDirect e) ⊎ ((is_direct e ≡ false) × ¬ IsDirect e)
unfolding is_direct
is_direct-cases e = elim (List-cases e.tool_calls) [
  | inr (tc, tcs, h) ↦ inr (rw (h, is_direct) refl, λ d. cons-nil (sym h ∙ d.0))
  | inl h ↦ elim (Bool-cases (e.content == "")) [
    | inl b ↦ inr (rw (h, b, is_direct) refl, λ d. d.1 (ground (arith, eq_iff e.content "")))
    | inr b ↦ elim (Bool-cases (e.content == " ")) [
      | inl c ↦ inr (rw (h, b, c, is_direct) refl, λ d. d.2 (ground (arith, eq_iff e.content " ")))
      | inr c ↦ inl (
        rw (h, b, c, is_direct) refl,
        (h, ground (arith, eq_iff e.content ""), ground (arith, eq_iff e.content " ")),
      )
    ]
  ]
]

-- The arguments of a command: those that the text of the call encodes, or none where it is empty or
-- does not parse.
abbrev pub IsParsed : External → String → Option (Dict Json) → Type 0
IsParsed ext text got =
    ((m : Option (Dict Json)) × (text ≢ "") × (ext.unmarshal_map text ≡ some m) × (got ≡ m))
    ⊎ (((text ≡ "") ⊎ (ext.unmarshal_map text ≡ none)) × (got ≡ some []))

-- One command for each tool call, in order, with the identifier, the tool and the arguments of the call.
abbrev pub Asks : External → List ToolCall → List Command → Type 0
Asks ext [] cmds = cmds ≡ []
Asks ext (tc ∷ tcs) cmds =
    (c : CallToolCommand) × (rest : List Command) × (cmds ≡ call_tool c ∷ rest)
    × (c.tool_call_id ≡ tc.id)
    × (c.tool_name ≡ tc.name)
    × IsParsed ext tc.arguments c.arguments
    × Asks ext tcs rest

module _ (ext : External) where
  parse_arguments-IsParsed : (text : String) → IsParsed ext text (parse_arguments ext text)
  unfolding parse_arguments
  parse_arguments-IsParsed text = elim (Bool-cases (text == "")) [
    | inl empty ↦ rw (empty, parse_arguments) (inr (inl (ground (arith, eq_iff text "")), refl))
    | inr given ↦ elim (Option-cases (ext.unmarshal_map text)) [
      | inl e ↦ rw (given, e, parse_arguments) (inr (inr refl, refl))
      | inr (m, e) ↦
          rw (given, e, parse_arguments) (inl (m, ground (arith, eq_iff text ""), refl, refl))
    ]
  ]

  tool_commands-Asks : (tcs : List ToolCall) (n : ℕ) → Asks ext tcs (tool_commands ext tcs n)
  unfolding tool_commands
  tool_commands-Asks [] n = refl
  tool_commands-Asks (tc ∷ tcs) n = (
    _,
    tool_commands ext tcs (n + 1),
    refl,
    refl,
    refl,
    parse_arguments-IsParsed tc.arguments,
    tool_commands-Asks tcs (n + 1),
  )

-- After an answer of the model the commands are one `call_tool` for each tool call, in order, with
-- the identifier, the name and the parsed arguments of the call. One goal fewer is active, where one
-- was, if the answer has no tool calls and a text that is neither empty nor a single blank; otherwise
-- the goals are untouched.
pub llm_response-commands :
    (ext : External) (s : State) (e : LlmResponseEvent) (n : ℕ) (r : Reduced)
    → reducer ext s (llm_response e) n ≡ ok r
    → Asks ext e.tool_calls r.commands
      × ((IsDirect e × (count_active r.state.goals ≡ count_active s.goals - 1))
          ⊎ (¬ IsDirect e × (r.state.goals ≡ s.goals)))
unfolding reducer reduce
llm_response-commands ext s e n r h =
    let (reduced, commands, goals) =
      reduce_llm_response-Reduces ext e (begin s (llm_response e)) n h in
    let goals' = rw (goals-begin s (llm_response e)) at goals in
    (
      rw commands (tool_commands-Asks ext e.tool_calls n),
      elim (is_direct-cases e) [
        | inl (b, direct) ↦
            inl (direct, completed_count true s.goals r.state.goals (rw (b) at goals'))
        | inr (b, other) ↦ inr (other, rw (b) at goals')
      ],
    )
