-- ===== src/Runtime/Dispatcher/Laws.antt =====
-- Every command that can be carried out is answered by one event, in order.
use gm_agent.Prelude.{
  ℕ, ◌≡◌, refl, sym, ◌∙◌, ◌⊎◌, inl, inr, Bool, true, false, List, [], ◌∷◌, ◌++◌, append-nil,
  append_assoc, arith, Option-cases,
}
use gm_agent.Prelude.Result.{Error, Reply, value, failed, Reply-cases}
use gm_agent.Types.Tool.{RuntimeMode, ToolResult}
use gm_agent.Types.Event.{
  Event, LlmResponseEvent, ToolResultEvent, ErrorEvent, llm_response, tool_result, error,
}
use gm_agent.Types.Command.{
  Command, CallLlmCommand, CallToolCommand, call_llm, call_tool, command_id,
}
use gm_agent.Runtime.Services.{Services, ChatRequest, ChatResponse}
use gm_agent.External.{External}
use gm_agent.Runtime.Dispatcher.{
  fall_back, create_response_event, encode_arguments, streamed_event, execute_call_llm,
  execute_call_tool, carry_out, error_event, tool_result_event, collect, run_commands, persist,
  dispatch,
}

-- A failed command is answered by an error event with the command's id.
abbrev pub Reports : Command → Event → Type 0
Reports c e = (x : ErrorEvent) × (e ≡ error x) × (x.command_id ≡ command_id c)

abbrev pub Answers : Command → Event → Type 0
Answers (call_llm c) e = ((x : LlmResponseEvent) × (e ≡ llm_response x)) ⊎ Reports (call_llm c) e
Answers (call_tool c) e =
    ((x : ToolResultEvent) × (e ≡ tool_result x)
      × (x.tool_call_id ≡ c.tool_call_id)
      × (x.tool_name ≡ c.tool_name))
    ⊎ Reports (call_tool c) e
Answers c e = ⊥

-- The commands that the dispatcher knows.
abbrev pub is_known : Command → Bool
is_known (call_llm c) = true
is_known (call_tool c) = true
is_known _ = false

pub data Answered : List Command → List Event → Type 0 where
  done : Answered [] []
  answered :
      {c : Command} {e : Event} {cs : List Command} {es : List Event}
      → Answers c e
      → Answered cs es
      → Answered (c ∷ cs) (e ∷ es)
  passed_over :
      {c : Command} {cs : List Command} {es : List Event}
      → is_known c ≡ false
      → Answered cs es
      → Answered (c ∷ cs) es

-- The answer of one command.
abbrev Covers : Command → List Event → Type 0
Covers c es = ((e : Event) × (es ≡ e ∷ []) × Answers c e) ⊎ ((is_known c ≡ false) × (es ≡ []))

module _ (ext : External) {W : Type 0} (srv : Services W) where
  error_event-Reports : (c : Command) (x : Error) (n : ℕ) → Reports c (error_event ext srv c x n)
  unfolding error_event
  error_event-Reports c x n = (_, refl, refl)

  tool_result_event-Answers :
      (c : CallToolCommand) (reply : Reply ToolResult) (n : ℕ)
      → Answers (call_tool c) (tool_result_event ext srv c reply n)
  unfolding tool_result_event
  tool_result_event-Answers c (value r) n = inl (_, refl, refl, refl)
  tool_result_event-Answers c (failed x) n = inl (_, refl, refl, refl)

  collect-call_tool :
      (mode : RuntimeMode) (c : CallToolCommand) (n : ℕ) (w : W)
      → Covers
          (call_tool c)
          (collect ext srv (call_tool c) (execute_call_tool ext srv mode c n w)).0
  unfolding collect execute_call_tool
  collect-call_tool mode c n w = elim (Reply-cases (encode_arguments ext srv c.arguments)) [
    | inl (text, e) ↦
        rw (e, execute_call_tool, collect) (inl (_, refl, tool_result_event-Answers c _ n))
    | inr (x, e) ↦
        rw (e, execute_call_tool, collect)
          (inl (_, refl, inr (error_event-Reports (call_tool c) x _)))
  ]

  collect-fall_back :
      (c : CallLlmCommand) (resp : Reply ChatResponse) (n : ℕ) (w : W)
      → Covers (call_llm c) (collect ext srv (call_llm c) (fall_back ext srv resp n w)).0
  unfolding collect fall_back create_response_event
  collect-fall_back c (value resp) n w = inl (_, refl, inl (_, refl))
  collect-fall_back c (failed x) n w = inl (_, refl, inr (error_event-Reports (call_llm c) x n))

  collect-call_llm :
      (c : CallLlmCommand) (n : ℕ) (w : W)
      → Covers (call_llm c) (collect ext srv (call_llm c) (execute_call_llm ext srv c n w)).0
  unfolding collect execute_call_llm streamed_event
  collect-call_llm c n w =
      let req : ChatRequest = record { model = c.model; messages = c.messages; tools = c.tools } in
      elim (Reply-cases (srv.llm.stream_chat req w).0) [
        | inl (chunks, e) ↦ rw (e, execute_call_llm, collect) (inl (_, refl, inl (_, refl)))
        | inr (x, e) ↦ rw (e, execute_call_llm) (collect-fall_back c _ n _)
      ]

  collect-Covers :
      (mode : RuntimeMode) (c : Command) (n : ℕ) (w : W)
      → Covers c (collect ext srv c (carry_out ext srv mode c n w)).0
  unfolding carry_out collect
  collect-Covers mode (call_llm c) n w = collect-call_llm c n w
  collect-Covers mode (call_tool c) n w = collect-call_tool mode c n w
  collect-Covers mode _ n w = inr (refl, refl)

  Covers-Answered :
      (c : Command) (produced : List Event) (cs : List Command) (es : List Event)
      → Covers c produced
      → Answered cs es
      → Answered (c ∷ cs) (produced ++ es)
  Covers-Answered c produced cs es (inl (e, same, answer)) h = rw same (answered answer h)
  Covers-Answered c produced cs es (inr (unknown, same)) h = rw same (passed_over unknown h)

  -- The events so far stay, and what is added answers the commands that are left.
  run_commands-Answered :
      (mode : RuntimeMode) (cs : List Command) (events : List Event) (n : ℕ) (w : W)
      → (es : List Event) × ((run_commands ext srv mode cs events n w).0 ≡ events ++ es)
        × Answered cs es
  unfolding run_commands
  run_commands-Answered mode [] events n w = ([], sym (append-nil events), done)
  run_commands-Answered mode (c ∷ cs) events n w =
      let (produced, n', w') = collect ext srv c (carry_out ext srv mode c n w) in
      let (es, same, h) = run_commands-Answered mode cs (events ++ produced) n' w' in
      (
        produced ++ es,
        same ∙ append_assoc events produced es,
        Covers-Answered c produced cs es (collect-Covers mode c n w) h,
      )

  persist-eq-value :
      (es kept : List Event) (w : W) → (persist ext srv es w).0 ≡ value kept → kept ≡ es
  unfolding persist
  persist-eq-value [] kept w h = ground arith
  persist-eq-value (e ∷ es) kept w h =
      ground (arith, Option-cases (srv.store.append_events (e ∷ es) w).0)

-- The events that `dispatch` returns answer its commands, in order: one event for each call of the
-- model or of a tool (a call's own result, or an error event that names the command), and none for
-- any other command. A tool's result carries the id and the name of its call.
pub dispatch-Answered :
    (ext : External) {W : Type 0} (srv : Services W) (mode : RuntimeMode) (cs : List Command)
    (n : ℕ) (w : W) (es : List Event)
    → (dispatch ext srv mode cs n w).events ≡ value es
    → Answered cs es
unfolding dispatch
dispatch-Answered ext srv mode cs n w es h =
    let (es', same, answers) = run_commands-Answered ext srv mode cs [] n w in
    rw (persist-eq-value ext srv _ es _ h ∙ same) answers
