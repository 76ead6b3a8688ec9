-- ===== src/Runtime/Reducer/Parts.antt =====
-- What the handler of each event does to the working copy of the state.
use gm_agent.Prelude.{
  ℕ, ◌≡◌, refl, ap, ◌∙◌, inl, inr, String, true, ◌&&◌, some, List, [], ◌∷◌, ◌++◌, ◌==◌, ◌<+>◌, any,
  arith, Bool-cases, Option-cases, if◌then◌else◌,
}
use gm_agent.Prelude.Result.{bind-eq-ok, ok_injective, ok}
use gm_agent.Types.State.{Message, State, ContextWindow, is_active}
use gm_agent.Types.Event.{
  Event, UserMessageEvent, LlmResponseEvent, ToolResultEvent, user_message, llm_response,
  tool_result,
}
use gm_agent.Runtime.Goals.{new_goal, complete_goal, complete_first}
use gm_agent.Runtime.Goals.Laws.{
  Progress, Progress-refl, Progress-append, complete_first-Progress, any-append,
}
use gm_agent.Runtime.History.{blank_message, append_message, messages_of}
use gm_agent.External.{External, generate_id}
use gm_agent.Runtime.Reducer.{
  Reduced, reduce_user_message, reduce_llm_response, reduce_tool_result, ensure_goal,
  register_artifact, is_direct, respond, conclude, tool_commands,
}

append_message-eq-ok :
    (m : Message) (s t : State)
    → append_message m s ≡ ok t
    → (c : ContextWindow) × (s.context ≡ some c)
      × (t ≡ record s { context = some (record c { messages = c.messages ++ m ∷ [] }) })
unfolding append_message
append_message-eq-ok m s t h = ground (arith, Option-cases s.context)

module _ (ext : External) where
  ensure_goal-active :
      (content : String) (s : State) (n : ℕ)
      → any is_active (ensure_goal ext content s n).state.goals ≡ true
  unfolding ensure_goal new_goal is_active
  ensure_goal-active content s n =
      ground (arith, any-append s.goals (new_goal (generate_id ext "gol" n) content))

  ensure_goal-Progress :
      (content : String) (s : State) (n : ℕ)
      → Progress s.goals (ensure_goal ext content s n).state.goals
  unfolding ensure_goal
  ensure_goal-Progress content s n = elim (Bool-cases (any is_active s.goals)) [
    | inl active ↦ rw active (Progress-refl s.goals)
    | inr idle ↦ rw idle (Progress-append s.goals _)
  ]

  -- The parts of a state that the events of the reducer do not touch.
  register_artifact-keeps :
      (e : ToolResultEvent) (s : State) (n : ℕ)
      → let t = (register_artifact ext e s n).state in
        (t.goals ≡ s.goals)
        × (t.context ≡ s.context)
        × (t.version ≡ s.version)
        × (t.updated_at ≡ s.updated_at)
        × (t.mode ≡ s.mode)
        × (t.plan_content ≡ s.plan_content)
  unfolding register_artifact
  register_artifact-keeps e s n = ground arith

-- What an event does to the working copy of the state, `added` being the new messages.
pub record Reduces (s t : State) (added : List Message) : Type 0 where
  pub version : t.version ≡ s.version
  pub updated_at : t.updated_at ≡ s.updated_at
  pub mode : t.mode ≡ s.mode
  pub plan_content : t.plan_content ≡ s.plan_content
  pub goals : Progress s.goals t.goals
  pub messages : messages_of t ≡ messages_of s ++ added

-- The message that the conversation gains: at most one, from the user, the model or a tool.
abbrev pub spoken : Event → List Message
spoken (user_message e) = record blank_message { role = "user"; content = e.content } ∷ []
spoken (llm_response e) =
    record blank_message {
      role = "assistant";
      content = if e.content == "" then " " else e.content;
      tool_calls = e.tool_calls;
    }
    ∷ []
spoken (tool_result e) =
    record blank_message {
      role = "tool";
      content = if e.success then e.output else "Error: " <+> e.error;
      tool_call_id = e.tool_call_id;
      tool_name = e.tool_name;
    }
    ∷ []
spoken _ = []

append_message-Reduces :
    (m : Message) (s t : State) → append_message m s ≡ ok t → Reduces s t (m ∷ [])
unfolding messages_of
append_message-Reduces m s t h =
    let (c, there, same) = append_message-eq-ok m s t h in
    rw same (record {
      version = refl;
      updated_at = refl;
      mode = refl;
      plan_content = refl;
      goals = Progress-refl s.goals;
      messages = rw there refl;
    })

-- A change of goals on top of a step.
complete_goal-Reduces :
    (s t : State) (added : List Message)
    → Reduces s t added
    → t.goals ≡ s.goals
    → Reduces s (complete_goal t) added
unfolding complete_goal messages_of
complete_goal-Reduces s t added r same = record {
  version = r.version;
  updated_at = r.updated_at;
  mode = r.mode;
  plan_content = r.plan_content;
  goals = rw same (complete_first-Progress s.goals);
  messages = r.messages;
}

append_message-goals : (m : Message) (s t : State) → append_message m s ≡ ok t → t.goals ≡ s.goals
append_message-goals m s t h =
    let (c, there, same) = append_message-eq-ok m s t h in ap (λ (u : State). u.goals) same

module _ (ext : External) where
  ensure_goal-Reduces :
      (content : String) (s t : State) (n : ℕ) (added : List Message)
      → Reduces s t added
      → t.goals ≡ s.goals
      → Reduces s (ensure_goal ext content t n).state added
  unfolding ensure_goal messages_of
  ensure_goal-Reduces content s t n added r same = record {
    version = ground (arith, r.version);
    updated_at = ground (arith, r.updated_at);
    mode = ground (arith, r.mode);
    plan_content = ground (arith, r.plan_content);
    goals = rw (← same) (ensure_goal-Progress ext content t n);
    messages = ground (arith, r.messages);
  }

  pub reduce_user_message-Reduces :
      (e : UserMessageEvent) (s : State) (n : ℕ) {r : Reduced}
      → reduce_user_message ext e s n ≡ ok r
      → Reduces s r.state (spoken (user_message e)) × (any is_active r.state.goals ≡ true)
  unfolding reduce_user_message
  reduce_user_message-Reduces e s n {r} h =
      let (t, appended, done) = bind-eq-ok _ _ h in
      let same = ok_injective _ _ done in
      rw (← same) (
        ensure_goal-Reduces e.content s t n _ (append_message-Reduces _ s t appended)
            (append_message-goals _ s t appended),
        ensure_goal-active ext e.content t n,
      )

  respond-Reduces :
      (e : LlmResponseEvent) (s t : State) (n : ℕ) {added : List Message}
      → Reduces s t added
      → t.goals ≡ s.goals
      → Reduces s (respond ext e t n).state added
        × ((respond ext e t n).commands ≡ tool_commands ext e.tool_calls n)
        × ((respond ext e t n).state.goals
            ≡ (if is_direct e then complete_first s.goals else s.goals))
  unfolding respond
  respond-Reduces e s t n {added} r same = elim (Bool-cases (is_direct e)) [
    | inl direct ↦ rw direct (
      complete_goal-Reduces s t added r same,
      refl,
      unfold complete_goal in ap complete_first same,
    )
    | inr other ↦ rw other (r, refl, same)
  ]

  register_artifact-Reduces :
      (e : ToolResultEvent) (s t : State) (n : ℕ) {added : List Message}
      → Reduces s t added
      → Reduces s (register_artifact ext e t n).state added
        × ((register_artifact ext e t n).commands ≡ [])
  unfolding messages_of register_artifact
  register_artifact-Reduces e s t n r =
      let (goals, context, version, time, mode, plan) = register_artifact-keeps ext e t n in
      (
        record {
          version = version ∙ r.version;
          updated_at = time ∙ r.updated_at;
          mode = mode ∙ r.mode;
          plan_content = plan ∙ r.plan_content;
          goals = rw goals r.goals;
          messages = rw (context, messages_of) r.messages;
        },
        ground arith,
      )

  conclude_file :
      (e : ToolResultEvent) (s t : State) (n : ℕ) {added : List Message}
      → Reduces s t added
      → let file =
          (if e.tool_name == "create_file" && e.success
            then register_artifact ext e t n
            else record { state = t; commands = []; draws = n }) in
        Reduces s file.state added × (file.commands ≡ []) × (file.state.goals ≡ t.goals)
  conclude_file e s t n r = elim (Bool-cases (e.tool_name == "create_file" && e.success)) [
    | inl creates ↦ rw creates (
        let (reduced, idle) = register_artifact-Reduces e s t n r in
        (reduced, idle, (register_artifact-keeps ext e t n).0))
    | inr other ↦ rw other (r, refl, refl)
  ]

  conclude-Reduces :
      (e : ToolResultEvent) (s t : State) (n : ℕ) {added : List Message}
      → Reduces s t added
      → t.goals ≡ s.goals
      → Reduces s (conclude ext e t n).state added
        × ((conclude ext e t n).commands ≡ [])
        × ((conclude ext e t n).state.goals ≡ (
            if e.tool_name == "task_complete" && e.success
            then complete_first s.goals
            else s.goals))
  unfolding conclude
  conclude-Reduces e s t n {added} r same =
      elim (Bool-cases (e.tool_name == "task_complete" && e.success)) [
        | inl ends ↦ rw ends (
            let (reduced, idle, goals) =
              conclude_file e s (complete_goal t) n (complete_goal-Reduces s t added r same) in
            (reduced, idle, goals ∙ unfold complete_goal in ap complete_first same))
        | inr goes_on ↦
            rw goes_on (
              let (reduced, idle, goals) = conclude_file e s t n r in (reduced, idle, goals ∙ same))
      ]

  pub reduce_llm_response-Reduces :
      (e : LlmResponseEvent) (s : State) (n : ℕ) {r : Reduced}
      → reduce_llm_response ext e s n ≡ ok r
      → Reduces s r.state (spoken (llm_response e))
        × (r.commands ≡ tool_commands ext e.tool_calls n)
        × (r.state.goals ≡ (if is_direct e then complete_first s.goals else s.goals))
  unfolding reduce_llm_response
  reduce_llm_response-Reduces e s n {r} h =
      let (t, appended, done) = bind-eq-ok _ _ h in
      let same : respond ext e t n ≡ r = ok_injective _ _ done in
      rw (← same) (
        respond-Reduces e s t n (append_message-Reduces _ s t appended)
          (append_message-goals _ s t appended))

  pub reduce_tool_result-Reduces :
      (e : ToolResultEvent) (s : State) (n : ℕ) {r : Reduced}
      → reduce_tool_result ext e s n ≡ ok r
      → Reduces s r.state (spoken (tool_result e))
        × (r.commands ≡ [])
        × (r.state.goals ≡ (
            if e.tool_name == "task_complete" && e.success
            then complete_first s.goals
            else s.goals))
  unfolding reduce_tool_result
  reduce_tool_result-Reduces e s n {r} h =
      let (t, appended, done) = bind-eq-ok _ _ h in
      let same : conclude ext e t n ≡ r = ok_injective _ _ done in
      rw (← same) (
        conclude-Reduces e s t n (append_message-Reduces _ s t appended)
          (append_message-goals _ s t appended))
