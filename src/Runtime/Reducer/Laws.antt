-- ===== src/Runtime/Reducer/Laws.antt =====
-- What one event does to the goals, the conversation and the version of the state, and when the
-- reducer panics.
use gm_agent.Prelude.{
  ℕ, ◌+◌, ◌-◌, ◌%◌, ◌^◌, ◌≡◌, refl, sym, ap, ◌∙◌, ◌⊎◌, inl, inr, ◌≢◌, String, Bool, true, ◌&&◌,
  none, some, List, [], ◌∷◌, ◌++◌, ◌==◌, ◌<+>◌, any, arith, Bool-cases, Option-cases, append-nil,
  if◌then◌else◌,
}
use gm_agent.Prelude.Result.{Result-cases, ok_injective, ok, err, panic, message, ◌>>=◌}
use gm_agent.Types.State.{Goal, Message, State, is_active}
use gm_agent.Types.Clone.{clone}
use gm_agent.Types.Clone.Laws.{goals-clone, context-clone}
use gm_agent.Types.Event.{
  Event, UserMessageEvent, ToolResultEvent, user_message, system_prompt, llm_response, tool_result,
  event_timestamp,
}
use gm_agent.Runtime.Goals.{complete_first}
use gm_agent.Runtime.Goals.Laws.{Progress, Progress-refl, count_active, count_active-complete_first}
use gm_agent.Runtime.History.{nil_dereference, append_message, messages_of}
use gm_agent.External.{External}
use gm_agent.Runtime.Reducer.{
  Reduced, begin, reduce, reduce_user_message, reduce_llm_response, reduce_tool_result, ensure_goal,
  respond, conclude, reducer, safe_reduce,
}
use gm_agent.Runtime.Reducer.Parts.{
  Reduces, spoken, reduce_user_message-Reduces, reduce_llm_response-Reduces,
  reduce_tool_result-Reduces,
}

-- What a step leaves alone or changes in a known way.
pub record Steps (s t : State) (e : Event) : Type 0 where
  pub version : t.version ≡ (s.version + 1) % 2 ^ 64
  pub updated_at : t.updated_at ≡ event_timestamp e
  pub mode : t.mode ≡ s.mode
  pub plan_content : t.plan_content ≡ s.plan_content
  pub goals : Progress s.goals t.goals
  pub messages : messages_of t ≡ messages_of s ++ spoken e

messages_of-begin : (s : State) (e : Event) → messages_of (begin s e) ≡ messages_of s
unfolding messages_of begin
messages_of-begin s e = rw (context-clone s)

Reduces-Steps : (s t : State) (e : Event) → Reduces (begin s e) t (spoken e) → Steps s t e
unfolding begin clone
Reduces-Steps s t e r = record {
  version = r.version;
  updated_at = r.updated_at;
  mode = r.mode;
  plan_content = r.plan_content;
  goals = rw (goals-clone s) at r.goals;
  messages = r.messages ∙ ap (λ ms. ms ++ spoken e) (messages_of-begin s e);
}

Reduces-refl : (s : State) → Reduces s s []
Reduces-refl s = record {
  version = refl;
  updated_at = refl;
  mode = refl;
  plan_content = refl;
  goals = Progress-refl s.goals;
  messages = sym (append-nil _);
}

prompt-Reduces : (s : State) (prompt : String) → Reduces s (record s { system_prompt = prompt }) []
unfolding messages_of
prompt-Reduces s prompt = record {
  version = refl;
  updated_at = refl;
  mode = refl;
  plan_content = refl;
  goals = Progress-refl s.goals;
  messages = sym (append-nil _);
}

ok-Reduces :
    (s t : State) (n : ℕ) {r : Reduced}
    → Reduces s t []
    → ok (record { state = t; commands = []; draws = n }) ≡ ok r
    → Reduces s r.state []
ok-Reduces s t n {r} k h = let same = ok_injective _ r h in rw (← same) k

module _ (ext : External) where
  reduce-Reduces :
      (e : Event) (s : State) (n : ℕ) {r : Reduced}
      → reduce ext e s n ≡ ok r
      → Reduces s r.state (spoken e)
  unfolding reduce
  reduce-Reduces (user_message e) s n h = (reduce_user_message-Reduces ext e s n h).0
  reduce-Reduces (llm_response e) s n h = (reduce_llm_response-Reduces ext e s n h).0
  reduce-Reduces (tool_result e) s n h = (reduce_tool_result-Reduces ext e s n h).0
  reduce-Reduces (system_prompt e) s n {r} h =
      ok-Reduces s (record s { system_prompt = e.prompt }) n (prompt-Reduces s e.prompt) h
  reduce-Reduces _ s n h = ok-Reduces s s n (Reduces-refl s) h

-- Whatever the event, a step that does not panic adds one to the version modulo 2^64, takes the
-- event's time, and leaves the mode and the plan alone; every goal keeps its place and its status,
-- or is active and becomes completed, and at most one goal is added, at the end; the conversation
-- gains exactly the message that the event speaks, at its end.
pub reducer-Steps :
    (ext : External) (s : State) (e : Event) (n : ℕ) (r : Reduced)
    → reducer ext s e n ≡ ok r
    → Steps s r.state e
unfolding reducer
reducer-Steps ext s e n r h = Reduces-Steps s r.state e (reduce-Reduces ext e (begin s e) n h)

append_message_returns :
    (m : Message) (s : State) (f : State → Reduced)
    → s.context ≢ none
    → (r : Reduced) × ((append_message m s >>= λ t. ok (f t)) ≡ ok r)
unfolding append_message
append_message_returns m s f h = elim (Option-cases s.context) [
  | inl missing ↦ absurd (h missing)
  | inr (c, there) ↦
      (f (record s { context = some (record c { messages = c.messages ++ m ∷ [] }) }), rw there)
]

present {ℓ κ} : {A : Type ℓ} {B : Type κ} → A ⊎ B → ¬ B → A
present (inl a) h = a
present (inr b) h = absurd (h b)

module _ (ext : External) where
  reduce-panic :
      (e : Event) (s : State) (n : ℕ)
      → s.context ≡ none
      → spoken e ≢ []
      → reduce ext e s n ≡ panic nil_dereference
  unfolding reduce reduce_user_message reduce_llm_response reduce_tool_result append_message
  reduce-panic (user_message e) s n missing h = rw missing
  reduce-panic (llm_response e) s n missing h = rw missing
  reduce-panic (tool_result e) s n missing h = rw missing
  reduce-panic _ s n missing h = absurd (h refl)

  reduce_returns :
      (e : Event) (s : State) (n : ℕ)
      → (s.context ≢ none) ⊎ (spoken e ≡ [])
      → (r : Reduced) × (reduce ext e s n ≡ ok r)
  unfolding reduce reduce_user_message reduce_llm_response reduce_tool_result
  reduce_returns (system_prompt e) s n h = (_, refl)
  reduce_returns (user_message e) s n h =
      append_message_returns _ s (λ t. ensure_goal ext e.content t n) (present h (λ p. cc))
  reduce_returns (llm_response e) s n h =
      append_message_returns _ s (λ t. respond ext e t n) (present h (λ p. cc))
  reduce_returns (tool_result e) s n h =
      append_message_returns _ s (λ t. conclude ext e t n) (present h (λ p. cc))
  reduce_returns _ s n h = (_, refl)

pub goals-begin : (s : State) (e : Event) → (begin s e).goals ≡ s.goals
unfolding begin
goals-begin s e = goals-clone s

context-begin : (s : State) (e : Event) → (begin s e).context ≡ s.context
unfolding begin
context-begin s e = context-clone s

-- A step never panics. It fails, with the recovered panic, where the state has no context and the
-- event would add a message to it, and in all other cases it returns.
pub safe_reduce_total :
    (ext : External) (s : State) (e : Event) (n : ℕ)
    → ((s.context ≡ none)
        → spoken e ≢ []
        → safe_reduce ext s e n
          ≡ err (message ("reducer panic: " <+> nil_dereference <+> "\nstack: " <+> ext.stack)))
      × ((s.context ≢ none) ⊎ (spoken e ≡ [])
          → (r : Reduced) × (safe_reduce ext s e n ≡ ok r) × (reducer ext s e n ≡ ok r))
unfolding safe_reduce reducer
safe_reduce_total ext s e n = (
  λ missing speaks. rw (reduce-panic ext e (begin s e) n (context-begin s e ∙ missing) speaks),
  λ fine.
      let (r, done) = reduce_returns ext e (begin s e) n (rw context-begin fine) in
      (r, rw done, done),
)

-- What a step returns is what the reducer returned.
pub safe_reduce-eq-ok :
    (ext : External) (s : State) (e : Event) (n : ℕ) (r : Reduced)
    → safe_reduce ext s e n ≡ ok r
    → reducer ext s e n ≡ ok r
unfolding safe_reduce
safe_reduce-eq-ok ext s e n r h = elim (Result-cases (reducer ext s e n)) [
  | inl (d, done) ↦ done ∙ (rw (done, safe_reduce) at h)
  | inr (inl (x, failed)) ↦ cc (rw (failed, safe_reduce) at h)
  | inr (inr (p, failed)) ↦ cc (rw (failed, safe_reduce) at h)
]

-- After a user's message some goal is active.
pub user_message-active :
    (ext : External) (s : State) (e : UserMessageEvent) (n : ℕ) (r : Reduced)
    → reducer ext s (user_message e) n ≡ ok r
    → any is_active r.state.goals ≡ true
unfolding reducer reduce
user_message-active ext s e n r h =
    (reduce_user_message-Reduces ext e (begin s (user_message e)) n h).1

pub completed_count :
    (b : Bool) (gs hs : List Goal)
    → hs ≡ (if b then complete_first gs else gs)
    → count_active hs ≡ (if b then count_active gs - 1 else count_active gs)
completed_count b gs hs h = ground (arith, h, count_active-complete_first gs, Bool-cases b)

-- After the result of a tool nothing is asked for, and exactly a successful `task_complete` makes
-- one goal fewer active.
pub tool_result-goals :
    (ext : External) (s : State) (e : ToolResultEvent) (n : ℕ) (r : Reduced)
    → reducer ext s (tool_result e) n ≡ ok r
    → (r.commands ≡ [])
      × (count_active r.state.goals ≡ (
          if e.tool_name == "task_complete" && e.success
          then count_active s.goals - 1
          else count_active s.goals))
unfolding reducer reduce
tool_result-goals ext s e n r h =
    let (reduced, commands, goals) =
      reduce_tool_result-Reduces ext e (begin s (tool_result e)) n h in
    (
      commands,
      completed_count (e.tool_name == "task_complete" && e.success) s.goals r.state.goals
          (rw (goals-begin s (tool_result e)) at goals),
    )
