-- ===== src/Runtime/Reducer/Tests.antt =====
-- Steps of the reducer on concrete states and events.
use gm_agent.Prelude.{◌≡◌, refl, true, none, [], ◌≢◌, ◌<+>◌, ◌-◌, ◌⊎◌}
use gm_agent.Prelude.Result.{ok, err, message}
use gm_agent.Types.State.{State, is_active}
use gm_agent.Types.Clone.{clone}
use gm_agent.Types.Event.{
  Event, UserMessageEvent, LlmResponseEvent, ToolResultEvent, user_message, llm_response,
  tool_result,
}
use gm_agent.Runtime.History.{nil_dereference}
use gm_agent.Runtime.Goals.Laws.{count_active}
use gm_agent.Runtime.Reducer.{Reduced, reducer, safe_reduce}
use gm_agent.Runtime.Reducer.Parts.{spoken}
use gm_agent.Runtime.Reducer.Laws.{Steps, reducer-Steps, safe_reduce_total, tool_result-goals}
use gm_agent.Runtime.Reducer.Answers.{Asks, IsDirect, llm_response-commands}
use gm_agent.Samples.{external, base, busy}

abbrev hello : UserMessageEvent
hello = record { base = base; content = "hello"; priority = 0; semantic = "append" }

abbrev answer : LlmResponseEvent
answer = record {
  base = base;
  model = "m";
  content = "hi";
  tool_calls = [];
  usage = record { prompt_tokens = 0; completion_tokens = 0; total_tokens = 0 };
}

abbrev finished : ToolResultEvent
finished = record {
  base = base;
  tool_call_id = "call_1";
  tool_name = "task_complete";
  success = true;
  output = "done";
  error = "";
  duration = 0;
}

-- The value of a step, for the tests that need it.
abbrev value : (e : Event) → Reduced
value e = elim (reducer external busy e 0) [
  | ok r ↦ r
  | _ ↦ record { state = busy; commands = []; draws = 0 }
]

reducer-Steps_example : Steps busy (value (user_message hello)).state (user_message hello)
unfolding reducer clone
reducer-Steps_example =
    reducer-Steps external busy (user_message hello) 0 (value (user_message hello)) refl

answer_ends_goal : count_active (value (llm_response answer)).state.goals ≡ 0
unfolding reducer clone is_active
answer_ends_goal = refl

llm_response-commands_example :
    Asks external [] (value (llm_response answer)).commands
    × ((IsDirect answer
          × (count_active (value (llm_response answer)).state.goals ≡ count_active busy.goals - 1))
        ⊎ (¬ IsDirect answer × ((value (llm_response answer)).state.goals ≡ busy.goals)))
unfolding reducer clone
llm_response-commands_example =
    llm_response-commands external busy answer 0 (value (llm_response answer)) refl

tool_result-goals_example :
    ((value (tool_result finished)).commands ≡ [])
    × (count_active (value (tool_result finished)).state.goals ≡ count_active busy.goals - 1)
unfolding reducer clone
tool_result-goals_example =
    tool_result-goals external busy finished 0 (value (tool_result finished)) refl

abbrev lost : State
lost = record busy { context = none }

safe_reduce_total_example :
    ((lost.context ≡ none)
      → spoken (user_message hello) ≢ []
      → safe_reduce external lost (user_message hello) 0
        ≡ err (message ("reducer panic: " <+> nil_dereference <+> "\nstack: " <+> external.stack)))
    × ((lost.context ≢ none) ⊎ (spoken (user_message hello) ≡ [])
        → (r : Reduced) × (safe_reduce external lost (user_message hello) 0 ≡ ok r)
          × (reducer external lost (user_message hello) 0 ≡ ok r))
safe_reduce_total_example = safe_reduce_total external lost (user_message hello) 0
