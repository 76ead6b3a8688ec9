-- ===== src/Runtime/Tests.antt =====
-- The dispatcher and the loop over services whose world is the number of calls made so far.
use gm_agent.Prelude.{ℕ, suc, ◌≡◌, ◌≢◌, refl, ◌⊎◌, true, false, Option, none, List, [], ◌∷◌, length}
use gm_agent.Prelude.Result.{Error, value, failed, message}
use gm_agent.Types.Event.{Event, user_message}
use gm_agent.Types.Command.{Command, call_tool, save_checkpoint}
use gm_agent.Runtime.Services.{Services}
use gm_agent.Runtime.Core.{Runtime, apply_event}
use gm_agent.Runtime.Core.Laws.{Keeps}
use gm_agent.Runtime.Dispatcher.{dispatch}
use gm_agent.Runtime.Dispatcher.Laws.{Answered, dispatch-Answered}
use gm_agent.Runtime.Loop.{run, recover, ingest}
use gm_agent.Runtime.Loop.Rounds.{Justified}
use gm_agent.Runtime.Loop.Laws.{IsCancelled, run-Justified, ingest_order}
use gm_agent.Samples.{external, base, busy, writer}

-- The model answers at once with a text; the store accepts everything and holds no state.
abbrev services : Services ℕ
services = record {
  llm = record {
    chat = λ req w. (failed (message "down"), suc w);
    stream_chat = λ req w. (value (record { content = "hi"; tool_calls = [] } ∷ []), suc w);
  };
  tools = record {
    execute = λ mode call w. (
      value (record {
        tool_call_id = call.id;
        tool_name = call.name;
        content = "done";
        is_error = false;
        error = "";
      }),
      suc w,
    );
    list = λ w. writer ∷ [];
  };
  store = record {
    append_event = λ e w. (none, suc w);
    append_events = λ es w. (none, suc w);
    save_state = λ s w. (none, suc w);
    save_checkpoint = λ c w. (none, suc w);
    load_latest_state = λ w. failed Error.not_found;
  };
  flush = λ w. ([], w);
  done = λ w. false;
}

abbrev runtime : Runtime
runtime = record {
  config = record { max_steps = 5; checkpoint_interval = 10; model = "m" };
  state = busy;
  pending_commands = [];
  tracked = true;
  draws = 0;
}

abbrev commands : List Command
commands =
    call_tool (record {
      base = record { id = "cmd_1"; type = "call_tool" };
      tool_call_id = "call_1";
      tool_name = "write_file";
      arguments = none;
    })
    ∷ save_checkpoint (record { id = "cmd_2"; type = "save_checkpoint" })
    ∷ []

abbrev events : List Event
events = elim (dispatch external services "executing" commands 0 0).events [
  | value es ↦ es
  | failed x ↦ []
]

one_answer : length events ≡ 1
unfolding dispatch
one_answer = refl

dispatch-Answered_example : Answered commands events
unfolding dispatch
dispatch-Answered_example = dispatch-Answered external services "executing" commands 0 0 events refl

abbrev greeting : Event
greeting = user_message (record { base = base; content = "hello"; priority = 0; semantic = "" })

run-Justified_example :
    Keeps (recover external services runtime 0).1 (run external services runtime 0).1
    × Justified
        (IsCancelled external services 0 (recover external services runtime 0).1 0)
        (run external services runtime 0).0
        (run external services runtime 0).1
run-Justified_example = run-Justified external services runtime 0

abbrev after_greeting : Option Error × Runtime × ℕ
after_greeting = ingest external services greeting runtime 0

ingest_order_example :
    ((w1 : ℕ) × (services.store.append_event greeting 0 ≡ (none, w1))
      × (apply_event external greeting runtime ≡ value after_greeting.1)
      × (services.store.save_state after_greeting.1.state w1
          ≡ (after_greeting.0, after_greeting.2)))
    ⊎ ((after_greeting.0 ≢ none) × (after_greeting.1 ≡ runtime))
ingest_order_example =
    ingest_order external services greeting runtime after_greeting.1 0 after_greeting.2
      after_greeting.0 refl
