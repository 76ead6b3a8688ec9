-- ===== src/Cli/Run/Tests.antt =====
-- The command `run` on the events that the server sends.
use gm_agent.Prelude.{String, [], ◌∷◌, ◌≡◌, refl}
use gm_agent.Prelude.Result.{value}
use gm_agent.Cli.Client.{StreamEvent}
use gm_agent.Cli.Run.{show_events}

abbrev event_of : String → String → StreamEvent
event_of type body = record { type = type; body = body }

answer_test :
    show_events value (
      event_of "connected" "{}"
      ∷ event_of "llm_response" "hello"
      ∷ event_of "session_ended" "{}"
      ∷ event_of "error" "late"
      ∷ [])
    ≡ ""
unfolding show_events
answer_test = refl

message_test :
    show_events value (event_of "assistant_message" "hello" ∷ event_of "error" "x" ∷ [])
    ≡ "hello\nError: x\n"
unfolding show_events
message_test = refl
