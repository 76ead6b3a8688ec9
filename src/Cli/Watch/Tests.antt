-- ===== src/Cli/Watch/Tests.antt =====
-- A client that watches a session while its log gets two events.
use gm_agent.Prelude.{ℕ, String, none, List, [], ◌∷◌, map, ◌≡◌, refl, eqb, if◌then◌else◌, arith}
use gm_agent.Prelude.Result.{value, failed, not_found}
use gm_agent.Prelude.Trim.{left_trim, right_trim}
use gm_agent.Types.Event.{Event, user_message, base_of, event_id}
use gm_agent.Session.Service.{Resources, Session, Sessions, find}
use gm_agent.Store.Events.Scan.{behind, events_after}
use gm_agent.Api.Sse
use gm_agent.Api.Sse.{tick, written, connected_body}
use gm_agent.Api.Sse.Laws.{Shows, final}
use gm_agent.Cli.Client
use gm_agent.Cli.Client.Laws.{joined}
use gm_agent.Cli.Watch.{watch-Complete}

abbrev event_of : String → Event
event_of id = user_message (record {
  base = record {
    id = id;
    type = "user_request";
    timestamp = 1;
    actor = "user";
    subject = "ses_1";
  };
  content = "hello";
  priority = 0;
  semantic = "";
})

-- The world is the number of events in the log.
abbrev log : ℕ → List Event
log n =
    if eqb n 0
    then []
    else if eqb n 1
    then event_of "evt_1" ∷ []
    else event_of "evt_1" ∷ event_of "evt_2" ∷ []

abbrev resources : Resources ℕ
resources = record {
  ingest = λ e w. (none, w);
  get_state = λ w. none;
  cancel = λ w. w;
  load_checkpoint = λ id w. failed not_found;
  list_checkpoints = λ w. value [];
  save_state = λ s w. (none, w);
  rollback = none;
  respond = none;
  get_events_since = λ after w. (events_after after (log w), none);
}

abbrev session : Session ℕ
session = record {
  id = "ses_1";
  status = "running";
  created_at = 0;
  last_error = "";
  resources = resources;
  runs = 1;
}

abbrev table : Sessions ℕ
table = ("ses_1", session) ∷ []

abbrev polls : List ℕ
polls = 0 ∷ 1 ∷ 1 ∷ 2 ∷ []

snapshot0-Shows : Shows (λ e. value (event_id e)) event_id resources log 0
unfolding event_id base_of
snapshot0-Shows = record { since = λ after. refl; numbered = ground arith; marshals = ground arith }

snapshot1-Shows : Shows (λ e. value (event_id e)) event_id resources log 1
unfolding event_id base_of
snapshot1-Shows = record { since = λ after. refl; numbered = ground arith; marshals = ground arith }

snapshot2-Shows : Shows (λ e. value (event_id e)) event_id resources log 2
unfolding event_id base_of
snapshot2-Shows = record { since = λ after. refl; numbered = ground arith; marshals = ground arith }

watch-Complete_example :
    (chunks : List String) × (Sse.stream_events
        (λ e. value (event_id e))
        "ses_1"
        ""
        table
        (map tick polls)
      ≡ written chunks)
    × (Client.stream_events (joined chunks)
        ≡ record { type = "connected"; body = "{\"session_id\":\"ses_1\"}" }
          ∷ record { type = "user_request"; body = "evt_1" }
          ∷ record { type = "user_request"; body = "evt_2" }
          ∷ [])
unfolding events_after behind event_id left_trim right_trim final find base_of
watch-Complete_example =
    watch-Complete (λ e. value (event_id e)) event_id log "ses_1" "" table session polls refl
      (ground arith)
      (
        ([], refl),
        ((event_of "evt_1" ∷ [], refl), (([], refl), ((event_of "evt_2" ∷ [], refl), tt))),
      )
      (snapshot0-Shows, (snapshot1-Shows, (snapshot1-Shows, (snapshot2-Shows, tt)))) (ground arith)
