-- ===== src/Api/Tests.antt =====
-- Requests to a server with one session, and one configured key.
use gm_agent.Prelude.{String, true, none, [], ◌∷◌, ◌≡◌, refl, arith, eq_iff}
use gm_agent.Prelude.Dict.{lookup}
use gm_agent.Prelude.Result.{ok, value, failed, message}
use gm_agent.Session.Service.{Factory, Resources}
use gm_agent.Samples.{external}
use gm_agent.Api.Handler.{Files, Server}
use gm_agent.Api.{delete_session, cancel_session, message_to, handle, serve}
use gm_agent.Api.Laws.{missing, is_readable, session_of, handle-missing, handle-Keeps}

abbrev resources : Resources String
resources = record {
  ingest = λ e w. (none, w);
  get_state = λ w. none;
  cancel = λ w. "cancelled";
  load_checkpoint = λ id w. failed (message "none");
  list_checkpoints = λ w. value [];
  save_state = λ s w. (none, w);
  rollback = none;
  respond = none;
  get_events_since = λ after w. ([], none);
}

abbrev factory : Factory String
factory id w = (value resources, w)

abbrev files : Files
files = record { exists = λ path. true }

abbrev server : Server String
server = record {
  sessions =
      (
        "ses_1",
        record {
          id = "ses_1";
          status = "running";
          created_at = 0;
          last_error = "";
          resources = resources;
          runs = 1;
        },
      )
      ∷ [];
  draws = 0;
  world = "running";
}

-- Without a configured key everybody may cancel.
open_server :
    (serve external files factory "" "" (cancel_session "ses_1") server).1.world ≡ "cancelled"
unfolding serve
open_server = refl

handle-missing_example :
    handle external files factory
      (message_to "ses_2" (value (record { content = "hi"; semantic = "" })))
      server
    ≡ (ok missing, server)
unfolding session_of is_readable lookup
handle-missing_example =
    handle-missing external files factory "ses_2"
      (message_to "ses_2" (value (record { content = "hi"; semantic = "" }))) server refl refl

handle-Keeps_example :
    lookup "ses_1" (handle external files factory (delete_session "ses_2") server).1.sessions
    ≡ lookup "ses_1" server.sessions
unfolding session_of
handle-Keeps_example =
    handle-Keeps external files factory "ses_2" "ses_1" (delete_session "ses_2") server refl
      (ground (arith, eq_iff "ses_1" "ses_2"))
