-- ===== src/Api/Sse.antt =====
-- pkg/api/handler/session.go, SSE: the stream of a session's events. The loop is a list of wakes, one
-- for each pass of its select; a poll comes with the world at its time.
pub mod Laws
use gm_agent.Prelude.{String, Option, none, some, List, [], ◌∷◌, ◌++◌, ◌<+>◌}
use gm_agent.Prelude.Result.{Error, Reply, value, failed}
use gm_agent.Types.Event.{Event, base_of, event_id}
use gm_agent.Session.Service.{Resources, Sessions, find}
use gm_agent.Api.Handler.{Response, failure}

pub data Wake (W : Type 0) : Type 0 where
  -- `<-ctx.Done()`
  client_gone : Wake W
  -- `<-session.Resources.Ctx.Done()`, with the session's status
  session_over : String → Wake W
  -- `<-ticker.C`
  tick : W → Wake W

pub data Streamed : Type 0 where
  refused : Response → Streamed
  written : List String → Streamed

unfoldable pub event_frame : String → String → String
event_frame type body = "event: " <+> type <+> "\n" <+> "data: " <+> body <+> "\n" <+> "\n"

abbrev pub connected_body : String → String
connected_body id = "{\"session_id\":\"" <+> id <+> "\"}"

unfoldable pub connected : String → String
unfolding event_frame
connected id = event_frame "connected" (connected_body id)

unfoldable pub session_ended : String → String
unfolding event_frame
session_ended status = event_frame "session_ended" ("{\"status\":\"" <+> status <+> "\"}")

module _ (marshal : Event → Reply String) where
  -- What is written for the events of one poll, and the cursor after them. An event that cannot be
  -- marshalled is passed over.
  unfoldable pub deliver : List Event → String → List String × String
  unfolding event_frame base_of event_id
  deliver [] last = ([], last)
  deliver (e ∷ es) last = elim (marshal e) [
    | failed x ↦ deliver es last
    | value body ↦
        let (frames, last') = deliver es (event_id e) in
        (event_frame (base_of e).type body ∷ frames, last')
  ]

  module _ {W : Type 0} (r : Resources W) where
    unfoldable pub poll : String → W → List String × String
    unfolding deliver
    poll last w =
        let (events, stop) = r.get_events_since last w in
        elim stop [ some x ↦ ([], last) | none ↦ deliver events last ]

    unfoldable pub follow : List (Wake W) → String → List String
    unfolding poll session_ended
    follow [] last = []
    follow (client_gone ∷ wakes) last = []
    follow (session_over status ∷ wakes) last = session_ended status ∷ []
    follow (tick w ∷ wakes) last = let (frames, last') = poll last w in frames ++ follow wakes last'

  unfoldable pub stream_events :
      {W : Type 0} → String → String → Sessions W → List (Wake W) → Streamed
  unfolding find failure connected follow
  stream_events id after table wakes = elim (find id table) [
    | failed x ↦ refused (failure x)
    | value s ↦ written (connected id ∷ follow s.resources wakes after)
  ]
