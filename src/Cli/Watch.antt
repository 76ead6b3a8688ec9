-- ===== src/Cli/Watch.antt =====
-- The server's event stream and the client's reader together.
mod Tests
use Prim.Native.String.{String}
use mathlib.Core.Path.{subst}
use text.Mathlib.TextLemmas
use gm_agent.Prelude.{List, [], ◌∷◌, map, ◌≡◌, refl, sym, ap, ◌∙◌, ◌<+>◌, none, some, All, arith}
use gm_agent.Prelude.Result.{Reply, value}
use gm_agent.Prelude.Text.{IsLine, IsLine-append}
use gm_agent.Prelude.Trim.{IsTrimmed, left_trim, right_trim, right_trim-append}
use gm_agent.Types.Event.{Event, base_of}
use gm_agent.Session.Service.{Session, Sessions, find}
use gm_agent.Store.Events.Scan.{events_after}
use gm_agent.Api.Sse
use gm_agent.Api.Sse.{Wake, tick, written, connected, connected_body, event_frame, follow}
use gm_agent.Api.Sse.Laws.{frame_of, Shows, Grows, final, follow-Complete}
use gm_agent.Cli.Client
use gm_agent.Cli.Client.{StreamEvent}
use gm_agent.Cli.Client.Laws.{IsValue, frame, joined, stream_events-frames}

-- An event as the client sees it.
abbrev pub seen : (Event → String) → Event → StreamEvent
seen encode e = record { type = (base_of e).type; body = encode e }

-- The type and the encoding of each event stand whole in a line.
abbrev pub Showable : (Event → String) → List Event → Type 0
Showable encode es = All (λ (e : Event). IsValue (base_of e).type × IsValue (encode e)) es

connected_body-IsValue : (id : String) → IsLine id → IsValue (connected_body id)
unfolding left_trim right_trim
connected_body-IsValue id whole =
    let line : IsLine (connected_body id) =
      IsLine-append "{\"session_id\":\"" (id <+> "\"}") (ground arith)
        (IsLine-append id "\"}" whole (ground arith)) in
    (
      line,
      (
        rw (TextLemmas.cons-append "{" "\"session_id\":\"" (id <+> "\"}")) refl,
        subst (λ (t : String). right_trim t ≡ t)
            (TextLemmas.append_assoc "{\"session_id\":\"" id "\"}")
            (right_trim-append ("{\"session_id\":\"" <+> id) "\"}" refl refl),
      ),
    )

connected-IsValue : IsValue "connected"
unfolding left_trim right_trim
connected-IsValue = (ground arith, (refl, refl))

frames_seen :
    (encode : Event → String) (es : List Event)
    → map (frame_of encode) es ≡ map frame (map (seen encode) es)
frames_seen encode [] = refl
frames_seen encode (e ∷ es) =
    ap (λ (l : List String). frame_of encode e ∷ l) (frames_seen encode es)

Showable-seen :
    (encode : Event → String) (es : List Event)
    → Showable encode es
    → All (λ (e : StreamEvent). IsValue e.type × IsValue e.body) (map (seen encode) es)
Showable-seen encode [] h = tt
Showable-seen encode (e ∷ es) (h, hs) = (h, Showable-seen encode es hs)

module _ (marshal : Event → Reply String) (encode : Event → String) {W : Type 0}
    (log : W → List Event) where
  -- A client that follows a session whose log grows reads "connected", and then the events behind its
  -- cursor, in order and each once.
  pub watch-Complete :
      (id after : String) (table : Sessions W) (s : Session W) (ws : List W)
      → find id table ≡ value s
      → IsLine id
      → Grows marshal encode s.resources log [] ws
      → All (Shows marshal encode s.resources log) ws
      → Showable encode (events_after after (final marshal encode s.resources log [] ws))
      → (chunks : List String) × (Sse.stream_events marshal id after table (map tick ws)
          ≡ written chunks)
        × (Client.stream_events (joined chunks)
            ≡ record { type = "connected"; body = connected_body id }
              ∷ map (seen encode) (events_after after (final marshal encode s.resources log [] ws)))
  unfolding Sse.stream_events connected joined
  watch-Complete id after table s ws found whole grows shows showable = (
    connected id ∷ follow marshal s.resources (map tick ws) after,
    ground arith,
    ap (λ (l : List String). Client.stream_events (joined (connected id ∷ l)))
          (follow-Complete marshal encode s.resources log after ws grows shows
            ∙ frames_seen encode _)
        ∙ stream_events-frames
            (record { type = "connected"; body = connected_body id }
              ∷ map (seen encode) (events_after after (final marshal encode s.resources log [] ws)))
            ((connected-IsValue, connected_body-IsValue id whole), Showable-seen encode _ showable),
  )
