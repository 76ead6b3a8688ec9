-- ===== src/Cli/Run/Laws.antt =====
-- What the command `run` prints of a session, and what it leaves unsaid.
use gm_agent.Prelude.{String, false, List, [], ◌∷◌, ◌++◌, ◌≡◌, refl, ◌==◌, All}
use gm_agent.Prelude.Result.{Reply}
use gm_agent.Cli.Client.{StreamEvent}
use gm_agent.Cli.Run.{show_events}

-- The command has no output for the event and does not end at it.
abbrev pub IsSilent : StreamEvent → Type 0
IsSilent e =
    ((e.type == "assistant_message") ≡ false)
    × ((e.type == "error") ≡ false)
    × ((e.type == "session_ended") ≡ false)

-- Behind silent events the output is that of what follows.
show_events-IsSilent :
    (content : String → Reply String) (es later : List StreamEvent)
    → All IsSilent es
    → show_events content (es ++ later) ≡ show_events content later
unfolding show_events
show_events-IsSilent content [] later h = refl
show_events-IsSilent content (e ∷ es) later ((quiet, fine, goes_on), hs) =
    rw (quiet, fine, goes_on) (show_events-IsSilent content es later hs)

-- Silent events, then the end of the session: nothing is printed, whatever comes behind it.
show_events-ended :
    (content : String → Reply String) (es later : List StreamEvent) (body : String)
    → All IsSilent es
    → show_events content (es ++ record { type = "session_ended"; body = body } ∷ later) ≡ ""
unfolding show_events
show_events-ended content es later body h =
    rw (show_events-IsSilent content es (record { type = "session_ended"; body = body } ∷ later) h)
      refl
