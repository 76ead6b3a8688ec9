-- ===== src/Store/Events.antt =====
-- pkg/store/fs_store.go: the event log, one line of JSON per event. `W` is the world with the files.
pub mod Scan
pub mod Laws
mod Tests
use Prim.Native.String.{len}
use gm_agent.Prelude.{
  ℕ, ◌*◌, String, Bool, true, false, Option, none, some, List, [], ◌∷◌, ◌++◌, ◌==◌, ◌||◌, ◌<+>◌,
  ltb, if◌then◌else◌,
}
use gm_agent.Prelude.Result.{Error, Reply, value, failed, message, wrap, not_found, canceled}
use gm_agent.Prelude.Text.{split_lines}
use gm_agent.Types.Event.{
  Event, BaseEvent, UserMessageEvent, LlmResponseEvent, ToolResultEvent, ErrorEvent,
  CheckpointEvent, PermissionRequestEvent, PermissionResponseEvent, user_message, llm_response,
  tool_result, error, checkpoint, permission_request, permission_response, plain, event_id,
}

-- Package encoding/json at the events. What a line decodes to as one of the structs is a value
-- also where the decoder reports an error, which the store ignores there.
pub record EventCodec : Type 0 where
  pub marshal : Event → Reply String
  pub unmarshal_base : String → Reply BaseEvent
  pub unmarshal_user_message : String → UserMessageEvent
  pub unmarshal_llm_response : String → LlmResponseEvent
  pub unmarshal_tool_result : String → ToolResultEvent
  pub unmarshal_error : String → ErrorEvent
  pub unmarshal_checkpoint : String → CheckpointEvent
  pub unmarshal_permission_request : String → PermissionRequestEvent
  pub unmarshal_permission_response : String → PermissionResponseEvent

-- Package os at the log file: it is opened for appending, which creates it, or for reading.
pub record LogOs (W : Type 0) : Type 0 where
  pub open_append : W → Option Error × W
  pub write : String → W → Option Error × W
  pub sync : W → Option Error × W
  pub read_all : W → Reply String
  pub is_not_exist : Error → Bool

-- The limit of `scanner.Buffer`: a longer line, its line break counted, is an error.
abbrev pub max_line : ℕ
max_line = 10 * 1024 * 1024

abbrev pub token_too_long : Error
token_too_long = message "bufio.Scanner: token too long"

-- `bufio.ScanLines` drops one carriage return at the end of a line.
unfoldable pub drop_cr : String → String
drop_cr String.[] = ""
drop_cr (String.◌∷◌ c String.[]) =
    let char = String.◌∷◌ c String.[] in if char == "\r" then "" else char
drop_cr (String.◌∷◌ c (String.◌∷◌ d text)) = String.◌∷◌ c (drop_cr (String.◌∷◌ d text))

-- What one line of the log is.
pub data Line : Type 0 where
  blank : Line
  corrupt : Error → Line
  entry : Event → Line

module _ (codec : EventCodec) where
  -- The switch on the type that the line names; another type gives the bare base event.
  unfoldable pub decode_as : String → String → BaseEvent → Event
  decode_as type line base =
      if type == "user_message" || type == "user_request"
      then user_message (codec.unmarshal_user_message line)
      else if type == "llm_response"
      then llm_response (codec.unmarshal_llm_response line)
      else if type == "tool_result"
      then tool_result (codec.unmarshal_tool_result line)
      else if type == "error"
      then error (codec.unmarshal_error line)
      else if type == "checkpoint"
      then checkpoint (codec.unmarshal_checkpoint line)
      else if type == "permission_request"
      then permission_request (codec.unmarshal_permission_request line)
      else if type == "permission_response"
      then permission_response (codec.unmarshal_permission_response line)
      else plain base

  unfoldable pub decode : String → Line
  unfolding decode_as
  decode line = elim (codec.unmarshal_base line) [
    | failed x ↦ corrupt (wrap "corrupt event log line" x)
    | value base ↦ entry (decode_as base.type line base)
  ]

  unfoldable pub read_line : String → Line
  unfolding drop_cr decode
  read_line raw =
      if ltb (len raw) max_line
      then (let line = drop_cr raw in if line == "" then blank else decode line)
      else corrupt token_too_long

  module _ {S : Type 0} (visit : Event → S → Option Error × S) where
    -- The loop over the lines, with the visitor's own state; it ends at the first error.
    unfoldable pub scan_lines : List String → S → Option Error × S
    unfolding read_line
    scan_lines [] s = (none, s)
    scan_lines (raw ∷ raws) s = elim (read_line raw) [
      | blank ↦ scan_lines raws s
      | corrupt x ↦ (some x, s)
      | entry e ↦
          let (stop, s') = visit e s in
          elim stop [ some x ↦ (some x, s') | none ↦ scan_lines raws s' ]
    ]

-- The visitor of GetEvent stops the scan by the error `context.Canceled`.
unfoldable pub look_for : String → Event → Option Event → Option Error × Option Event
unfolding event_id
look_for id e found = if event_id e == id then (some canceled, some e) else (none, found)

unfoldable pub found_event : Option Error × Option Event → Reply (Option Event)
found_event (some canceled, found) = value found
found_event (some x, found) = failed x
found_event (none, found) = failed not_found

-- The visitor of GetEventsSince: whether it collects yet, and what it has collected.
unfoldable pub collect_since :
    String → Event → Bool × List Event → Option Error × (Bool × List Event)
unfolding event_id
collect_since after e (true, events) = (none, (true, events ++ e ∷ []))
collect_since after e (false, events) = (none, (event_id e == after, events))

module _ (codec : EventCodec) {W : Type 0} (os : LogOs W) where
  -- `IterEvents`. No log file is no events.
  unfoldable pub scan_events :
      {S : Type 0} → (Event → S → Option Error × S) → S → W → Option Error × S
  unfolding scan_lines split_lines
  scan_events visit s w = elim (os.read_all w) [
    | failed x ↦ (if os.is_not_exist x then none else some x, s)
    | value text ↦ scan_lines codec visit (split_lines text) s
  ]

  unfoldable pub get_event : String → W → Reply (Option Event)
  unfolding scan_events look_for found_event
  get_event id w = found_event (scan_events (look_for id) none w)

  unfoldable pub get_events_since : String → W → List Event × Option Error
  unfolding scan_events collect_since
  get_events_since after w =
      let (failure, (_, events)) = scan_events (collect_since after) (after == "", []) w in
      (events, failure)

  unfoldable pub append_event : Event → W → Option Error × W
  append_event e w = elim (codec.marshal e) [
    | failed x ↦ (some (wrap "marshal event" x), w)
    | value line ↦
        let (unopened, w1) = os.open_append w in
        elim unopened [
          | some x ↦ (some (wrap "open event log" x), w1)
          | none ↦
              let (unwritten, w2) = os.write line w1 in
              elim unwritten [
                | some x ↦ (some x, w2)
                | none ↦
                    let (unended, w3) = os.write "\n" w2 in
                    elim unended [ some x ↦ (some x, w3) | none ↦ os.sync w3 ]
              ]
        ]
  ]

  unfoldable pub append_events : List Event → W → Option Error × W
  unfolding append_event
  append_events [] w = (none, w)
  append_events (e ∷ es) w =
      let (failure, w') = append_event e w in
      elim failure [ some x ↦ (some x, w') | none ↦ append_events es w' ]
