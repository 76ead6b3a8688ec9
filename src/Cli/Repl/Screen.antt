-- ===== src/Cli/Repl/Screen.antt =====
-- The state of the terminal program, and the commands that it hands back.
use gm_agent.Prelude.{
  ℕ, ◌-◌, String, Bool, false, Option, none, some, List, [], ◌∷◌, ◌++◌, ltb, if◌then◌else◌, length,
}
use gm_agent.Prelude.Result.{Error}
use gm_agent.Types.Json.{Json}
use gm_agent.Prelude.Dict.{Dict}
use gm_agent.Session.Rewind.{CheckpointResponse, RewindResponse}
use gm_agent.Cli.Client.{StreamEvent}

pub record PermissionPrompt : Type 0 where
  pub request_id : String
  pub tool_name : String
  pub permission : String
  pub patterns : List String
  -- 0 allow once, 1 deny, 2 always allow, 3 deny all
  pub selected_option : ℕ

-- A history index of -1 is `none`. `text` is the value of the text area.
pub record Model : Type 0 where
  pub waiting : Bool
  pub session_id : String
  pub messages : List String
  pub text : String
  pub error : Option Error
  pub streaming_in_progress : Bool
  pub streaming_raw : String
  pub has_channel : Bool
  pub permission_request : Option PermissionPrompt
  pub input_history : List String
  pub history_index : Option ℕ

unfoldable pub initial_model : Model
initial_model = record {
  waiting = false;
  session_id = "";
  messages = [];
  text = "";
  error = none;
  streaming_in_progress = false;
  streaming_raw = "";
  has_channel = false;
  permission_request = none;
  input_history = [];
  history_index = none;
}

-- `idle` is a nil command; `components` are those of text area, viewport and spinner.
pub data Cmd : Type 0 where
  idle quit components wait_for_next_event : Cmd
  submit_permission : String → String → Bool → Bool → Cmd
  create_session : String → Cmd
  send_message : String → String → Cmd
  stream_events : String → Cmd
  stream_and_send : String → String → Cmd
  list_checkpoints : String → Cmd
  rewind : String → String → Bool → Bool → Cmd

pub data KeyType : Type 0 where
  ctrl_c esc up down enter other : KeyType

-- `name` is the text of the key.
pub record Key : Type 0 where
  pub type : KeyType
  pub name : String

pub data Msg : Type 0 where
  key : Key → Msg
  failure : Error → Msg
  session_created : String → String → Msg
  stream_ready : Msg
  permission_handled : Msg
  checkpoints_listed : List CheckpointResponse → Msg
  rewind_completed : RewindResponse → Msg
  window_size : Msg
  event : StreamEvent → Msg
  -- a message for the components
  tick : Msg

pub record ToolUse : Type 0 where
  pub name : String
  pub arguments : String

pub record ResponseEvent : Type 0 where
  pub content : String
  pub tool_calls : List ToolUse

pub record ResultEvent : Type 0 where
  pub tool_name : String
  pub success : Bool
  pub error : String

pub record RequestEvent : Type 0 where
  pub request_id : String
  pub tool_name : String
  pub permission : String
  pub patterns : List String

-- `none` is an error of `json.Unmarshal`. An error event that cannot be read has the empty text.
pub record Decoder : Type 0 where
  pub delta : String → Option String
  pub response : String → Option ResponseEvent
  pub talk : String → Option String
  pub arguments : String → Dict Json
  pub result : String → Option ResultEvent
  pub request : String → Option RequestEvent
  pub error_text : String → String

-- What is shown: styles, markdown, the cards of tools, numbers and times.
pub record Display : Type 0 where
  pub user : String → String
  pub system : String → String
  pub assistant : String → String
  pub markdown : String → String
  pub tool_call : String → Dict Json → String → String
  pub help : String
  pub decimal : ℕ → String
  pub time : ℕ → String

-- `append(m.messages, text)`
unfoldable pub say : String → Model → Model
say text m = record m { messages = m.messages ++ text ∷ [] }

-- `messages[len(messages)-1] = text`; `none` is an index out of range.
unfoldable pub replace_last : String → List String → Option (List String)
replace_last new [] = none
replace_last new (x ∷ []) = some (new ∷ [])
replace_last new (x ∷ y ∷ ys) = elim (replace_last new (y ∷ ys)) [
  | none ↦ none
  | some rest ↦ some (x ∷ rest)
]

unfoldable pub get_elem? : List String → ℕ → Option String
get_elem? [] i = none
get_elem? (x ∷ xs) ℕ.zero = some x
get_elem? (x ∷ xs) (ℕ.suc i) = get_elem? xs i

-- `history[len(history)-1-i]`; `none` is an index out of range.
unfoldable pub from_end : List String → ℕ → Option String
unfolding get_elem?
from_end history i =
    if ltb i (length history) then get_elem? history (length history - 1 - i) else none
