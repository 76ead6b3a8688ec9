-- ===== src/Session/Service.antt =====
-- pkg/api/service/session.go: the table of sessions. `W` is the world behind their resources.
use gm_agent.Prelude.{
  ℕ, ◌+◌, ◌-◌, String, Bool, false, ◌||◌, Option, none, some, List, ◌==◌, if◌then◌else◌, map,
}
use gm_agent.Prelude.Dict.{Dict, lookup, insert, delete}
use gm_agent.Prelude.Result.{
  Error, Reply, value, failed, message, wrap, not_found, no_checkpoint, canceled, error_text,
}
use gm_agent.Types.Tool.{Time}
use gm_agent.Types.State.{Artifact, State, Checkpoint}
use gm_agent.Types.Event.{Event, user_message, system_prompt}
use gm_agent.External.{External, generate_id, new_base_event}

-- `SessionResources`, as the functions that the service calls.
pub record Resources (W : Type 0) : Type 0 where
  -- `Runtime.Ingest` and `Runtime.GetState`
  pub ingest : Event → W → Option Error × W
  pub get_state : W → Option State
  -- `Cancel`
  pub cancel : W → W
  -- `Store`
  pub load_checkpoint : String → W → Reply Checkpoint
  pub list_checkpoints : W → Reply (List Checkpoint)
  pub save_state : Option State → W → Option Error × W
  -- `PatchEngine.Rollback`, where there is an engine
  pub rollback : Option (String → W → Option Error × W)
  -- `Permissions.Respond`, where there is a manager
  pub respond : Option (String → Bool → Bool → W → Option Error × W)
  -- `Store.GetEventsSince`
  pub get_events_since : String → W → List Event × Option Error

-- `runs` counts the goroutines that are inside `runSession` for this session.
pub record Session (W : Type 0) : Type 0 where
  pub id : String
  pub status : String
  pub created_at : Time
  pub last_error : String
  pub resources : Resources W
  pub runs : ℕ

abbrev pub Sessions : Type 0 → Type 0
Sessions W = Dict (Session W)

abbrev pub Factory : Type 0 → Type 0
Factory W = String → W → Reply (Resources W) × W

abbrev pub session_not_found : Error
session_not_found = message "session not found"

-- What an operation hands back: its answer, the table, the next identifier and the world.
pub record Served (W : Type 0) : Type 0 where
  pub answer : Reply (Session W)
  pub sessions : Sessions W
  pub draws : ℕ
  pub world : W

-- `errors.Is(err, context.Canceled)`
unfoldable pub is_canceled : Error → Bool
is_canceled (message s) = false
is_canceled (wrap s e) = is_canceled e
is_canceled not_found = false
is_canceled no_checkpoint = false
is_canceled canceled = Bool.true

-- The status in which a message starts the runtime.
unfoldable pub is_waiting : String → Bool
is_waiting status = status == "idle" || status == "completed"

module _ {W : Type 0} where
  unfoldable pub find : String → Sessions W → Reply (Session W)
  unfolding lookup
  find id table = elim (lookup id table) [ none ↦ failed session_not_found | some s ↦ value s ]

  unfoldable pub new_session : String → Time → Resources W → Session W
  new_session id created_at resources = record {
    id = id;
    status = "idle";
    created_at = created_at;
    last_error = "";
    resources = resources;
    runs = 0;
  }

  -- `go s.runSession(session)` in a session that is marked as running
  unfoldable pub start : Session W → Session W
  start s = record s { status = "running"; runs = s.runs + 1 }

  unfoldable pub wake : Session W → Session W
  unfolding start is_waiting
  wake s = if is_waiting s.status then start s else s

  -- The end of `runSession`, with what `Run` has returned.
  unfoldable pub conclude : Option Error → Session W → Session W
  unfolding is_canceled error_text
  conclude none s = record s { status = "completed"; runs = s.runs - 1 }
  conclude (some x) s =
      if is_canceled x
      then record s { status = "cancelled"; runs = s.runs - 1 }
      else record s { status = "error"; last_error = error_text x; runs = s.runs - 1 }

  unfoldable pub finish : String → Option Error → Sessions W → Sessions W
  unfolding conclude lookup insert
  finish id outcome table = elim (lookup id table) [
    | none ↦ table
    | some s ↦ insert id (conclude outcome s) table
  ]

  unfoldable pub remove : String → Sessions W → W → Option Error × Sessions W × W
  unfolding lookup delete
  remove id table w = elim (lookup id table) [
    | none ↦ (some session_not_found, table, w)
    | some s ↦ (none, delete id table, s.resources.cancel w)
  ]

  unfoldable pub cancel_session : String → Sessions W → W → Option Error × Sessions W × W
  unfolding lookup insert
  cancel_session id table w = elim (lookup id table) [
    | none ↦ (some session_not_found, table, w)
    | some s ↦ (none, insert id (record s { status = "cancelled" }) table, s.resources.cancel w)
  ]

  unfoldable pub get_artifact : String → String → Sessions W → W → Reply (Option Artifact)
  unfolding find lookup
  get_artifact id artifact_id table w = elim (find id table) [
    | failed x ↦ failed x
    | value s ↦ elim (s.resources.get_state w) [
      | none ↦ failed (message "state not available")
      | some state ↦ elim (lookup artifact_id state.artifacts) [
        | none ↦ failed (message "artifact not found")
        | some artifact ↦ value artifact
      ]
    ]
  ]

  -- The order of `sync.Map.Range` is any order.
  unfoldable pub list_sessions : Sessions W → List (Session W)
  list_sessions table = map (λ e. e.1) table

  unfoldable pub list_artifacts : String → Sessions W → W → Reply (List (Option Artifact))
  unfolding find
  list_artifacts id table w = elim (find id table) [
    | failed x ↦ failed x
    | value s ↦ elim (s.resources.get_state w) [
      | none ↦ failed (message "state not available")
      | some state ↦ value (map (λ e. e.1) state.artifacts)
    ]
  ]

  unfoldable pub respond_permission :
      String → String → Bool → Bool → Sessions W → W → Option Error × W
  unfolding lookup
  respond_permission id request_id approved always table w = elim (lookup id table) [
    | none ↦ (some session_not_found, w)
    | some s ↦ elim s.resources.respond [
      | none ↦ (some (message "permission manager not available"), w)
      | some respond ↦ respond request_id approved always w
    ]
  ]

module _ (ext : External) where
  unfoldable pub user_request : String → String → ℕ → String → ℕ → Event
  unfolding new_base_event
  user_request id content priority semantic n = user_message (record {
    base = new_base_event ext "user_request" "user" id n;
    content = content;
    priority = priority;
    semantic = semantic;
  })

  unfoldable pub system_request : String → String → ℕ → Event
  unfolding new_base_event
  system_request id prompt n =
      system_prompt
        (record { base = new_base_event ext "system_prompt" "user" id n; prompt = prompt })

module _ (ext : External) {W : Type 0} where
  -- A session with a prompt is marked as running before its prompt is taken in, and started after.
  unfoldable pub launch : Session W → String → ℕ → Sessions W → ℕ → W → Served W
  unfolding user_request start insert
  launch s prompt priority table n w =
      if prompt == ""
      then record { answer = value s; sessions = table; draws = n; world = w }
      else (let (failure, w') = s.resources.ingest (user_request ext s.id prompt priority "" n) w in
          elim failure [
            | some x ↦ record {
              answer = failed x;
              sessions = insert s.id (record s { status = "running" }) table;
              draws = n + 1;
              world = w';
            }
            | none ↦ record {
              answer = value (start s);
              sessions = insert s.id (start s) table;
              draws = n + 1;
              world = w';
            }
          ])

  -- The session is in the table before its prompts are taken in, and stays there if they fail.
  unfoldable pub open_session : Session W → String → String → ℕ → Sessions W → ℕ → W → Served W
  unfolding system_request launch insert
  open_session s prompt prompt_of_system priority table n w =
      if prompt_of_system == ""
      then launch s prompt priority (insert s.id s table) n w
      else (let (failure, w') = s.resources.ingest (system_request ext s.id prompt_of_system n) w in
          elim failure [
            | some x ↦ record {
              answer = failed x;
              sessions = insert s.id s table;
              draws = n + 1;
              world = w';
            }
            | none ↦ launch s prompt priority (insert s.id s table) (n + 1) w'
          ])

  unfoldable pub create : Factory W → String → String → ℕ → Sessions W → ℕ → W → Served W
  unfolding generate_id new_session open_session
  create factory prompt prompt_of_system priority table n w =
      let id = generate_id ext "ses" n in
      let (made, w') = factory id w in
      elim made [
        | failed x ↦ record { answer = failed x; sessions = table; draws = n + 1; world = w' }
        | value resources ↦
            open_session (new_session id (ext.now n) resources) prompt prompt_of_system priority
              table (n + 1) w'
      ]

  -- The message is taken in; then a session that waits is started.
  unfoldable pub send_message : String → String → String → Sessions W → ℕ → W → Served W
  unfolding user_request wake lookup insert
  send_message id content semantic table n w = elim (lookup id table) [
    | none ↦ record { answer = failed session_not_found; sessions = table; draws = n; world = w }
    | some s ↦
        let priority = if semantic == "preempt" then 100 else 0 in
        let (failure, w') =
          s.resources.ingest (user_request ext id content priority semantic n) w in
        elim failure [
          | some x ↦ record { answer = failed x; sessions = table; draws = n + 1; world = w' }
          | none ↦
              let s' = wake s in
              record { answer = value s'; sessions = insert id s' table; draws = n + 1; world = w' }
        ]
  ]
