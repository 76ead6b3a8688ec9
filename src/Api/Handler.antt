-- ===== src/Api/Handler.antt =====
-- pkg/api/handler and pkg/api/dto: what each endpoint answers, and what it does to the sessions.
-- `ShouldBindJSON` is gin's: a handler is given what it returned for the body of the request.
use gm_agent.Prelude.{
  ℕ, String, Bool, true, false, ◌&&◌, not, Option, none, some, List, map, ◌==◌, if◌then◌else◌,
}
use gm_agent.Prelude.Result.{
  Error, wrap, not_found, no_checkpoint, canceled, error_text, Result, ok, err, panic, Reply, value,
  failed,
}
use gm_agent.Types.Tool.{Time}
use gm_agent.Types.State.{Artifact}
use gm_agent.External.{External}
use gm_agent.Runtime.History.{nil_dereference}
use gm_agent.Session.Service
use gm_agent.Session.Service.{
  Session, Sessions, Served, Factory, find, list_sessions, remove, respond_permission,
}
use gm_agent.Session.Rewind
use gm_agent.Session.Rewind.{RewindRequest, CheckpointResponse, RewindResponse}

pub record CreateSessionRequest : Type 0 where
  pub prompt : String
  pub system_prompt : String
  pub priority : ℕ

abbrev pub empty_request : CreateSessionRequest
empty_request = record { prompt = ""; system_prompt = ""; priority = 0 }

pub record MessageRequest : Type 0 where
  pub content : String
  pub semantic : String

pub record PermissionResponseRequest : Type 0 where
  pub request_id : String
  pub approved : Bool
  pub always : Bool

-- A creation time that is left out is Go's zero time, `none`.
pub record SessionResponse : Type 0 where
  pub id : String
  pub status : String
  pub created_at : Option Time
  pub error : String

pub data Body : Type 0 where
  session : SessionResponse → Body
  sessions : List SessionResponse → Body
  error : String → Body
  deleted : Bool → Body
  checkpoints : List CheckpointResponse → Body
  rewound : RewindResponse → Body
  artifacts : List (Option Artifact) → Body
  artifact : Artifact → Body
  -- `http.ServeFile`
  file : String → Body
  health_is : String → String → Body

pub record Response : Type 0 where
  pub status : ℕ
  pub body : Body

-- The table of the service, the next identifier, and the world behind the sessions.
pub record Server (W : Type 0) : Type 0 where
  pub sessions : Sessions W
  pub draws : ℕ
  pub world : W

-- `os.Stat` succeeds
pub record Files : Type 0 where
  pub exists : String → Bool

abbrev pub reply : ℕ → Body → Response
reply status body = record { status = status; body = body }

-- `errors.Is(err, service.ErrSessionNotFound)`, told by its text.
unfoldable pub is_session_not_found : Error → Bool
is_session_not_found (Error.message s) = s == "session not found"
is_session_not_found (wrap s e) = is_session_not_found e
is_session_not_found not_found = false
is_session_not_found no_checkpoint = false
is_session_not_found canceled = false

unfoldable pub failure : Error → Response
unfolding is_session_not_found error_text
failure x =
    if is_session_not_found x
    then reply 404 (Body.error "session not found")
    else reply 500 (Body.error (error_text x))

abbrev pub bad_request : Response
bad_request = reply 400 (Body.error "invalid request body")

unfoldable pub describe : {W : Type 0} → Session W → SessionResponse
describe s = record {
  id = s.id;
  status = s.status;
  created_at = some s.created_at;
  error = s.last_error;
}

-- The answer to a request that has no failing step.
unfoldable pub answer_with : {A : Type 0} → (A → Response) → Reply A → Result Response
unfolding failure
answer_with body (value a) = ok (body a)
answer_with body (failed x) = ok (failure x)

-- The same for a step of the service that may panic.
unfoldable pub answer_result : {A : Type 0} → (A → Body) → Result A → Result Response
unfolding failure
answer_result body (ok a) = ok (reply 200 (body a))
answer_result body (err x) = ok (failure x)
answer_result body (panic p) = panic p

unfoldable pub answer_done : Option Error → Response → Response
unfolding failure
answer_done none done = done
answer_done (some x) done = failure x

unfoldable pub cancelled_response : String → SessionResponse
cancelled_response id = record { id = id; status = "cancelled"; created_at = none; error = "" }

unfoldable pub artifact_body : Files → Artifact → Body
artifact_body files art =
    if art.type == "file" && not (art.path == "") && files.exists art.path
    then Body.file art.path
    else Body.artifact art

unfoldable pub decoded_or_empty : Reply CreateSessionRequest → CreateSessionRequest
decoded_or_empty (failed x) = empty_request
decoded_or_empty (value req) = req

module _ {W : Type 0} where
  unfoldable pub health : Server W → Result Response × Server W
  health srv = (ok (reply 200 (Body.health_is "healthy" "1.0.0")), srv)

  unfoldable pub list : Server W → Result Response × Server W
  unfolding list_sessions describe
  list srv = (ok (reply 200 (Body.sessions (map describe (list_sessions srv.sessions)))), srv)

  unfoldable pub get : String → Server W → Result Response × Server W
  unfolding find answer_with describe
  get id srv =
      (answer_with (λ s. reply 200 (Body.session (describe s))) (find id srv.sessions), srv)

  unfoldable pub delete : String → Server W → Result Response × Server W
  unfolding remove answer_done
  delete id srv =
      let (outcome, table, w) = remove id srv.sessions srv.world in
      (
        ok (answer_done outcome (reply 200 (Body.deleted true))),
        record srv { sessions = table; world = w },
      )

  unfoldable pub cancel : String → Server W → Result Response × Server W
  unfolding Service.cancel_session answer_done cancelled_response
  cancel id srv =
      let (outcome, table, w) = Service.cancel_session id srv.sessions srv.world in
      (
        ok (answer_done outcome (reply 200 (Body.session (cancelled_response id)))),
        record srv { sessions = table; world = w },
      )

  unfoldable pub permission :
      String → Reply PermissionResponseRequest → Server W → Result Response × Server W
  unfolding respond_permission answer_done
  permission id (failed x) srv = (ok bad_request, srv)
  permission id (value req) srv =
      let (outcome, w) =
        respond_permission id req.request_id req.approved req.always srv.sessions srv.world in
      (
        ok (
            answer_done outcome (
              reply 200
                (Body.session (record { id = id; status = "ok"; created_at = none; error = "" })))),
        record srv { world = w },
      )

  unfoldable pub list_checkpoints : String → Server W → Result Response × Server W
  unfolding Rewind.list_checkpoints answer_result
  list_checkpoints id srv =
      (answer_result Body.checkpoints (Rewind.list_checkpoints id srv.sessions srv.world), srv)

  unfoldable pub rewind : String → Reply RewindRequest → Server W → Result Response × Server W
  unfolding Rewind.rewind answer_result
  rewind id (failed x) srv = (ok bad_request, srv)
  rewind id (value req) srv =
      let (outcome, w) = Rewind.rewind id req srv.sessions srv.world in
      (answer_result Body.rewound outcome, record srv { world = w })

  unfoldable pub list_artifacts : String → Server W → Result Response × Server W
  unfolding Service.list_artifacts error_text
  list_artifacts id srv = (
    elim (Service.list_artifacts id srv.sessions srv.world) [
      | failed x ↦ ok (reply 404 (Body.error (error_text x)))
      | value arts ↦ ok (reply 200 (Body.artifacts arts))
    ],
    srv,
  )

  -- An artifact that is a nil pointer is dereferenced.
  unfoldable pub get_artifact : Files → String → String → Server W → Result Response × Server W
  unfolding Service.get_artifact error_text artifact_body
  get_artifact files id artifact_id srv = (
    elim (Service.get_artifact id artifact_id srv.sessions srv.world) [
      | failed x ↦ ok (reply 404 (Body.error (error_text x)))
      | value none ↦ panic nil_dereference
      | value (some art) ↦ ok (reply 200 (artifact_body files art))
    ],
    srv,
  )

-- What the service hands back becomes the server.
unfoldable pub served_by : {W : Type 0} → ℕ → Served W → Result Response × Server W
unfolding answer_with describe
served_by status s = (
  answer_with (λ x. reply status (Body.session (describe x))) s.answer,
  record { sessions = s.sessions; draws = s.draws; world = s.world },
)

module _ (ext : External) {W : Type 0} where
  -- A body that cannot be decoded is an empty request. The answer to a new session has no error.
  unfoldable pub create :
      Factory W → Reply CreateSessionRequest → Server W → Result Response × Server W
  unfolding decoded_or_empty Service.create answer_with describe
  create factory body srv =
      let req = decoded_or_empty body in
      let s =
        Service.create ext factory req.prompt req.system_prompt req.priority srv.sessions srv.draws
          srv.world in
      (
        answer_with (λ x. reply 201 (Body.session (record (describe x) { error = "" }))) s.answer,
        record { sessions = s.sessions; draws = s.draws; world = s.world },
      )

  unfoldable pub message : String → Reply MessageRequest → Server W → Result Response × Server W
  unfolding Service.send_message served_by
  message id (failed x) srv = (ok bad_request, srv)
  message id (value req) srv =
      served_by 200
        (Service.send_message ext id req.content req.semantic srv.sessions srv.draws srv.world)
