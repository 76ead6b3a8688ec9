-- ===== src/Api.antt =====
-- packages/agent/pkg/api: router.go, middleware/auth.go, and below it the handlers. gin's matching of
-- paths and `Recovery`, which turns a panic into an answer, are not part of the model.
pub mod Handler
pub mod Sse
pub mod Laws
mod Tests
use gm_agent.Prelude.{
  String, Bool, true, false, not, ◌||◌, ◌&&◌, ◌==◌, List, [], ◌∷◌, if◌then◌else◌,
}
use gm_agent.Prelude.Result.{Result, ok, Reply}
use gm_agent.External.{External}
use gm_agent.Session.Service.{Factory}
use gm_agent.Session.Rewind.{RewindRequest}
use gm_agent.Api.Handler.{
  CreateSessionRequest, MessageRequest, PermissionResponseRequest, Files, Body, Response, Server,
  reply, create, list, get, delete, cancel, message, permission, list_checkpoints, rewind,
  list_artifacts, get_artifact, health,
}

-- The endpoints that answer at once, with the parameters of the path and the decoded body. The legacy
-- routes /sessions stand in the same group with the same handlers, and /healthz is /health; the event
-- stream, of the group too, is in Sse. The pages of Swagger are left out.
pub data Endpoint : Type 0 where
  health_check : Endpoint
  create_session : Reply CreateSessionRequest → Endpoint
  list_all : Endpoint
  get_session delete_session cancel_session checkpoints_of artifacts_of : String → Endpoint
  message_to : String → Reply MessageRequest → Endpoint
  permission_for : String → Reply PermissionResponseRequest → Endpoint
  rewind_session : String → Reply RewindRequest → Endpoint
  artifact_of : String → String → Endpoint

-- Whether the endpoint stands in the group /api/v1, behind the middleware.
unfoldable pub is_guarded : Endpoint → Bool
is_guarded health_check = false
is_guarded (create_session _) = true
is_guarded list_all = true
is_guarded (get_session _) = true
is_guarded (delete_session _) = true
is_guarded (cancel_session _) = true
is_guarded (checkpoints_of _) = true
is_guarded (artifacts_of _) = true
is_guarded (message_to _ _) = true
is_guarded (permission_for _ _) = true
is_guarded (rewind_session _ _) = true
is_guarded (artifact_of _ _) = true

-- `true`: the request is aborted. A request without the header has the empty key.
unfoldable pub auth_aborts : String → String → Bool
auth_aborts api_key key = not (api_key == "") && (key == "" || not (key == api_key))

abbrev pub unauthorized : Response
unauthorized = reply 401 (Body.error "invalid api key")

module _ (ext : External) (files : Files) {W : Type 0} (factory : Factory W) where
  unfoldable pub handle : Endpoint → Server W → Result Response × Server W
  unfolding create list get delete cancel message permission list_checkpoints rewind list_artifacts
      get_artifact health
  handle health_check srv = health srv
  handle (create_session body) srv = create ext factory body srv
  handle list_all srv = list srv
  handle (get_session id) srv = get id srv
  handle (delete_session id) srv = delete id srv
  handle (cancel_session id) srv = cancel id srv
  handle (checkpoints_of id) srv = list_checkpoints id srv
  handle (artifacts_of id) srv = list_artifacts id srv
  handle (message_to id body) srv = message ext id body srv
  handle (permission_for id body) srv = permission id body srv
  handle (rewind_session id body) srv = rewind id body srv
  handle (artifact_of id artifact_id) srv = get_artifact files id artifact_id srv

  -- `api_key` is the configured one, `key` the header of the request.
  unfoldable pub serve : String → String → Endpoint → Server W → Result Response × Server W
  unfolding is_guarded auth_aborts handle
  serve api_key key endpoint srv =
      if is_guarded endpoint && auth_aborts api_key key
      then (ok unauthorized, srv)
      else handle endpoint srv
