-- ===== src/Api/Laws.antt =====
-- The endpoints of pkg/api: who is let in, what a missing session answers, and what a request leaves
-- alone.
use gm_agent.Prelude.{
  ℕ, String, Bool, true, false, Option, none, some, ◌≡◌, ◌≢◌, inl, inr, refl, arith, eq_iff,
  Option-cases, if◌then◌else◌,
}
use gm_agent.Prelude.Dict.{lookup, insert, lookup-insert, lookup-delete}
use gm_agent.Prelude.Result.{ok, value, failed, error_text}
use gm_agent.External.{External}
use gm_agent.Session.Service
use gm_agent.Session.Service.{
  Sessions, Session, Factory, find, remove, respond_permission, session_not_found,
}
use gm_agent.Session.Rewind
use gm_agent.Api.Handler
use gm_agent.Api.Handler.{
  Files, Body, Response, Server, reply, failure, bad_request, is_session_not_found, answer_with,
  answer_done, answer_result, served_by,
}
use gm_agent.Api.{
  Endpoint, health_check, create_session, list_all, get_session, delete_session, cancel_session,
  checkpoints_of, artifacts_of, message_to, permission_for, rewind_session, artifact_of, handle,
}

-- The session that an endpoint names.
unfoldable pub session_of : Endpoint → Option String
session_of health_check = none
session_of (create_session _) = none
session_of list_all = none
session_of (get_session id) = some id
session_of (delete_session id) = some id
session_of (cancel_session id) = some id
session_of (checkpoints_of id) = some id
session_of (artifacts_of id) = some id
session_of (message_to id _) = some id
session_of (permission_for id _) = some id
session_of (rewind_session id _) = some id
session_of (artifact_of id _) = some id

-- Whether the body of the request could be decoded, where one is asked for.
unfoldable pub is_readable : Endpoint → Bool
is_readable (message_to _ (failed x)) = false
is_readable (permission_for _ (failed x)) = false
is_readable (rewind_session _ (failed x)) = false
is_readable _ = true

abbrev pub missing : Response
missing = reply 404 (Body.error "session not found")

insert-Keeps :
    {W : Type 0} (id other : String) (s : Session W) (table : Sessions W)
    → other ≢ id
    → lookup other (insert id s table) ≡ lookup other table
insert-Keeps id other s table apart =
    ground (arith, lookup-insert id other s table, eq_iff id other)

cancel_session-Keeps :
    {W : Type 0} (id other : String) (table : Sessions W) (w : W)
    → other ≢ id
    → lookup other (Service.cancel_session id table w).1 ≡ lookup other table
unfolding Service.cancel_session
cancel_session-Keeps id other table w apart = elim (Option-cases (lookup id table)) [
  | inl e ↦ rw (Service.cancel_session, e) refl
  | inr (s, e) ↦ rw (Service.cancel_session, e) (insert-Keeps id other _ table apart)
]

send_message-Keeps :
    {W : Type 0} (ext : External) (id content semantic other : String) (table : Sessions W) (n : ℕ)
    (w : W)
    → other ≢ id
    → lookup other (Service.send_message ext id content semantic table n w).sessions
      ≡ lookup other table
unfolding Service.send_message
send_message-Keeps ext id content semantic other table n w apart =
    elim (Option-cases (lookup id table)) [
      | inl e ↦ rw (Service.send_message, e) refl
      | inr (s, e) ↦
          rw (Service.send_message, e)
            (ground (arith, insert-Keeps id other (Service.wake s) table))
    ]

module _ (ext : External) (files : Files) {W : Type 0} (factory : Factory W) where
  -- A request that names a session which is not in the table answers 404, or 400 where its body cannot
  -- be read, and changes nothing.
  pub handle-missing :
      (id : String) (e : Endpoint) (srv : Server W)
      → session_of e ≡ some id
      → lookup id srv.sessions ≡ none
      → handle ext files factory e srv ≡ (ok (if is_readable e then missing else bad_request), srv)
  unfolding handle session_of is_readable Handler.get Handler.delete Handler.cancel Handler.message
      Handler.permission Handler.list_checkpoints Handler.rewind Handler.list_artifacts
      Handler.get_artifact find remove Service.cancel_session Service.send_message
      Service.get_artifact Service.list_artifacts respond_permission Rewind.list_checkpoints
      Rewind.rewind answer_with answer_done answer_result served_by failure is_session_not_found
      error_text
  handle-missing id e srv names gone = ground arith

  -- A request for one session leaves every other session as it is.
  pub handle-Keeps :
      (id other : String) (e : Endpoint) (srv : Server W)
      → session_of e ≡ some id
      → other ≢ id
      → lookup other (handle ext files factory e srv).1.sessions ≡ lookup other srv.sessions
  unfolding handle session_of Handler.get Handler.delete Handler.cancel Handler.message
      Handler.permission Handler.list_checkpoints Handler.rewind Handler.list_artifacts
      Handler.get_artifact remove Service.cancel_session Service.send_message served_by
  handle-Keeps id other (delete_session j) srv names apart =
      ground (arith, lookup-delete j other srv.sessions, eq_iff j other)
  handle-Keeps id other (cancel_session j) srv names apart =
      cancel_session-Keeps j other srv.sessions srv.world (ground arith)
  handle-Keeps id other (message_to j (value req)) srv names apart =
      send_message-Keeps ext j req.content req.semantic other srv.sessions srv.draws srv.world
        (ground arith)
  handle-Keeps id other e srv names apart = ground arith
