-- ===== src/Cli/Repl/Effects.antt =====
-- packages/cli/internal/commands/repl.go, the commands: what each one asks of the server, and the
-- message that it brings back. The encoders of request bodies and the decoders of answers are a record.
use gm_agent.Prelude.{String, Bool, Option, none, some, List, [], ◌∷◌}
use gm_agent.Prelude.Result.{Error, Reply, value, failed}
use gm_agent.Session.Rewind.{CheckpointResponse, RewindResponse}
use gm_agent.Cli.Client
use gm_agent.Cli.Client.{Client, Web}
use gm_agent.Cli.Repl.Screen.{
  Cmd, Msg, failure, session_created, stream_ready, permission_handled, checkpoints_listed,
  rewind_completed,
}

pub record Wire (W : Type 0) : Type 0 where
  pub prompt_body : String → Reply String
  pub message_body : String → Reply String
  pub permission_body : String → Bool → Bool → Reply String
  pub rewind_body : String → Bool → Bool → Reply String
  pub session_id : String → Reply String
  pub checkpoints : String → Reply (List CheckpointResponse)
  pub rewound : String → Reply RewindResponse
  -- whether the event stream of the session can be opened
  pub open_stream : String → W → Option Error × W
  -- the next event, `none` where the stream is closed
  pub next_event : W → Option Msg × W

-- The message of a step that only succeeds or fails.
unfoldable pub or_failure : Option Error → Option Msg → Option Msg
or_failure none handled = handled
or_failure (some x) handled = some (failure x)

unfoldable pub answer_message : {A : Type 0} → (A → Msg) → Reply A → Option Msg
answer_message make (failed x) = some (failure x)
answer_message make (value a) = some (make a)

module _ {W : Type 0} (web : Web W) (wire : Wire W) (c : Client) where
  unfoldable pub submit_permission_cmd : String → String → Bool → Bool → W → Option Msg × W
  unfolding Client.submit_permission or_failure
  submit_permission_cmd sid req_id approved always w =
      let (outcome, w') =
        Client.submit_permission web c sid (wire.permission_body req_id approved always) w in
      (or_failure outcome (some permission_handled), w')

  -- The session is created with an empty prompt.
  unfoldable pub create_session_with_message_cmd : String → W → Option Msg × W
  unfolding Client.create_session answer_message
  create_session_with_message_cmd pending w =
      let (made, w') = Client.create_session web wire.session_id c (wire.prompt_body "") w in
      (answer_message (λ id. session_created id pending) made, w')

  unfoldable pub send_message_cmd : String → String → W → Option Msg × W
  unfolding Client.send_message or_failure
  send_message_cmd sid content w =
      let (outcome, w') = Client.send_message web c sid (wire.message_body content) w in
      (or_failure outcome none, w')

  unfoldable pub stream_events_cmd : String → W → Option Msg × W
  unfolding or_failure
  stream_events_cmd sid w =
      let (outcome, w') = wire.open_stream sid w in (or_failure outcome (some stream_ready), w')

  unfoldable pub list_checkpoints_cmd : String → W → Option Msg × W
  unfolding Client.list_checkpoints answer_message
  list_checkpoints_cmd sid w =
      let (got, w') = Client.list_checkpoints web wire.checkpoints c sid w in
      (answer_message checkpoints_listed got, w')

  unfoldable pub rewind_cmd : String → String → Bool → Bool → W → Option Msg × W
  unfolding Client.rewind answer_message
  rewind_cmd sid checkpoint_id code conversation w =
      let (got, w') =
        Client.rewind web wire.rewound c sid (wire.rewind_body checkpoint_id code conversation) w in
      (answer_message rewind_completed got, w')

  -- The batch of a new session with a message runs both; the message of the stream comes first.
  unfoldable pub perform : Cmd → W → List (Option Msg) × W
  unfolding submit_permission_cmd create_session_with_message_cmd send_message_cmd stream_events_cmd
      list_checkpoints_cmd rewind_cmd
  perform Cmd.idle w = ([], w)
  perform Cmd.quit w = ([], w)
  perform Cmd.components w = ([], w)
  perform Cmd.wait_for_next_event w = let (m, w') = wire.next_event w in (m ∷ [], w')
  perform (Cmd.submit_permission sid req_id approved always) w =
      let (m, w') = submit_permission_cmd sid req_id approved always w in (m ∷ [], w')
  perform (Cmd.create_session pending) w =
      let (m, w') = create_session_with_message_cmd pending w in (m ∷ [], w')
  perform (Cmd.send_message sid content) w =
      let (m, w') = send_message_cmd sid content w in (m ∷ [], w')
  perform (Cmd.stream_events sid) w = let (m, w') = stream_events_cmd sid w in (m ∷ [], w')
  perform (Cmd.stream_and_send sid content) w =
      let (m, w1) = stream_events_cmd sid w in
      let (n, w2) = send_message_cmd sid content w1 in (m ∷ n ∷ [], w2)
  perform (Cmd.list_checkpoints sid) w = let (m, w') = list_checkpoints_cmd sid w in (m ∷ [], w')
  perform (Cmd.rewind sid checkpoint_id code conversation) w =
      let (m, w') = rewind_cmd sid checkpoint_id code conversation w in (m ∷ [], w')
