-- ===== src/Cli/Repl/Update.antt =====
-- Update: one message of bubbletea, the new model, and the command that follows.
use gm_agent.Prelude.{String, true, false, none, some, ◌==◌, ◌<+>◌, if◌then◌else◌}
use gm_agent.Prelude.Result.{Result, ok, ◌>>=◌, error_text}
use gm_agent.Cli.Repl.Screen.{
  Model, Msg, key, failure, session_created, stream_ready, permission_handled, checkpoints_listed,
  rewind_completed, window_size, event, tick, Cmd, idle, components, stream_events, stream_and_send,
  wait_for_next_event, Key, Decoder, Display, say,
}
use gm_agent.Cli.Repl.Keys.{permission_key, plain_key}
use gm_agent.Cli.Repl.Events.{handle_event, show_checkpoints, show_rewind}

-- `edit` is the text area's own update, which a permission prompt holds back.
unfoldable pub update_text : (Msg → String → String) → Msg → Model → Model
update_text edit msg m = elim m.permission_request [
  | none ↦ record m { text = edit msg m.text }
  | some p ↦ m
]

module _ (json : Decoder) (d : Display) where
  unfoldable pub on_key : Key → Model → Result (Model × Cmd)
  unfolding permission_key plain_key
  on_key k m = elim m.permission_request [
    | some p ↦ ok (permission_key k.name p m)
    | none ↦ plain_key d k.type m
  ]

  unfoldable pub dispatch : Msg → Model → Result (Model × Cmd)
  unfolding on_key say error_text handle_event show_checkpoints show_rewind
  dispatch (key k) m = on_key k m
  dispatch (failure x) m = ok (
    record (say (d.system ("Error: " <+> error_text x)) m) { error = some x; waiting = false },
    idle,
  )
  dispatch (session_created id pending) m =
      let started = say (d.system ("Session Started (" <+> id <+> ")")) m in
      if pending == ""
      then ok (record started { session_id = id; waiting = false }, stream_events id)
      else ok (record started { session_id = id; waiting = true }, stream_and_send id pending)
  dispatch stream_ready m = ok (record m { has_channel = true }, wait_for_next_event)
  dispatch permission_handled m =
      ok (record (say (d.system "✅ Permission submitted") m) { permission_request = none }, idle)
  dispatch (checkpoints_listed cps) m =
      ok (record (say (show_checkpoints d cps) m) { waiting = false }, idle)
  dispatch (rewind_completed r) m = ok (record (say (show_rewind d r) m) { waiting = false }, idle)
  dispatch window_size m = ok (m, components)
  dispatch (event e) m =
      handle_event d json e (record m { waiting = false }) >>= λ m'. ok (m', wait_for_next_event)
  dispatch tick m = ok (m, components)

  unfoldable pub update : (Msg → String → String) → Msg → Model → Result (Model × Cmd)
  unfolding update_text dispatch
  update edit msg m = dispatch msg (update_text edit msg m)
