-- ===== src/Cli/Repl/Events.antt =====
-- Update of an event of the stream, and of the answers to the program's own requests.
use gm_agent.Prelude.{
  ℕ, ◌+◌, String, Bool, true, false, Option, none, some, List, [], ◌∷◌, ◌==◌, ◌<+>◌, if◌then◌else◌,
  length,
}
use gm_agent.Prelude.Result.{Result, ok, panic}
use gm_agent.Session.Rewind.{CheckpointResponse, RewindResponse}
use gm_agent.Cli.Client.{StreamEvent}
use gm_agent.Cli.Repl.Screen.{
  Model, PermissionPrompt, Decoder, Display, ToolUse, ResponseEvent, ResultEvent, RequestEvent, say,
  replace_last,
}
use gm_agent.Cli.Repl.Keys.{out_of_range}

unfoldable pub rewrite_last : String → Model → Result Model
unfolding replace_last
rewrite_last shown m = elim (replace_last shown m.messages) [
  | none ↦ panic out_of_range
  | some messages ↦ ok (record m { messages = messages })
]

-- A result for the tool that is asked about ends the prompt.
unfoldable pub release : String → Option PermissionPrompt → Option PermissionPrompt
release tool_name none = none
release tool_name (some p) = if p.tool_name == tool_name then none else some p

unfoldable pub permission_request : Option RequestEvent → Model → Model
permission_request none m = m
permission_request (some r) m = record m {
  permission_request = some (record {
    request_id = r.request_id;
    tool_name = r.tool_name;
    permission = r.permission;
    patterns = r.patterns;
    selected_option = 0;
  });
}

module _ (d : Display) where
  -- The first token of an answer opens a message, and each token rewrites the last message.
  unfoldable pub open_stream : Model → Model
  unfolding say
  open_stream m =
      if m.streaming_in_progress
      then m
      else record (say (d.assistant "") m) { streaming_in_progress = true; streaming_raw = "" }

  unfoldable pub llm_token : Option String → Model → Result Model
  unfolding open_stream rewrite_last
  llm_token none m = ok m
  llm_token (some delta) m =
      if delta == ""
      then ok m
      else (let raw = (open_stream m).streaming_raw <+> delta in
          rewrite_last (d.assistant raw) (record (open_stream m) { streaming_raw = raw }))

  -- The text of an answer takes the place of the stream, if there was one and there is a message.
  unfoldable pub show_content : Bool → String → Model → Model
  unfolding say replace_last
  show_content was_streaming content m =
      if content == ""
      then m
      else (let shown = d.assistant (d.markdown content) in
          if was_streaming
          then elim (replace_last shown m.messages) [
            | none ↦ say shown m
            | some messages ↦ record m { messages = messages }
          ]
          else say shown m)

  unfoldable pub show_calls : Decoder → List ToolUse → Model → Model
  unfolding say
  show_calls json [] m = m
  show_calls json (c ∷ cs) m = show_calls json cs (
      if c.name == "talk"
      then elim (json.talk c.arguments) [
        | none ↦ m
        | some text ↦ say (d.assistant (d.markdown text)) m
      ]
      else say (d.tool_call c.name (json.arguments c.arguments) "running") m)

  unfoldable pub llm_response : Decoder → Option ResponseEvent → Model → Model
  unfolding show_content show_calls
  llm_response json none m = record m { streaming_in_progress = false; streaming_raw = "" }
  llm_response json (some r) m = show_calls json r.tool_calls (
      show_content m.streaming_in_progress r.content
        (record m { streaming_in_progress = false; streaming_raw = "" }))

  unfoldable pub tool_result : Option ResultEvent → Model → Model
  unfolding release say
  tool_result none m = m
  tool_result (some r) m =
      let m' = record m { permission_request = release r.tool_name m.permission_request } in
      if r.tool_name == "talk"
      then m'
      else say (d.tool_call r.tool_name [] (if r.success then "success" else "error")) m'

  -- The cases of the switch that only add to the messages, end the stream or change the prompt.
  unfoldable pub other_event : Decoder → StreamEvent → Model → Model
  unfolding llm_response tool_result permission_request say
  other_event json e m =
      if e.type == "llm_response"
      then llm_response json (json.response e.body) m
      else if e.type == "tool_result"
      then tool_result (json.result e.body) m
      else if e.type == "permission_request"
      then permission_request (json.request e.body) m
      else if e.type == "error"
      then say (d.system ("🛑 Error: " <+> json.error_text e.body)) m
      else m

  unfoldable pub handle_event : Decoder → StreamEvent → Model → Result Model
  unfolding llm_token other_event
  handle_event json e m =
      if e.type == "llm_token" then llm_token (json.delta e.body) m else ok (other_event json e m)

  unfoldable pub checkpoint_lines : ℕ → List CheckpointResponse → String
  checkpoint_lines i [] = ""
  checkpoint_lines i (cp ∷ cps) =
      "  "
      <+> d.decimal (i + 1)
      <+> ". ID: "
      <+> cp.id
      <+> " | Messages: "
      <+> d.decimal cp.message_count
      <+> " | Version: "
      <+> d.decimal cp.state_version
      <+> " | Time: "
      <+> d.time cp.timestamp
      <+> "\n"
      <+> checkpoint_lines (i + 1) cps

  unfoldable pub show_checkpoints : List CheckpointResponse → String
  unfolding checkpoint_lines
  show_checkpoints [] = d.system "📋 No checkpoints found"
  show_checkpoints (cp ∷ cps) =
      d.system ("📋 Checkpoints (" <+> d.decimal (length (cp ∷ cps)) <+> " total):\n")
      <+> checkpoint_lines 0 (cp ∷ cps)
      <+> "\nUse '/rewind <checkpoint_id>' to restore (add --code or --all for code rewind)"

  -- A response without a restored checkpoint holds Go's zero value.
  unfoldable pub show_rewind : RewindResponse → String
  show_rewind r =
      if r.success
      then d.system ("✅ " <+> r.message <+> "\n") <+> elim r.restored_checkpoint [
        | none ↦
            "  Restored to:  (Version: " <+> d.decimal 0 <+> ", Messages: " <+> d.decimal 0 <+> ")"
        | some cp ↦
            "  Restored to: "
            <+> cp.id
            <+> " (Version: "
            <+> d.decimal cp.state_version
            <+> ", Messages: "
            <+> d.decimal cp.message_count
            <+> ")"
      ]
      else d.system ("❌ " <+> r.message)
