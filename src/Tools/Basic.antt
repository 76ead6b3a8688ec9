-- ===== src/Tools/Basic.antt =====
-- pkg/agent/tools/builtin.go and interaction.go: the handlers that read or write one file, run a shell
-- and speak to the user.
use gm_agent.Prelude.{String, Option, none, some, ◌==◌, ◌<+>◌, if◌then◌else◌}
use gm_agent.Prelude.Result.{Error, Reply, value, failed, message, wrap, error_text}

pub record ReadFileArgs : Type 0 where
  pub path : String

pub record RunShellArgs : Type 0 where
  pub command : String

pub record CreateFileArgs : Type 0 where
  pub path : String
  pub content : String

pub record TalkArgs : Type 0 where
  pub message_text : String

pub record TaskCompleteArgs : Type 0 where
  pub summary : String

-- Packages os, os/exec, fmt and encoding/json. `run` returns the output of the process, and the error
-- it ended with, if any.
pub record BasicOs (W : Type 0) : Type 0 where
  pub read_file : String → W → Reply String
  pub write_file : String → String → W → Option Error × W
  pub run : String → String → W → (String × Option Error) × W
  pub print_line : String → W → W
  pub unmarshal_read_file : String → Reply ReadFileArgs
  pub unmarshal_run_shell : String → Reply RunShellArgs
  pub unmarshal_create_file : String → Reply CreateFileArgs
  pub unmarshal_talk : String → Reply TalkArgs
  pub unmarshal_task_complete : String → Reply TaskCompleteArgs

module _ {W : Type 0} (os : BasicOs W) where
  unfoldable pub handle_read_file : String → W → Reply String
  handle_read_file args_json w = elim (os.unmarshal_read_file args_json) [
    | failed x ↦ failed (wrap "invalid arguments" x)
    | value args ↦
        if args.path == "" then failed (message "path is required") else os.read_file args.path w
  ]

  -- The error of the process is part of the answer, so that the model sees it.
  unfoldable pub handle_run_shell : String → W → Reply String × W
  unfolding error_text
  handle_run_shell args_json w = elim (os.unmarshal_run_shell args_json) [
    | failed x ↦ (failed (wrap "invalid arguments" x), w)
    | value args ↦
        if args.command == ""
        then (failed (message "command is required"), w)
        else let ((output, failure), w') = os.run "bash" args.command w in
          elim failure [
            | some x ↦ (value ("Error: " <+> error_text x <+> "\nOutput:\n" <+> output), w')
            | none ↦ (value output, w')
          ]
  ]

  -- Directories that are missing are not made.
  unfoldable pub handle_create_file : String → W → Reply String × W
  handle_create_file args_json w = elim (os.unmarshal_create_file args_json) [
    | failed x ↦ (failed (wrap "invalid arguments" x), w)
    | value args ↦
        if args.path == ""
        then (failed (message "path is required"), w)
        else let (failure, w') = os.write_file args.path args.content w in
          elim failure [
            | some x ↦ (failed x, w')
            | none ↦ (value ("Successfully wrote to " <+> args.path), w')
          ]
  ]

  unfoldable pub handle_talk : String → W → Reply String × W
  handle_talk args_json w = elim (os.unmarshal_talk args_json) [
    | failed x ↦ (failed (wrap "invalid arguments" x), w)
    | value args ↦
        if args.message_text == ""
        then (failed (message "message is required"), w)
        else (value "Message delivered using talk.", os.print_line args.message_text w)
  ]

  unfoldable pub handle_task_complete : String → Reply String
  handle_task_complete args_json = elim (os.unmarshal_task_complete args_json) [
    | failed x ↦ failed (wrap "invalid arguments" x)
    | value args ↦ value ("Task Completed: " <+> args.summary)
  ]
