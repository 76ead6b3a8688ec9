-- ===== src/Types/Command.antt =====
-- pkg/types/command.go: what the runtime is asked to carry out.
use gm_agent.Prelude.{String, Bool, Option, List}
use gm_agent.Prelude.Dict.{Dict}
use gm_agent.Types.Json.{Json}
use gm_agent.Types.Tool.{RuntimeMode, Tool}
use gm_agent.Types.State.{Message}

pub record BaseCommand : Type 0 where
  pub id : String
  pub type : String

pub record CallLlmCommand : Type 0 where
  pub base : BaseCommand
  pub model : String
  pub messages : List Message
  pub tools : List Tool

-- A nil argument map is `none`.
pub record CallToolCommand : Type 0 where
  pub base : BaseCommand
  pub tool_call_id : String
  pub tool_name : String
  pub arguments : Option (Dict Json)

pub record ApplyPatchCommand : Type 0 where
  pub base : BaseCommand
  pub file_path : String
  pub diff : String
  pub dry_run : Bool

pub record RestoreBackupCommand : Type 0 where
  pub base : BaseCommand
  pub patch_id : String

pub record ModeTransitionCommand : Type 0 where
  pub base : BaseCommand
  pub from_mode : RuntimeMode
  pub to_mode : RuntimeMode
  pub reason : String

pub data Command : Type 0 where
  call_llm : CallLlmCommand → Command
  call_tool : CallToolCommand → Command
  apply_patch : ApplyPatchCommand → Command
  save_checkpoint : BaseCommand → Command
  restore_backup : RestoreBackupCommand → Command
  mode_transition : ModeTransitionCommand → Command

unfoldable pub command_id : Command → String
command_id (call_llm c) = c.base.id
command_id (call_tool c) = c.base.id
command_id (apply_patch c) = c.base.id
command_id (save_checkpoint b) = b.id
command_id (restore_backup c) = c.base.id
command_id (mode_transition c) = c.base.id
