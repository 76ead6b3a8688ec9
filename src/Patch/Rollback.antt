-- ===== src/Patch/Rollback.antt =====
-- pkg/patch/rollback.go: a file is restored from the backup of a patch.
pub mod Laws
use gm_agent.Prelude.{String, Option, none, some, List, [], ◌∷◌, ◌==◌, ◌<+>◌, if◌then◌else◌}
use gm_agent.Prelude.Result.{Error, value, failed, message, wrap}
use gm_agent.Prelude.Text.{split_lines}
use gm_agent.Patch.Engine.{Os, PatchConfig, write_file}
use text.Mathlib.Text.{starts_with}
use Prim.Native.String.{len, slice}

-- `strings.TrimPrefix` of a line that has the prefix
abbrev pub trim : String → String → String
trim line prefix = slice line (len prefix) (len line)

-- The path that the metadata names, or the empty text.
unfoldable pub file_path_of : List String → String
file_path_of [] = ""
file_path_of (line ∷ lines) =
    let rest = file_path_of lines in
    if starts_with line "file_path: " then trim line "file_path: " else rest

module _ {W : Type 0} (os : Os W) (cfg : PatchConfig) where
  unfoldable pub restore_file : String → String → W → Option Error × W
  unfolding write_file
  restore_file backup path w = elim (os.read_file backup w) [
    | failed x ↦ (some (wrap "failed to read backup file" x), w)
    | value content ↦
        let (failure, w') = write_file os cfg path content w in
        (elim failure [ none ↦ none | some x ↦ some (wrap "failed to restore file" x) ], w')
  ]

  unfoldable pub restore : String → W → Option Error × W
  unfolding split_lines file_path_of restore_file
  restore backup w = elim (os.read_file (backup <+> ".meta") w) [
    | failed x ↦ (some (wrap "failed to read backup metadata" x), w)
    | value metadata ↦
        let path = file_path_of (split_lines metadata) in
        if path == ""
        then (some (message "file path not found in metadata"), w)
        else restore_file backup path w
  ]

  -- `Rollback`: the first match of the pattern is taken.
  unfoldable pub rollback : String → W → Option Error × W
  unfolding restore
  rollback patch_id w =
      elim (os.glob (os.join (os.join cfg.work_dir cfg.backup_dir) (patch_id <+> "_*.bak")) w) [
        | failed x ↦ (some (wrap "failed to search for backup" x), w)
        | value [] ↦ (some (message ("no backup found for patch ID: " <+> patch_id)), w)
        | value (backup ∷ _) ↦ restore backup w
      ]
