-- ===== src/Patch/Engine.antt =====
-- pkg/patch/patch.go, apply.go, tracker.go, and countChanges of diff.go. The operating system and the
-- diff library are records of functions; `W` is the world with the files. A tracker is the list of
-- the changes recorded and not yet flushed.
pub mod Effect
pub mod Laws
use gm_agent.Prelude.{
  ℕ, ◌+◌, String, Bool, true, false, not, ◌&&◌, ◌||◌, Option, none, some, List, [], ◌∷◌, ◌++◌, ◌==◌,
  ◌<+>◌, any, if◌then◌else◌,
}
use gm_agent.Prelude.Result.{Error, Reply, value, failed, message, wrap, error_text}
use gm_agent.Prelude.Text.{split_lines}
use gm_agent.Types.Tool.{Time, FileChange}
use gm_agent.Types.Command.{ApplyPatchCommand}
use gm_agent.External.{External, generate_id}
use text.Mathlib.Text.{starts_with}

-- Packages os, path/filepath, time and fmt. A read leaves the world as it is.
pub record Os (W : Type 0) : Type 0 where
  pub read_file : String → W → Reply String
  pub is_not_exist : Error → Bool
  pub write_file : String → String → W → Option Error × W
  pub mkdir_all : String → W → Option Error × W
  pub rename : String → String → W → Option Error × W
  pub remove : String → W → W
  pub glob : String → W → Reply (List String)
  pub clean : String → String
  pub is_abs : String → Bool
  pub join : String → String → String
  pub dir : String → String
  pub rel : String → String → Reply String
  pub format_time : Time → String
  -- `%d` of fmt
  pub format_int : ℕ → String

-- `PatchFromText` and `PatchApply` of diffmatchpatch: the new text, and which hunks were applied.
abbrev pub ApplyDiff : Type 0
ApplyDiff = String → String → Reply (String × List Bool)

pub record PatchConfig : Type 0 where
  pub work_dir : String
  pub backup_dir : String
  pub max_context_lines : ℕ
  pub allowed_paths : List String

pub record ApplyResult : Type 0 where
  pub patch_id : String
  pub file_path : String
  pub success : Bool
  pub diff : String
  pub lines_added : ℕ
  pub lines_removed : ℕ
  pub backup_path : String
  pub error : String
  pub warnings : List String

-- What `Apply` returns, with the tracker, the next identifier and the world after it.
pub record Applied (W : Type 0) : Type 0 where
  pub result : Option ApplyResult
  pub error : Option Error
  pub tracker : List FileChange
  pub draws : ℕ
  pub world : W

unfoldable pub default_config : PatchConfig
default_config = record {
  work_dir = ".";
  backup_dir = ".gm-backups";
  max_context_lines = 3;
  allowed_paths = [];
}

unfoldable pub record_change : FileChange → List FileChange → List FileChange
record_change change tracker = tracker ++ change ∷ []

unfoldable pub flush : List FileChange → List FileChange × List FileChange
flush tracker = (tracker, [])

unfoldable pub is_added : String → Bool
is_added line = starts_with line "+" && not (starts_with line "+++")

unfoldable pub is_removed : String → Bool
is_removed line = starts_with line "-" && not (starts_with line "---")

unfoldable pub count_lines : List String → ℕ × ℕ
unfolding is_added is_removed
count_lines [] = (0, 0)
count_lines (line ∷ lines) =
    let (added, removed) = count_lines lines in
    if is_added line
    then (added + 1, removed)
    else if is_removed line
    then (added, removed + 1)
    else (added, removed)

unfoldable pub count_changes : String → ℕ × ℕ
unfolding split_lines count_lines
count_changes diff = count_lines (split_lines diff)

unfoldable pub all_applied : List Bool → Bool
all_applied [] = true
all_applied (applied ∷ results) = applied && all_applied results

-- The warnings name the hunks that were not applied, from number `i` on.
unfoldable pub warnings_of : (ℕ → String) → ℕ → List Bool → List String
warnings_of print i [] = []
warnings_of print i (applied ∷ results) =
    let rest = warnings_of print (i + 1) results in
    if applied then rest else ("hunk " <+> print i <+> " failed to apply") ∷ rest

-- The text of the metadata file that stands beside a backup.
unfoldable pub metadata_of : String → String → String → String
metadata_of patch_id path timestamp =
    "patch_id: " <+> patch_id <+> "\nfile_path: " <+> path <+> "\ntimestamp: " <+> timestamp
    <+> "\n"

module _ {W : Type 0} (os : Os W) (cfg : PatchConfig) where
  unfoldable pub absolute : String → String
  absolute path = if os.is_abs path then path else os.join cfg.work_dir path

  unfoldable pub is_allowed : String → Bool
  unfolding any
  is_allowed path = elim cfg.allowed_paths [
    | [] ↦ true
    | p ∷ ps ↦ starts_with path p || any (λ q. starts_with path q) ps
  ]

  -- `none`: the path is accepted.
  unfoldable pub validate_path : String → Option Error
  unfolding absolute is_allowed
  validate_path path = elim (os.rel cfg.work_dir (absolute (os.clean path))) [
    | failed x ↦ some (wrap "invalid path" x)
    | value relative ↦
        if starts_with relative ".."
        then some (message ("path traversal detected: " <+> path))
        else if is_allowed relative
        then none
        else some (message ("path not in allowed list: " <+> path))
  ]

  -- A file that does not exist reads as the empty text.
  unfoldable pub read_current : String → W → Reply String
  unfolding absolute
  read_current path w = elim (os.read_file (absolute path) w) [
    | value text ↦ value text
    | failed x ↦ if os.is_not_exist x then value "" else failed (wrap "failed to read file" x)
  ]

  -- `writeFile`: to a temporary file, which is then renamed.
  unfoldable pub write_file : String → String → W → Option Error × W
  unfolding absolute
  write_file path content w =
      let target = absolute path in
      let (no_dir, w1) = os.mkdir_all (os.dir target) w in
      elim no_dir [
        | some x ↦ (some (wrap "failed to create directory" x), w1)
        | none ↦
            let (no_temp, w2) = os.write_file (target <+> ".tmp") content w1 in
            elim no_temp [
              | some x ↦ (some (wrap "failed to write temp file" x), w2)
              | none ↦
                  let (no_move, w3) = os.rename (target <+> ".tmp") target w2 in
                  elim no_move [
                    | some x ↦ (
                      some (wrap "failed to rename temp file" x),
                      os.remove (target <+> ".tmp") w3,
                    )
                    | none ↦ (none, w3)
                  ]
            ]
      ]

  -- A failure to write the metadata is only reported.
  unfoldable pub create_backup :
      (String → String) → String → String → String → String → W → Reply String × W
  unfolding metadata_of
  create_backup base patch_id path content timestamp w =
      let dir = os.join cfg.work_dir cfg.backup_dir in
      let (no_dir, w1) = os.mkdir_all dir w in
      elim no_dir [
        | some x ↦ (failed (wrap "failed to create backup directory" x), w1)
        | none ↦
            let backup =
              os.join dir (patch_id <+> "_" <+> timestamp <+> "_" <+> base path <+> ".bak") in
            let (no_backup, w2) = os.write_file backup content w1 in
            elim no_backup [
              | some x ↦ (failed (wrap "failed to write backup" x), w2)
              | none ↦
                  let (_, w3) =
                    os.write_file (backup <+> ".meta") (metadata_of patch_id path timestamp) w2 in
                  (value backup, w3)
            ]
      ]

module _ (ext : External) {W : Type 0} (os : Os W) (apply_diff : ApplyDiff)
    (cfg : PatchConfig) where
  unfoldable pub stop : Error → List FileChange → ℕ → W → Applied W
  stop x tracker n w = record {
    result = none;
    error = some x;
    tracker = tracker;
    draws = n;
    world = w;
  }

  -- A dry run makes no backup.
  unfoldable pub back_up : ApplyPatchCommand → String → String → ℕ → W → Reply String × W
  unfolding create_backup
  back_up cmd patch_id content n w =
      if cmd.dry_run
      then (value "", w)
      else create_backup os cfg ext.path_base patch_id cmd.file_path content
          (os.format_time (ext.now n)) w

  unfoldable pub result_of_patch : ApplyPatchCommand → String → String → List Bool → ApplyResult
  unfolding count_changes all_applied warnings_of
  result_of_patch cmd patch_id backup results = record {
    patch_id = patch_id;
    file_path = cmd.file_path;
    success = all_applied results;
    diff = cmd.diff;
    lines_added = (count_changes cmd.diff).0;
    lines_removed = (count_changes cmd.diff).1;
    backup_path = backup;
    error = if all_applied results then "" else "some hunks failed to apply";
    warnings = warnings_of os.format_int 1 results;
  }

  -- The change that the tracker gets; an empty file counts as created.
  unfoldable pub change_of : ApplyResult → String → FileChange
  change_of r content = record {
    patch_id = r.patch_id;
    file_path = r.file_path;
    backup_path = r.backup_path;
    operation = if content == "" then "create" else "modify";
  }

  unfoldable pub commit : ApplyResult → String → String → List FileChange → ℕ → W → Applied W
  unfolding write_file change_of record_change
  commit r content new_content tracker n w =
      let (failure, w') = write_file os cfg r.file_path new_content w in
      elim failure [
        | some x ↦ record {
          result =
              some
                (record r { success = false; error = "failed to write file: " <+> error_text x });
          error = some (wrap "failed to write file" x);
          tracker = tracker;
          draws = n;
          world = w';
        }
        | none ↦ record {
          result = some r;
          error = none;
          tracker = record_change (change_of r content) tracker;
          draws = n;
          world = w';
        }
      ]

  -- The diff is applied to the text; only a real run with all hunks applied writes the file.
  unfoldable pub patch_file :
      ApplyPatchCommand → String → String → String → List FileChange → ℕ → W → Applied W
  unfolding stop result_of_patch commit
  patch_file cmd patch_id backup content tracker n w = elim (apply_diff cmd.diff content) [
    | failed x ↦ stop (wrap "failed to parse diff" x) tracker n w
    | value (new_content, results) ↦
        let r = result_of_patch cmd patch_id backup results in
        if not cmd.dry_run && r.success
        then commit r content new_content tracker n w
        else record { result = some r; error = none; tracker = tracker; draws = n; world = w }
  ]

  unfoldable pub after_backup :
      ApplyPatchCommand → String → String → List FileChange → ℕ → Reply String × W → Applied W
  unfolding stop patch_file
  after_backup cmd patch_id content tracker n (failed x, w) =
      stop (wrap "failed to create backup" x) tracker n w
  after_backup cmd patch_id content tracker n (value backup, w) =
      patch_file cmd patch_id backup content tracker n w

  -- `Apply`: the patch takes one identifier, and the backup one reading of the clock.
  unfoldable pub apply : ApplyPatchCommand → List FileChange → ℕ → W → Applied W
  unfolding validate_path stop read_current generate_id back_up after_backup
  apply cmd tracker n w = elim (validate_path os cfg cmd.file_path) [
    | some x ↦ stop (wrap "invalid file path" x) tracker n w
    | none ↦ elim (read_current os cfg cmd.file_path w) [
      | failed x ↦ stop x tracker (n + 1) w
      | value content ↦
          let patch_id = generate_id ext "pch" n in
          after_backup cmd patch_id content tracker (n + 2) (back_up cmd patch_id content (n + 1) w)
    ]
  ]

  unfoldable pub dry_run : ApplyPatchCommand → List FileChange → ℕ → W → Applied W
  unfolding apply
  dry_run cmd tracker n w = apply (record cmd { dry_run = true }) tracker n w
