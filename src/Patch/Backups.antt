-- ===== src/Patch/Backups.antt =====
-- pkg/patch/rollback.go, ListBackups, and pkg/patch/diff.go, parseDiff.
pub mod Laws
mod Tests
use gm_agent.Prelude.{
  ℕ, zero, suc, String, Bool, Option, none, some, List, [], ◌∷◌, ◌++◌, ◌==◌, ◌<+>◌, if◌then◌else◌,
}
use gm_agent.Prelude.Result.{Error, Reply, value, failed, wrap}
use gm_agent.Prelude.Text.{split_lines}
use gm_agent.Patch.Engine.{Os, PatchConfig}
use text.Mathlib.Text.{starts_with}
use Prim.Native.String.{len, slice}

pub record BackupInfo : Type 0 where
  pub patch_id : String
  pub file_path : String
  pub backup_path : String
  pub timestamp : String
  pub diff_preview : String

-- `strings.SplitN(line, ": ", 2)` where it has two parts.
unfoldable pub split_label : String → Option (String × String)
split_label String.[] = none
split_label (String.◌∷◌ c rest) =
    let later = split_label rest in
    let line = String.◌∷◌ c rest in
    if starts_with line ": "
    then some ("", slice line (len ": ") (len line))
    else elim later [ none ↦ none | some (label, v) ↦ some (String.◌∷◌ c label, v) ]

unfoldable pub set_field : String × String → BackupInfo → BackupInfo
set_field (label, v) info =
    if label == "patch_id"
    then record info { patch_id = v }
    else if label == "file_path"
    then record info { file_path = v }
    else if label == "timestamp"
    then record info { timestamp = v }
    else info

-- The loop over the lines of the metadata; a later line of a label wins.
unfoldable pub read_metadata : List String → BackupInfo → BackupInfo
unfolding split_label set_field
read_metadata [] info = info
read_metadata (line ∷ lines) info =
    read_metadata lines (elim (split_label line) [ none ↦ info | some part ↦ set_field part info ])

unfoldable pub take : ℕ → List String → List String
take zero ls = []
take (suc n) [] = []
take (suc n) (l ∷ ls) = l ∷ take n ls

-- `strings.Join(lines, "\n")`
unfoldable pub join_lines : List String → String
join_lines [] = ""
join_lines (l ∷ []) = l
join_lines (l ∷ m ∷ ls) = l <+> "\n" <+> join_lines (m ∷ ls)

unfoldable pub preview : String → String
unfolding split_lines take join_lines
preview content = join_lines (take 5 (split_lines content))

-- `missing` is `os.IsNotExist` of what `os.Stat` returns for the directory.
module _ {W : Type 0} (os : Os W) (missing : String → W → Bool) (cfg : PatchConfig) where
  unfoldable pub backup_info : String → String → W → BackupInfo
  unfolding read_metadata split_lines preview
  backup_info path metadata w =
      let blank : BackupInfo = record {
        patch_id = "";
        file_path = "";
        backup_path = path;
        timestamp = "";
        diff_preview = "";
      } in
      let info = read_metadata (split_lines metadata) blank in
      elim (os.read_file path w) [
        | failed x ↦ info
        | value content ↦ record info { diff_preview = preview content }
      ]

  -- A backup without metadata is passed over.
  unfoldable pub collect_backups : List String → W → List BackupInfo
  unfolding backup_info
  collect_backups [] w = []
  collect_backups (path ∷ paths) w = elim (os.read_file (path <+> ".meta") w) [
    | failed x ↦ collect_backups paths w
    | value metadata ↦ backup_info path metadata w ∷ collect_backups paths w
  ]

  unfoldable pub list_backups : W → Reply (List BackupInfo)
  unfolding collect_backups
  list_backups w =
      let dir = os.join cfg.work_dir cfg.backup_dir in
      if missing dir w then value [] else elim (os.glob (os.join dir "*.bak") w) [
        | failed x ↦ failed (wrap "failed to list backups" x)
        | value paths ↦ value (collect_backups paths w)
      ]

pub record DiffHunk : Type 0 where
  pub header : String
  pub lines : List String

-- The loop of `parseDiff`: the hunk that is being read, and the lines that are left.
unfoldable pub parse_hunks : Option DiffHunk → List String → List DiffHunk
parse_hunks none [] = []
parse_hunks (some h) [] = h ∷ []
parse_hunks current (line ∷ lines) =
    let fresh = parse_hunks (some (record { header = line; lines = [] })) lines in
    let longer : List DiffHunk = elim current [
      | none ↦ parse_hunks none lines
      | some h ↦ parse_hunks (some (record h { lines = h.lines ++ line ∷ [] })) lines
    ] in
    if starts_with line "@@" then elim current [ none ↦ fresh | some h ↦ h ∷ fresh ] else longer

unfoldable pub parse_diff : String → List DiffHunk
unfolding split_lines parse_hunks
parse_diff diff = parse_hunks none (split_lines diff)
