-- ===== src/Tools/Edit.antt =====
-- pkg/agent/tools/file_editing.go, and GenerateDiff with isBinary of pkg/patch/diff.go. A text stands
-- for its bytes; positions count bytes. The state of the patch engine is threaded through.
pub mod Effect
pub mod Laws
use Prim.Native.Char.{Char, code, len_utf8}
use Prim.Native.String
use gm_agent.Prelude.{
  ℕ, ◌+◌, ◌-◌, String, Bool, true, false, not, ◌&&◌, ◌||◌, Option, none, some, List, [], ◌∷◌, ◌==◌,
  ◌<+>◌, leb, ltb, eqb, any, if◌then◌else◌,
}
use gm_agent.Prelude.Result.{
  Error, Reply, value, failed, Result, ok, err, panic, message, wrap, error_text,
}
use gm_agent.Types.Tool.{FileChange}
use gm_agent.Types.Command.{ApplyPatchCommand, BaseCommand}
use gm_agent.External.{External, new_base_command}
use gm_agent.Patch.Engine.{Os, ApplyDiff, PatchConfig, ApplyResult, Applied, apply}
use text.Mathlib.Text.{starts_with}

pub record WriteFileArgs : Type 0 where
  pub path : String
  pub content : String

pub record EditFileArgs : Type 0 where
  pub path : String
  pub old_content : String
  pub new_content : String

-- A piece of a diff: whether its type is DiffEqual.
pub record Diff : Type 0 where
  pub is_equal : Bool
  pub text : String

-- Package diffmatchpatch, a patch by its text; encoding/json at the arguments.
pub record EditLib : Type 0 where
  pub diff_main : String → String → List Diff
  pub cleanup_semantic : List Diff → List Diff
  pub patch_make : String → List Diff → List String
  pub patch_to_text : List String → String
  pub unmarshal_write : String → Reply WriteFileArgs
  pub unmarshal_edit : String → Reply EditFileArgs

-- What a handler returns, with the tracker, the next identifier and the world after it.
pub record Handled (W : Type 0) : Type 0 where
  pub reply : Result String
  pub tracker : List FileChange
  pub draws : ℕ
  pub world : W

-- Whether a NUL stands in the first `n` bytes: a character takes as many of them as its encoding has,
-- and no byte of a longer encoding is 0.
unfoldable pub has_nul : ℕ → String → Bool
has_nul n String.[] = false
has_nul n (String.◌∷◌ c text) =
    let rest = has_nul (n - len_utf8 c) text in ltb 0 n && (eqb (code c) 0 || rest)

-- The first 8192 bytes are looked at.
unfoldable pub is_binary : String → Bool
unfolding has_nul
is_binary content = has_nul 8192 content

-- The loop of findSubstring over the positions from `i` on, of which `s` is the rest of the text. A
-- text in UTF-8 is found only where a character begins.
unfoldable pub find_from : String → String → ℕ → Option ℕ
find_from String.[] sub i = if starts_with String.[] sub then some i else none
find_from (String.◌∷◌ c s) sub i =
    let rest = find_from s sub (i + len_utf8 c) in
    if starts_with (String.◌∷◌ c s) sub then some i else rest

-- `none` is -1.
unfoldable pub find_substring : String → String → Option ℕ
unfolding find_from
find_substring s sub = find_from s sub 0

unfoldable pub contains : String → String → Bool
unfolding find_substring
contains s sub =
    leb (String.len sub) (String.len s)
    && (s == sub || (elim (find_substring s sub) [ none ↦ false | some i ↦ true ]))

unfoldable pub replace : String → String → String → String
unfolding find_substring
replace s old new = elim (find_substring s old) [
  | none ↦ s
  | some i ↦ String.slice s 0 i <+> new <+> String.slice s (i + String.len old) (String.len s)
]

module _ (lib : EditLib) where
  unfoldable pub diffs_of : String → String → List Diff
  diffs_of old new = lib.cleanup_semantic (lib.diff_main old new)

  unfoldable pub generate_diff : String → String → Reply String
  unfolding is_binary any diffs_of
  generate_diff old new =
      if is_binary old || is_binary new
      then failed (message "binary files are not supported")
      else if not (any (λ d. not d.is_equal) (diffs_of old new))
      then failed (message "no changes detected")
      else elim (lib.patch_make old (diffs_of old new)) [
        | [] ↦ failed (message "no changes detected")
        | p ∷ ps ↦ value (lib.patch_to_text (p ∷ ps))
      ]

module _ (ext : External) {W : Type 0} (os : Os W) (apply_diff : ApplyDiff) (cfg : PatchConfig)
    (lib : EditLib) where
  unfoldable pub patch_command : String → String → ℕ → ApplyPatchCommand
  patch_command path diff n = record {
    base = new_base_command ext "apply_patch" n;
    file_path = path;
    diff = diff;
    dry_run = false;
  }

  -- The command takes one identifier, before those of the engine.
  unfoldable pub apply_text : String → String → List FileChange → ℕ → W → Applied W
  unfolding patch_command apply
  apply_text path diff tracker n w =
      apply ext os apply_diff cfg (patch_command path diff n) tracker (n + 1) w

  unfoldable pub refuse : Error → List FileChange → ℕ → W → Handled W
  refuse x tracker n w = record { reply = err x; tracker = tracker; draws = n; world = w }

  -- What is said of a result that is there; the engine returns a result or an error.
  unfoldable pub answer : (ApplyResult → Result String) → Applied W → Handled W
  answer say a = record {
    reply = elim a.error [
      | some x ↦ err (wrap "failed to apply patch" x)
      | none ↦ elim a.result [ none ↦ panic "nil pointer dereference" | some r ↦ say r ]
    ];
    tracker = a.tracker;
    draws = a.draws;
    world = a.world;
  }

  unfoldable pub say_edited : String → ApplyResult → Result String
  say_edited path r =
      if not r.success
      then err (message ("patch application failed: " <+> r.error))
      else ok (
          "Successfully edited "
          <+> path
          <+> "\n+"
          <+> os.format_int r.lines_added
          <+> " -"
          <+> os.format_int r.lines_removed
          <+> " lines\nBackup: "
          <+> r.backup_path
          <+> "\nPatch ID: "
          <+> r.patch_id)

  unfoldable pub say_wrote : WriteFileArgs → ApplyResult → Result String
  say_wrote args r = ok (
      "Successfully wrote "
      <+> os.format_int (String.count args.content)
      <+> " lines (+"
      <+> os.format_int r.lines_added
      <+> " -"
      <+> os.format_int r.lines_removed
      <+> ") to "
      <+> args.path
      <+> "\nBackup: "
      <+> r.backup_path
      <+> "\nPatch ID: "
      <+> r.patch_id)

  unfoldable pub edit_content : EditFileArgs → String → List FileChange → ℕ → W → Handled W
  unfolding contains replace generate_diff refuse answer say_edited apply_text
  edit_content args content tracker n w =
      if not (contains content args.old_content)
      then refuse (message "old_content not found in file. File may have changed.") tracker n w
      else elim (generate_diff lib content (replace content args.old_content args.new_content)) [
        | failed x ↦ refuse (wrap "failed to generate diff" x) tracker n w
        | value diff ↦ answer (say_edited args.path) (apply_text args.path diff tracker n w)
      ]

  unfoldable pub handle_edit_file : String → List FileChange → ℕ → W → Handled W
  unfolding refuse edit_content
  handle_edit_file args_json tracker n w = elim (lib.unmarshal_edit args_json) [
    | failed x ↦ refuse (wrap "invalid arguments" x) tracker n w
    | value args ↦
        if args.path == ""
        then refuse (message "path is required") tracker n w
        else elim (os.read_file args.path w) [
          | failed x ↦ refuse (wrap "failed to read file" x) tracker n w
          | value content ↦ edit_content args content tracker n w
        ]
  ]

  -- Directly, without the engine.
  unfoldable pub create_file : WriteFileArgs → List FileChange → ℕ → W → Handled W
  unfolding refuse
  create_file args tracker n w =
      let (failure, w') = os.write_file args.path args.content w in
      elim failure [
        | some x ↦ refuse (wrap "failed to write file" x) tracker n w'
        | none ↦ record {
          reply = ok ("Successfully created " <+> args.path);
          tracker = tracker;
          draws = n;
          world = w';
        }
      ]

  -- The diff from a text that is not empty; `value ""` where there are no changes.
  unfoldable pub diff_from : String → String → Reply String
  unfolding generate_diff error_text
  diff_from old new = if old == "" then value "" else elim (generate_diff lib old new) [
    | value diff ↦ value diff
    | failed x ↦
        if error_text x == "no changes detected"
        then value ""
        else failed (wrap "failed to generate diff" x)
  ]

  unfoldable pub write_over : WriteFileArgs → String → List FileChange → ℕ → W → Handled W
  unfolding diff_from refuse create_file answer say_wrote apply_text
  write_over args old tracker n w = elim (diff_from old args.content) [
    | failed x ↦ refuse x tracker n w
    | value diff ↦
        if old == "" || diff == ""
        then create_file args tracker n w
        else answer (say_wrote args) (apply_text args.path diff tracker n w)
  ]

  -- A file that cannot be read counts as empty.
  unfoldable pub handle_write_file : String → List FileChange → ℕ → W → Handled W
  unfolding refuse write_over
  handle_write_file args_json tracker n w = elim (lib.unmarshal_write args_json) [
    | failed x ↦ refuse (wrap "invalid arguments" x) tracker n w
    | value args ↦
        if args.path == ""
        then refuse (message "path is required") tracker n w
        else let (no_dir, w1) = os.mkdir_all (os.dir args.path) w in
          elim no_dir [
            | some x ↦ refuse (wrap "failed to create directory" x) tracker n w1
            | none ↦ elim (os.read_file args.path w1) [
              | failed x ↦ write_over args "" tracker n w1
              | value old ↦ write_over args old tracker n w1
            ]
          ]
  ]
