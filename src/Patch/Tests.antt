-- ===== src/Patch/Tests.antt =====
-- A patch to the file a.txt, over a world that counts the writes.
use gm_agent.Prelude.{ℕ, suc, true, false, none, [], ◌∷◌, ◌≡◌, refl, ◌==◌, ◌<+>◌, if◌then◌else◌}
use gm_agent.Prelude.Result.{value}
use gm_agent.Types.Command.{ApplyPatchCommand}
use gm_agent.Prelude.Text.{split_lines}
use gm_agent.Patch.Engine.{
  Os, ApplyDiff, Applied, apply, dry_run, default_config, metadata_of, write_file, count_changes,
}
use gm_agent.Patch.Engine.Laws.{Records, apply-Records, dry_run-world}
use gm_agent.Patch.Rollback.{file_path_of, rollback}
use gm_agent.Patch.Rollback.Laws.{file_path_of-metadata_of, rollback-write_file}
use gm_agent.Samples.{external, unary}

abbrev os : Os ℕ
os = record {
  read_file = λ path w.
      value (
        if path == "b.bak.meta"
        then "patch_id: pch_1\nfile_path: a.txt\ntimestamp: t\n"
        else "one");
  is_not_exist = λ x. false;
  write_file = λ path text w. (none, suc w);
  mkdir_all = λ path w. (none, w);
  rename = λ from to w. (none, w);
  remove = λ path w. w;
  glob = λ pattern w. value ("b.bak" ∷ []);
  clean = λ path. path;
  is_abs = λ path. false;
  join = λ a b. a <+> "/" <+> b;
  dir = λ path. ".";
  rel = λ base path. value "a.txt";
  format_time = unary;
  format_int = unary;
}

abbrev apply_diff : ApplyDiff
apply_diff diff text = value ("two", true ∷ [])

abbrev command : ApplyPatchCommand
command = record {
  base = record { id = "cmd_1"; type = "apply_patch" };
  file_path = "a.txt";
  diff = "-one\n+two\n";
  dry_run = false;
}

abbrev applied : Applied ℕ
applied = apply external os apply_diff default_config command [] 0 0

-- The backup, its metadata and the file itself are written.
three_writes : applied.world ≡ 3
unfolding apply default_config
three_writes = refl

one_line_each : count_changes "-one\n+two\n+++ b\n" ≡ (1, 1)
unfolding count_changes
one_line_each = refl

apply-Records_example : Records os apply_diff default_config command [] 0 applied
apply-Records_example = apply-Records external os apply_diff default_config command [] 0 0

dry_run-world_example :
    ((dry_run external os apply_diff default_config command [] 0 0).world ≡ 0)
    × ((dry_run external os apply_diff default_config command [] 0 0).tracker ≡ [])
dry_run-world_example = dry_run-world external os apply_diff default_config command [] 0 0

file_path_of-metadata_of_example :
    file_path_of (split_lines (metadata_of "p_1" "a.txt" "t")) ≡ "a.txt"
file_path_of-metadata_of_example =
    file_path_of-metadata_of "p_1" "a.txt" "t" (refl, (refl, (refl, tt)))
      (refl, (refl, (refl, (refl, (refl, tt)))))

rollback-write_file_example :
    ((rollback os default_config "pch_1" 0).1 ≡ (write_file os default_config "a.txt" "one" 0).1)
    × ((write_file os default_config "a.txt" "one" 0).0 ≡ none
        → (rollback os default_config "pch_1" 0).0 ≡ none)
unfolding metadata_of default_config
rollback-write_file_example =
    rollback-write_file os default_config "pch_1" "a.txt" "t" "b.bak" "one" [] 0
      (refl, (refl, (refl, (refl, (refl, tt))))) (refl, (refl, (refl, (refl, (refl, tt))))) refl
      refl refl refl
