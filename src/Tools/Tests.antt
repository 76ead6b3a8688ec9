-- ===== src/Tools/Tests.antt =====
-- The tools on a small tree of files.
use gm_agent.Prelude.{
  ◌∙◌, Bool, ℕ, suc, String, true, false, ◌||◌, none, List, [], ◌∷◌, ◌++◌, ◌≡◌, refl, sym, ap, inl,
  inr, ◌==◌, ◌<+>◌, Bool-cases, any, arith,
}
use gm_agent.Prelude.Result.{value, ok, panic, failed-value, value_injective}
use gm_agent.Prelude.Integers.{pos, negsuc}
use gm_agent.Prelude.Text.{split_lines}
use gm_agent.Samples.{external, unary}
use gm_agent.Patch.Engine.{Os, ApplyDiff, default_config, all_applied, absolute}
use gm_agent.Tools.Edit.{
  EditLib, EditFileArgs, Handled, has_nul, is_binary, replace, generate_diff, diffs_of,
  handle_edit_file, handle_write_file,
}
use gm_agent.Tools.Edit.Effect.{Lawful, Edited, handle_edit_file-Edited}
use gm_agent.Tools.Search.{
  positive_or, text_or, GlobArgs, GrepArgs, GrepMatch, SearchLib, Visit, Found, nothing,
  positive_or, text_or, take, drop, context_of, handle_glob, handle_grep, grep_walk,
}
use gm_agent.Tools.Search.Laws.{hit_paths}
use gm_agent.Tools.Search.Report.{Tells, handle_glob-Tells}
use gm_agent.Tools.Search.Contexts.{context_of-around}
use gm_agent.Tools.Search.Matches.{Countable, Within, grep_walk-Within}

replaced : replace "one two two" "two" "2" ≡ "one 2 two"
unfolding replace
replaced = refl

abbrev edit : EditFileArgs
edit = record { path = "a.txt"; old_content = "two"; new_content = "2" }

-- A diff is its new text.
abbrev diffs : EditLib
diffs = record {
  diff_main = λ old new. record { is_equal = false; text = new } ∷ [];
  cleanup_semantic = λ ds. ds;
  patch_make = λ old ds. elim ds [ [] ↦ [] | d ∷ _ ↦ d.text ∷ [] ];
  patch_to_text = λ ps. elim ps [ [] ↦ "" | p ∷ _ ↦ p ];
  unmarshal_write = λ s. value (record { path = "a.txt"; content = "2" });
  unmarshal_edit = λ s. value edit;
}

abbrev whole : ApplyDiff
whole diff text = value (diff, true ∷ [])

abbrev disk : Os ℕ
disk = record {
  read_file = λ path w. value "one two two";
  is_not_exist = λ x. false;
  write_file = λ path text w. (none, suc w);
  mkdir_all = λ path w. (none, w);
  rename = λ from to w. (none, w);
  remove = λ path w. w;
  glob = λ pattern w. value [];
  clean = λ path. path;
  is_abs = λ path. false;
  join = λ a b. a <+> "/" <+> b;
  dir = λ path. ".";
  rel = λ base path. value "a.txt";
  format_time = unary;
  format_int = unary;
}

whole-Lawful : Lawful external disk whole default_config diffs
unfolding generate_diff diffs_of any all_applied
whole-Lawful old new diff result results made applies all =
    elim (Bool-cases (is_binary old || is_binary new)) [
      | inl binary ↦ absurd (failed-value (rw (binary, generate_diff) at made))
      | inr plain ↦
          let e : new ≡ diff = value_injective (rw (plain, generate_diff) at made) in
          ap (λ (t : String × List Bool). t.0) (sym (value_injective applies)) ∙ sym e
    ]

abbrev edited : Handled ℕ
edited = handle_edit_file external disk whole default_config diffs "{}" [] 0 0

said : String
said =
    "Successfully edited a.txt\n+O -O lines\nBackup: ./.gm-backups/pch_IO_IIO_a.txt.bak\n"
    <+> "Patch ID: pch_IO"

edited_said : edited.reply ≡ ok said
unfolding handle_edit_file default_config said
edited_said = refl

handle_edit_file-Edited_example :
    (content : String) × (disk.read_file "a.txt" 0 ≡ value content)
    × Edited external disk whole default_config diffs edit content [] edited
unfolding absolute
handle_edit_file-Edited_example =
    handle_edit_file-Edited external disk whole default_config diffs "{}" said edit [] 0 0
      whole-Lawful refl refl edited_said

-- write_file reports success where no hunk of the patch applied, and the file is as it was.
abbrev none_applies : ApplyDiff
none_applies diff text = value (text, false ∷ [])

unchanged :
    (handle_write_file external disk none_applies default_config diffs "{}" [] 0 0).reply
    ≡ ok
        "Successfully wrote IO lines (+O -O) to a.txt\nBackup: ./.gm-backups/pch_IO_IIO_a.txt.bak\nPatch ID: pch_IO"
unfolding handle_write_file default_config
unchanged = refl

abbrev glob_args : GlobArgs
glob_args = record { pattern = "*.go"; base_dir = ""; max_results = negsuc 0 }

abbrev grep_args : GrepArgs
grep_args = record {
  pattern = "b";
  path = "";
  file_pattern = "";
  case_sensitive = true;
  max_results = pos 1;
  context_lines = pos 1;
}

abbrev tree : List Visit
tree =
    record { path = "."; failure = false; is_dir = true }
    ∷ record { path = "a.go"; failure = false; is_dir = false }
    ∷ record { path = "b.go"; failure = false; is_dir = false }
    ∷ []

abbrev search : SearchLib ℕ
search = record {
  walk = λ dir w. tree;
  read_file = λ path w. value "a\nb";
  rel = λ base path. path;
  base = λ path. path;
  glob_match = λ pattern path. true;
  compile = λ regex. value (λ line. line == "b");
  replace_all = λ text old new. text;
  trim_space = λ text. text;
  format_int = unary;
  unmarshal_glob = λ text. value glob_args;
  unmarshal_grep = λ text. value grep_args;
}

globbed : handle_glob search "{}" 0 ≡ value "Found IIO file(s):\n  a.go\n  b.go\n"
unfolding handle_glob
globbed = refl

grepped :
    handle_grep search "{}" 0
    ≡ ok "Found IO match(es):\n\na.go:IIO: b\n---\n  a\n  b\n---\n\n(Limited to IO results)"
unfolding handle_grep
grepped = refl

handle_glob-Tells_example :
    (text : String) × (handle_glob search "{}" 0 ≡ value text)
    × Tells search 100 (hit_paths search "." "*.go" tree) text
unfolding positive_or text_or
handle_glob-Tells_example = handle_glob-Tells search "{}" glob_args 0 refl refl

context_of-around_example :
    context_of 1 1 ("a" ∷ "b" ∷ "c" ∷ "d" ∷ [])
    ≡ ok (drop 0 ("a" ∷ []) ++ "b" ∷ take 1 ("c" ∷ "d" ∷ []))
context_of-around_example = context_of-around ("a" ∷ []) "b" ("c" ∷ "d" ∷ []) 1 (omega arith)

-- A context of as many lines as an int counts ends the grep with a panic.
too_many : context_of 1 9223372036854775807 ("a" ∷ "b" ∷ []) ≡ panic "slice bounds out of range"
unfolding context_of
too_many = refl

countable : Countable (λ line. line == "b") 1 search grep_args 0
unfolding split_lines positive_or
countable path content e = rw (sym (value_injective e)) (omega arith)

grep_walk-Within_example :
    (end : Found GrepMatch) × (grep_walk search (λ line. line == "b") grep_args 1 0 tree nothing
      ≡ ok end)
    × Within (λ line. line == "b") 1 end
grep_walk-Within_example =
    grep_walk-Within search (λ line. line == "b") grep_args 0 0 tree countable

-- The bytes are counted: the NUL below is the fifth byte, and the third character.
nul_is_fifth : has_nul 4 "éé\0" ≡ false
unfolding has_nul
nul_is_fifth = refl

nul_is_seen : has_nul 5 "éé\0" ≡ true
unfolding has_nul
nul_is_seen = refl
