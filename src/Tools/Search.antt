-- ===== src/Tools/Search.antt =====
-- pkg/agent/tools/search.go. A text stands for its bytes. The walk over a directory is the list of the
-- paths that filepath.Walk visits, in its order; the function that it is given fails on none of them,
-- so the walk does not fail.
pub mod Laws
pub mod Report
pub mod Contexts
pub mod Matches
use gm_agent.Prelude.{
  ℕ, zero, suc, ◌+◌, ◌-◌, String, Bool, true, false, not, ◌&&◌, ◌||◌, Option, none, some, List, [],
  ◌∷◌, ◌++◌, ◌==◌, ◌<+>◌, ltb, leb, length, if◌then◌else◌,
}
use gm_agent.Prelude.Result.{
  Error, Reply, value, failed, Result, ok, err, panic, message, wrap, ◌>>=◌,
}
use gm_agent.Prelude.Text.{split_lines}
use gm_agent.Prelude.Integers.{ℤ, pos, negsuc}
use gm_agent.Tools.Edit.{has_nul}

pub record GlobArgs : Type 0 where
  pub pattern : String
  pub base_dir : String
  pub max_results : ℤ

pub record GrepArgs : Type 0 where
  pub pattern : String
  pub path : String
  pub file_pattern : String
  pub case_sensitive : Bool
  pub max_results : ℤ
  pub context_lines : ℤ

pub record GrepMatch : Type 0 where
  pub file : String
  pub line_number : ℕ
  pub line : String
  pub context : List String

-- One call of the function that filepath.Walk is given; `failure`: with an error.
pub record Visit : Type 0 where
  pub path : String
  pub failure : Bool
  pub is_dir : Bool

-- Packages os, path/filepath, regexp, strings and encoding/json. `glob_match` and `rel` are taken
-- without their errors, as the source takes them.
pub record SearchLib (W : Type 0) : Type 0 where
  pub walk : String → W → List Visit
  pub read_file : String → W → Reply String
  pub rel : String → String → String
  pub base : String → String
  pub glob_match : String → String → Bool
  pub compile : String → Reply (String → Bool)
  pub replace_all : String → String → String → String
  pub trim_space : String → String
  pub format_int : ℕ → String
  pub unmarshal_glob : String → Reply GlobArgs
  pub unmarshal_grep : String → Reply GrepArgs

-- `if n <= 0 { n = d }`
unfoldable pub positive_or : ℕ → ℤ → ℕ
positive_or d (pos zero) = d
positive_or d (pos (suc n)) = suc n
positive_or d (negsuc n) = d

unfoldable pub text_or : String → String → String
text_or d s = if s == "" then d else s

unfoldable pub min : ℕ → ℕ → ℕ
min a b = if ltb a b then a else b

unfoldable pub drop {ℓ} : {A : Type ℓ} → ℕ → List A → List A
drop zero xs = xs
drop (suc n) [] = []
drop (suc n) (x ∷ xs) = drop n xs

unfoldable pub take {ℓ} : {A : Type ℓ} → ℕ → List A → List A
take zero xs = []
take (suc n) [] = []
take (suc n) (x ∷ xs) = x ∷ take n xs

-- `lines[start:end]`, which panics out of the bounds.
unfoldable pub slice {ℓ} : {A : Type ℓ} → ℕ → ℕ → List A → Result (List A)
unfolding drop take
slice start end xs =
    if leb start end && leb end (length xs)
    then ok (take (end - start) (drop start xs))
    else panic "slice bounds out of range"

-- The lines around line `i`. `i + n + 1` is an int: from 2 ^ 63 on it wraps around to a number below
-- 0, which `min` passes on to the slice. `i - n` under `max` with 0 is the subtraction of ℕ.
unfoldable pub context_of : ℕ → ℕ → List String → Result (List String)
unfolding slice min
context_of i n lines =
    if ltb (i + n + 1) 9223372036854775808
    then slice (i - n) (min (length lines) (i + n + 1)) lines
    else panic "slice bounds out of range"

-- No context where `context_lines` is not above 0.
unfoldable pub context_for : ℕ → ℤ → List String → Result (List String)
unfolding context_of
context_for i (pos zero) lines = ok []
context_for i (pos (suc n)) lines = context_of i (suc n) lines
context_for i (negsuc n) lines = ok []

unfoldable pub is_binary_content : String → Bool
unfolding has_nul
is_binary_content content = has_nul 8192 content

-- What is found so far, with its number, and whether the walk is to end (filepath.SkipAll).
pub record Found (A : Type 0) : Type 0 where
  pub matches : List A
  pub count : ℕ
  pub skip_all : Bool

abbrev pub nothing : {A : Type 0} → Found A
nothing = record { matches = []; count = 0; skip_all = false }

unfoldable pub add_match : {A : Type 0} → ℕ → A → Found A → Found A
add_match max_results x found = record {
  matches = found.matches ++ x ∷ [];
  count = found.count + 1;
  skip_all = leb max_results (found.count + 1);
}

unfoldable pub lines_of_matches : {A : Type 0} → (A → String) → List A → String
lines_of_matches print [] = ""
lines_of_matches print (m ∷ ms) = print m <+> lines_of_matches print ms

-- The lines of a file from number `i` on.
unfoldable pub grep_lines :
    (String → Bool)
    → GrepArgs
    → ℕ
    → String
    → List String
    → ℕ
    → List String
    → Found GrepMatch
    → Result (Found GrepMatch)
unfolding context_for add_match
grep_lines hits args max_results file lines i [] found = ok found
grep_lines hits args max_results file lines i (line ∷ rest) found =
    let on : Found GrepMatch → Result (Found GrepMatch) =
      λ next. grep_lines hits args max_results file lines (i + 1) rest next in
    if not (hits line)
    then on found
    else context_for i args.context_lines lines >>= λ context.
        let next =
          add_match max_results
            (record { file = file; line_number = i + 1; line = line; context = context }) found in
        if next.skip_all then ok next else on next

module _ {W : Type 0} (lib : SearchLib W) where
  -- `**` is replaced first, and its `*` then again.
  unfoldable pub match_double_star : String → String → Bool
  match_double_star path pattern =
      let regex = lib.replace_all (lib.replace_all pattern "**" ".*") "*" "[^/]*" in
      elim (lib.compile ("^" <+> regex <+> "$")) [ failed x ↦ false | value matches ↦ matches path ]

  unfoldable pub glob_hits : String → String → Visit → Bool
  unfolding match_double_star
  glob_hits base_dir pattern visit =
      lib.glob_match pattern (lib.base visit.path)
      || match_double_star (lib.rel base_dir visit.path) pattern

  -- One call of the function of the walk.
  unfoldable pub glob_visit : String → String → ℕ → Visit → Found String → Found String
  unfolding glob_hits add_match
  glob_visit base_dir pattern max_results visit found =
      if visit.failure
      then found
      else if visit.is_dir
      then found
      else if glob_hits base_dir pattern visit
      then add_match max_results (lib.rel base_dir visit.path) found
      else found

  unfoldable pub glob_walk : String → String → ℕ → List Visit → Found String → Found String
  unfolding glob_visit
  glob_walk base_dir pattern max_results [] found = found
  glob_walk base_dir pattern max_results (visit ∷ visits) found =
      let next = glob_visit base_dir pattern max_results visit found in
      let rest = glob_walk base_dir pattern max_results visits next in
      if next.skip_all then next else rest

  unfoldable pub print_limit : ℕ → ℕ → String
  print_limit max_results count =
      if leb max_results count
      then "\n(Limited to " <+> lib.format_int max_results <+> " results)"
      else ""

  unfoldable pub print_glob : ℕ → Found String → String
  unfolding lines_of_matches print_limit
  print_glob max_results found = elim found.matches [
    | [] ↦ "No files found matching pattern"
    | m ∷ ms ↦
        "Found "
        <+> lib.format_int (length (m ∷ ms))
        <+> " file(s):\n"
        <+> lines_of_matches (λ path. "  " <+> path <+> "\n") (m ∷ ms)
        <+> print_limit max_results found.count
  ]

  unfoldable pub handle_glob : String → W → Reply String
  unfolding text_or positive_or glob_walk print_glob
  handle_glob args_json w = elim (lib.unmarshal_glob args_json) [
    | failed x ↦ failed (wrap "invalid arguments" x)
    | value args ↦
        if args.pattern == ""
        then failed (message "pattern is required")
        else let base_dir = text_or "." args.base_dir in
          let max_results = positive_or 100 args.max_results in
          value (
            print_glob max_results
              (glob_walk base_dir args.pattern max_results (lib.walk base_dir w) nothing))
  ]

  -- One call of the function of the walk: directories, files of another name, unreadable and binary
  -- files are passed over.
  unfoldable pub grep_visit :
      (String → Bool) → GrepArgs → ℕ → W → Visit → Found GrepMatch → Result (Found GrepMatch)
  unfolding text_or is_binary_content split_lines grep_lines
  grep_visit hits args max_results w visit found =
      if visit.failure || visit.is_dir
      then ok found
      else if not (lib.glob_match (text_or "*" args.file_pattern) (lib.base visit.path))
      then ok found
      else elim (lib.read_file visit.path w) [
        | failed x ↦ ok found
        | value content ↦
            if is_binary_content content
            then ok found
            else grep_lines hits args max_results visit.path (split_lines content) 0
                (split_lines content) found
      ]

  unfoldable pub grep_walk :
      (String → Bool) → GrepArgs → ℕ → W → List Visit → Found GrepMatch → Result (Found GrepMatch)
  unfolding grep_visit
  grep_walk hits args max_results w [] found = ok found
  grep_walk hits args max_results w (visit ∷ visits) found =
      grep_visit hits args max_results w visit found >>= λ next.
      if next.skip_all then ok next else grep_walk hits args max_results w visits next

  unfoldable pub print_match : GrepMatch → String
  unfolding lines_of_matches
  print_match m =
      m.file
      <+> ":"
      <+> lib.format_int m.line_number
      <+> ": "
      <+> lib.trim_space m.line
      <+> "\n"
      <+> (elim m.context [
        | [] ↦ ""
        | c ∷ cs ↦
            "---\n" <+> lines_of_matches (λ line. "  " <+> line <+> "\n") (c ∷ cs) <+> "---\n"
      ])

  unfoldable pub print_grep : ℕ → Found GrepMatch → String
  unfolding lines_of_matches print_match print_limit
  print_grep max_results found = elim found.matches [
    | [] ↦ "No matches found"
    | m ∷ ms ↦
        "Found "
        <+> lib.format_int (length (m ∷ ms))
        <+> " match(es):\n\n"
        <+> lines_of_matches print_match (m ∷ ms)
        <+> print_limit max_results found.count
  ]

  unfoldable pub handle_grep : String → W → Result String
  unfolding text_or positive_or grep_walk print_grep
  handle_grep args_json w = elim (lib.unmarshal_grep args_json) [
    | failed x ↦ err (wrap "invalid arguments" x)
    | value args ↦
        if args.pattern == ""
        then err (message "pattern is required")
        else let max_results = positive_or 50 args.max_results in
          elim (lib.compile ((if args.case_sensitive then "" else "(?i)") <+> args.pattern)) [
            | failed x ↦ err (wrap "invalid regex pattern" x)
            | value hits ↦
                grep_walk hits args max_results w (lib.walk (text_or "." args.path) w) nothing
                >>= λ found. ok (print_grep max_results found)
          ]
  ]
