-- ===== src/Security/Tests.antt =====
-- A path below an allowed one.
use gm_agent.Prelude.{none, ◌↔◌, true, false, [], ◌∷◌, ◌≡◌, refl, ◌<+>◌}
use gm_agent.Prelude.Result.{value}
use gm_agent.Tools.Edit.{contains}
use gm_agent.Security.{PathLib, PathValidator, in_allowed, validate_path}
use gm_agent.Security.Laws.{IsSafe, validate_path-Safe}

abbrev lib : PathLib
lib = record {
  clean = λ path. path;
  is_abs = λ path. false;
  join = λ a b. a <+> "/" <+> b;
  rel = λ base path. value "src/main.go";
  to_lower = λ text. text;
  trim_space = λ text. text;
  contains = contains;
}

abbrev validator : PathValidator
validator = record { work_dir = "/work"; allowed_paths = "src" ∷ [] }

-- The test is on the text: a directory whose name only begins as the allowed one is accepted too.
prefix_only : in_allowed lib ("src" ∷ []) "src_of_another/key" ≡ true
unfolding in_allowed
prefix_only = refl

validate_path-Safe_example :
    (validate_path lib validator "src/main.go" ≡ none) ↔ IsSafe lib validator "src/main.go"
validate_path-Safe_example = validate_path-Safe lib validator "src/main.go"

-- The path is accepted, as the validator computes.
main_accepted : validate_path lib validator "src/main.go" ≡ none
unfolding validate_path contains
main_accepted = refl
