-- ===== src/Security.antt =====
-- packages/agent/pkg/security/validator.go: the tests on paths and on shell commands. The blocked
-- patterns of the command validator are not read by the source.
pub mod Laws
mod Tests
use gm_agent.Prelude.{
  ℕ, ◌+◌, ◌*◌, String, Bool, true, false, not, ◌||◌, Option, none, some, List, [], ◌∷◌, ◌==◌, ◌<+>◌,
  any, leb, if◌then◌else◌,
}
use gm_agent.Prelude.Result.{Error, Reply, value, failed, message, wrap}
use text.Mathlib.Text.{starts_with}

-- Packages path/filepath and strings.
pub record PathLib : Type 0 where
  pub clean : String → String
  pub is_abs : String → Bool
  pub join : String → String → String
  pub rel : String → String → Reply String
  pub to_lower : String → String
  pub trim_space : String → String
  pub contains : String → String → Bool

pub record PathValidator : Type 0 where
  pub work_dir : String
  pub allowed_paths : List String

pub record CommandValidator : Type 0 where
  pub blocked_commands : List String
  pub blocked_patterns : List String

unfoldable pub suspicious_patterns : List String
suspicious_patterns =
    "/../" ∷ "/etc/" ∷ "/proc/" ∷ "/sys/" ∷ "/dev/" ∷ "/root/" ∷ ".ssh/" ∷ ".aws/" ∷ ".gcp/"
    ∷ "id_rsa" ∷ "id_dsa" ∷ "id_ecdsa" ∷ "id_ed25519" ∷ ".env" ∷ "credentials" ∷ "secrets" ∷ []

unfoldable pub injection_patterns : List String
injection_patterns = ";" ∷ "&&" ∷ "||" ∷ "|" ∷ "`" ∷ "$(" ∷ ">" ∷ "<" ∷ []

unfoldable pub new_command_validator : CommandValidator
new_command_validator = record {
  blocked_commands = "rm -rf /" ∷ "dd if=/dev/zero" ∷ "fork bomb" ∷ ":(){ :|:& };:" ∷ [];
  blocked_patterns = "rm.*-rf.*/$" ∷ "chmod.*777" ∷ "curl.*\\|.*sh" ∷ "wget.*\\|.*sh" ∷ [];
}

module _ (lib : PathLib) where
  unfoldable pub contains_suspicious_pattern : String → Bool
  unfolding any suspicious_patterns
  contains_suspicious_pattern path = any (lib.contains (lib.to_lower path)) suspicious_patterns

  unfoldable pub absolute_of : PathValidator → String → String
  absolute_of v cleaned = if lib.is_abs cleaned then cleaned else lib.join v.work_dir cleaned

  -- No list of paths allows them all.
  unfoldable pub in_allowed : List String → String → Bool
  unfolding any
  in_allowed [] relative = true
  in_allowed (p ∷ ps) relative = any (λ q. starts_with relative q || relative == q) (p ∷ ps)

  -- `none`: the path is safe.
  unfoldable pub validate_path : PathValidator → String → Option Error
  unfolding absolute_of contains_suspicious_pattern in_allowed
  validate_path v path = elim (lib.rel v.work_dir (absolute_of v (lib.clean path))) [
    | failed x ↦ some (wrap "invalid path" x)
    | value relative ↦
        if starts_with relative ".."
        then some (message ("path traversal detected: " <+> path))
        else if contains_suspicious_pattern (lib.clean path)
        then some (message ("suspicious path pattern detected: " <+> path))
        else if in_allowed v.allowed_paths relative
        then none
        else some (message ("path not in allowed list: " <+> path))
  ]

  -- The number of the patterns that occur.
  unfoldable pub count_patterns : String → List String → ℕ
  count_patterns cmd [] = 0
  count_patterns cmd (p ∷ ps) =
      let rest = count_patterns cmd ps in if lib.contains cmd p then 1 + rest else rest

  unfoldable pub contains_command_injection : String → Bool
  unfolding count_patterns injection_patterns
  contains_command_injection cmd = leb 3 (count_patterns cmd injection_patterns)

  -- The first blocked command that occurs.
  unfoldable pub first_blocked : String → List String → Option String
  first_blocked lower_cmd [] = none
  first_blocked lower_cmd (b ∷ bs) =
      let rest = first_blocked lower_cmd bs in
      if lib.contains lower_cmd (lib.to_lower b) then some b else rest

  unfoldable pub validate_command : CommandValidator → String → Option Error
  unfolding first_blocked contains_command_injection
  validate_command v cmd =
      elim (first_blocked (lib.to_lower (lib.trim_space cmd)) v.blocked_commands) [
        | some blocked ↦ some (message ("blocked dangerous command pattern: " <+> blocked))
        | none ↦
            if contains_command_injection cmd
            then some (message "potential command injection detected")
            else none
      ]
