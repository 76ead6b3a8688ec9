-- ===== src/Approval.antt =====
-- packages/agent/cmd/gm/main.go: the permission callback of a session, in two steps, before and after the
-- wait for the user. The rules are those of the store that all sessions share.
pub mod Laws
mod Tests
use gm_agent.Prelude.{ℕ, String, Bool, ◌&&◌, Option, none, some, List, [], ◌∷◌, if◌then◌else◌}
use gm_agent.Prelude.Result.{Error, Reply, value, failed}
use gm_agent.Types.Tool.{PermissionRule}
use gm_agent.Types.Event.{Event, PermissionRequestEvent, permission_request}
use gm_agent.External.{External, generate_id, new_base_event}
use gm_agent.Tool.Policy.{normalize_arguments}
use gm_agent.Tool.Executor.{PermissionRequest}
use gm_agent.Runtime.Permission.{Manager, Response, request}
use gm_agent.Store.Rules.{RuleOs, add_rule}

module _ (ext : External) where
  unfoldable pub request_event : String → PermissionRequest → ℕ → PermissionRequestEvent
  request_event session_id req n = record {
    base = new_base_event ext "permission_request" "system" session_id n;
    request_id = req.request_id;
    tool_name = req.tool_name;
    permission = req.permission;
    patterns = req.patterns;
    metadata = req.metadata;
  }

  -- Up to the wait. `append` is AppendEvent of the session's store, whose failure is only logged.
  unfoldable pub ask :
      {W : Type 0}
      → (Event → W → Option Error × W)
      → String
      → PermissionRequest
      → ℕ
      → Manager
      → W
      → Manager × W
  unfolding request_event request
  ask append session_id req n m w =
      let (_, w') = append (permission_request (request_event session_id req n)) w in
      ((request req.request_id m).1, w')

  -- The rule that allows the call again, by its first pattern.
  unfoldable pub rule_of : PermissionRequest → String → ℕ → PermissionRule
  unfolding normalize_arguments generate_id
  rule_of req pattern n = record {
    id = generate_id ext "rule" n;
    tool_name = req.tool_name;
    action = "allow";
    pattern = normalize_arguments ext pattern;
    created_at = ext.now n;
  }

  module _ {W : Type 0} (os : RuleOs W) (path : String) where
    -- What an approved call with "always" leaves behind. A failure to store the rule is only logged.
    unfoldable pub remember : PermissionRequest → ℕ → W → W
    unfolding rule_of add_rule
    remember req n w = elim req.patterns [
      | [] ↦ w
      | pattern ∷ more ↦ (add_rule os path (rule_of req pattern n) w).1
    ]

    -- From the answer of WaitForResponse on.
    unfoldable pub conclude : PermissionRequest → Reply Response → ℕ → W → Reply Bool × W
    unfolding remember
    conclude req (failed x) n w = (failed x, w)
    conclude req (value resp) n w =
        (value resp.approved, if resp.always && resp.approved then remember req n w else w)
