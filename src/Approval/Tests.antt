-- ===== src/Approval/Tests.antt =====
-- A call is approved for good in a store without rules.
use gm_agent.Prelude.{String, Bool, true, some, List, [], ◌∷◌, ◌≡◌, refl}
use gm_agent.Prelude.Dict.{Dict, lookup, insert}
use gm_agent.Prelude.Result.{Reply, value, ok}
use gm_agent.Types.Tool.{PermissionRule}
use gm_agent.Samples.{external}
use gm_agent.Tool.Policy.{allow, check_rules}
use gm_agent.Tool.Executor.{PermissionRequest}
use gm_agent.Store.Rules.{load_rules, add_rule}
use gm_agent.Store.Tests.{os, read, encode, os-Writes, os-Renames, os-Decodes}
use gm_agent.Approval.{rule_of, conclude}
use gm_agent.Approval.Laws.{conclude-check_rules}

abbrev asked : PermissionRequest
asked = record {
  request_id = "q_1";
  tool_name = "run";
  permission = "run";
  patterns = "{}" ∷ [];
  metadata = [];
}

abbrev concluded : Reply Bool × Dict String
concluded =
    conclude external os "p.json" asked (value (record { approved = true; always = true })) 0 []

conclude-check_rules_example :
    (concluded.0 ≡ value true)
    × (stored : List PermissionRule) × (load_rules os "p.json" concluded.1 ≡ value stored)
    × (check_rules external stored "run" "{}" ≡ some (ok allow))
unfolding load_rules add_rule rule_of read lookup encode insert check_rules
conclude-check_rules_example =
    conclude-check_rules external os "p.json" asked "{}" [] [] 0 [] refl os-Writes (λ p q w. refl)
      os-Renames os-Decodes refl refl refl refl
