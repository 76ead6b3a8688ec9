-- ===== src/Tool/Tests.antt =====
-- The registry, the policy and the executor at concrete tools and rules.
use gm_agent.Prelude.{ℕ, suc, ◌≡◌, ◌≢◌, refl, true, false, none, some, [], ◌∷◌, ◌⊎◌}
use gm_agent.Prelude.Dict.{lookup}
use gm_agent.Prelude.Result.{ok}
use gm_agent.Types.Tool.{ToolResult, PermissionRule, mode_planning, mode_executing}
use gm_agent.Tool.Registry.{Registry, get}
use gm_agent.Tool.Policy.{
  Policy, PolicyAction, SecurityConfig, allow, deny, check, stored_rules, decide_rules, category_of,
}
use gm_agent.Tool.Policy.Laws.{Unrestricted, Allows, check_iff, check-Allows}
use gm_agent.Tool.Executor.{Executor, Handler, execute}
use gm_agent.Tool.Executor.Laws.{Refused, Ran, execute-Ran}
use gm_agent.Samples.{external, writer, reader, call_of}

abbrev registry : Registry
registry = record { tools = ("write_file", writer) ∷ ("read_file", reader) ∷ [] }

abbrev config : SecurityConfig
config = record {
  auto_approve = false;
  allowed_tools = [];
  allow_file_system = true;
  allow_internet = true;
  workspace_root = ".";
}

abbrev rule : PermissionRule
rule = record {
  id = "r";
  tool_name = "write_file";
  action = "allow";
  pattern = "{ }";
  created_at = 0;
}

-- The world counts the runs of handlers.
abbrev policy : Policy ℕ
policy = record { config = config; registry = some registry; store = some (λ w. ok (rule ∷ [])) }

abbrev touch : Handler ℕ
touch args w = (("written", none), suc w)

abbrev executor : Executor ℕ
executor = record {
  registry = registry;
  policy = policy;
  handlers = ("write_file", touch) ∷ [];
  permission_callback = some (λ req w. (ok false, w));
}

check_iff_example :
    (Unrestricted config (some registry) mode_executing "write_file"
      → check external policy mode_executing "write_file" "{}" 0
        ≡ decide_rules external config (stored_rules external policy 0) "write_file" "{}")
    × ((a : PolicyAction)
        → check external policy mode_executing "write_file" "{}" 0 ≡ ok a
        → Unrestricted config (some registry) mode_executing "write_file")
    × (check external policy mode_executing "write_file" "{}" 0 ≢ ok deny)
check_iff_example = check_iff external policy mode_executing "write_file" "{}" 0

allowed_by_rule : check external policy mode_executing "write_file" "{}" 0 ≡ ok allow
unfolding check category_of get lookup
allowed_by_rule = refl

check-Allows_example :
    (config.auto_approve ≡ true)
    ⊎ Allows external "write_file" "{}" (stored_rules external policy 0)
check-Allows_example =
    check-Allows external policy mode_executing "write_file" "{}" 0 allowed_by_rule

abbrev written : ToolResult
written = record {
  tool_call_id = "call_1";
  tool_name = "write_file";
  content = "written";
  is_error = false;
  error = "";
}

runs : execute external executor mode_executing (call_of writer) 0 0 ≡ (ok written, 1)
unfolding execute category_of get lookup check
runs = refl

execute-Ran_example :
    Refused external executor mode_executing (call_of writer) 0 0 written 1
    ⊎ Ran external executor mode_executing (call_of writer) 0 0 written 1
execute-Ran_example =
    execute-Ran external executor mode_executing (call_of writer) 0 0 written 1 runs

planning_restricts : ¬ Unrestricted config (some registry) mode_planning "write_file"
unfolding get lookup
planning_restricts u = cc (u.mode_fits refl)
