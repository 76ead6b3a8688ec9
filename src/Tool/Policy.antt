-- ===== src/Tool/Policy.antt =====
-- pkg/tool/policy.go: which tool may run, in which mode, with which arguments. Go returns
-- `PolicyDeny` beside every error, so an error stands for both.
pub mod Laws
use gm_agent.Prelude.{
  String, ◌≡◌, refl, Bool, true, false, not, ◌&&◌, ◌||◌, Option, none, some, List, [], ◌∷◌, ◌==◌,
  ◌<+>◌, any, if◌then◌else◌,
}
use gm_agent.Prelude.Dict.{get_text}
use gm_agent.Prelude.Result.{Result, ok, err, panic, message, ◌>>=◌, ◌>>◌}
use gm_agent.Types.Tool.{Tool, RuntimeMode, PermissionRule, mode_planning}
use gm_agent.Tool.Registry.{Registry, get}
use gm_agent.External.{External}

pub data PolicyAction : Type 0 where
  allow deny confirm : PolicyAction

-- `config.SecurityConfig`
pub record SecurityConfig : Type 0 where
  pub auto_approve : Bool
  pub allowed_tools : List String
  pub allow_file_system : Bool
  pub allow_internet : Bool
  pub workspace_root : String

-- `W` is the world in which the rules are stored; a nil registry and a nil store are `none`.
pub record Policy (W : Type 0) : Type 0 where
  pub config : SecurityConfig
  pub registry : Option Registry
  pub store : Option (W → Result (List PermissionRule))

-- A planning runtime runs tools that only read. With no registry to ask, Go dereferences nil.
unfoldable pub check_mode : Option Registry → RuntimeMode → String → Result (Unit {0})
unfolding get
check_mode registry mode name =
    if mode == mode_planning
    then elim registry [
      | none ↦ panic "runtime error: invalid memory address or nil pointer dereference"
      | some r ↦ elim (get name r) [
        | none ↦ ok tt
        | some t ↦
            if t.read_only
            then ok tt
            else err (
                message (
                  "tool " <+> name
                  <+> " requires write access and cannot be used in planning mode"))
      ]
    ]
    else ok tt

unfoldable pub check_whitelist : List String → String → Result (Unit {0})
unfolding any
check_whitelist [] name = ok tt
check_whitelist (a ∷ more) name =
    if any (λ allowed. allowed == name) (a ∷ more)
    then ok tt
    else err (message ("tool " <+> name <+> " is not in allowed_tools whitelist"))

unfoldable pub category_of : Tool → String
unfolding get_text
category_of t = get_text "category" t.metadata

unfoldable pub check_category : SecurityConfig → Option Registry → String → Result (Unit {0})
unfolding get category_of
check_category cfg none name = ok tt
check_category cfg (some r) name = elim (get name r) [
  | none ↦ ok tt
  | some t ↦
      if category_of t == "filesystem" && not cfg.allow_file_system
      then err (
          message (
            "filesystem operations (category: "
            <+> category_of t
            <+> ") are disabled by security policy"))
      else if category_of t == "internet" && not cfg.allow_internet
      then err (
          message (
            "internet operations (category: "
            <+> category_of t
            <+> ") are disabled by security policy"))
      else ok tt
]

-- Where no rule decides, `AutoApprove` does.
unfoldable pub decided : SecurityConfig → Option (Result PolicyAction) → Result PolicyAction
decided cfg (some decision) = decision
decided cfg none = if cfg.auto_approve then ok allow else ok confirm

module _ (ext : External) where
  -- What is no valid JSON stays as it is.
  unfoldable pub normalize_arguments : String → String
  normalize_arguments s = elim (ext.unmarshal_any s) [ none ↦ s | some v ↦ ext.marshal_any v ]

  unfoldable pub matches : PermissionRule → String → String → Bool
  unfolding normalize_arguments
  matches rule name args =
      rule.tool_name == name && normalize_arguments rule.pattern == normalize_arguments args

  -- The loop over the stored rules; `none` means that no rule has decided.
  unfoldable pub check_rules : List PermissionRule → String → String → Option (Result PolicyAction)
  unfolding matches
  check_rules [] name args = none
  check_rules (rule ∷ rules) name args =
      let rest = check_rules rules name args in
      if matches rule name args
      then if rule.action == "allow"
        then some (ok allow)
        else if rule.action == "deny"
        then some (err (message "denied by persistent rule"))
        else rest
      else rest

  -- The rules of the store; a store that fails counts as one without rules. No store of the program
  -- panics here, and a panic is not told apart from an error.
  unfoldable pub stored_rules : {W : Type 0} → Policy W → W → List PermissionRule
  stored_rules p w = elim p.store [
    | none ↦ []
    | some read ↦ elim (read w) [ ok rules ↦ rules | _ ↦ [] ]
  ]

  unfoldable pub decide_rules :
      SecurityConfig → List PermissionRule → String → String → Result PolicyAction
  unfolding check_rules decided
  decide_rules cfg rules name args = decided cfg (check_rules rules name args)

  unfoldable pub check :
      {W : Type 0} → Policy W → RuntimeMode → String → String → W → Result PolicyAction
  unfolding check_mode check_whitelist check_category stored_rules decide_rules
  check p mode name args w = do
    check_mode p.registry mode name
    check_whitelist p.config.allowed_tools name
    check_category p.config p.registry name
    decide_rules p.config (stored_rules p w) name args
