-- ===== src/Tool/Policy/Laws.antt =====
-- What the policy guarantees: the order of its restrictions, and who decides when.
use gm_agent.Prelude.{
  String, ◌≡◌, refl, ◌∙◌, ap, sym, ◌≢◌, ◌↔◌, ◌⊎◌, inl, inr, true, ◌&&◌, Option, none, some, List,
  [], ◌∷◌, ◌==◌, any, arith, eq_iff, Bool-cases, Option-cases,
}
use mathlib.Core.List.{Memᴰ}
use gm_agent.Types.Json.{Json}
use gm_agent.Prelude.Result.{ok, bind-eq-ok, ◌>>◌}
use gm_agent.Types.Tool.{Tool, RuntimeMode, PermissionRule, mode_planning}
use gm_agent.Tool.Registry.{Registry, get}
use gm_agent.External.{External}
use gm_agent.Tool.Policy.{
  Policy, PolicyAction, allow, deny, SecurityConfig, category_of, check_mode, check_whitelist,
  check_category, matches, normalize_arguments, check_rules, stored_rules, decided, decide_rules,
  check,
}

-- The hard restrictions, each as a statement about the tool and the configuration.
abbrev pub IsReader : Option Tool → Type 0
IsReader none = Unit
IsReader (some t) = t.read_only ≡ true

-- With no registry the mode cannot be checked, and the categories are not.
abbrev pub ReadsOnly : Option Registry → String → Type 0
ReadsOnly none name = ⊥
ReadsOnly (some r) name = IsReader (get name r)

abbrev pub IsOpen : SecurityConfig → Option Tool → Type 0
IsOpen cfg none = Unit
IsOpen cfg (some t) =
    (category_of t ≡ "filesystem" → cfg.allow_file_system ≡ true)
    × (category_of t ≡ "internet" → cfg.allow_internet ≡ true)

abbrev pub InCategory : SecurityConfig → Option Registry → String → Type 0
InCategory cfg none name = Unit
InCategory cfg (some r) name = IsOpen cfg (get name r)

abbrev pub Listed : List String → String → Type 0
Listed allowed name = (allowed ≡ []) ⊎ (any (λ a. a == name) allowed ≡ true)

pub record Unrestricted (cfg : SecurityConfig) (registry : Option Registry) (mode : RuntimeMode)
    (name : String) : Type 0 where
  pub mode_fits : mode ≡ mode_planning → ReadsOnly registry name
  pub listed : Listed cfg.allowed_tools name
  pub category_open : InCategory cfg registry name

check_mode_iff :
    (registry : Option Registry) (mode : RuntimeMode) (name : String)
    → (check_mode registry mode name ≡ ok tt) ↔ (mode ≡ mode_planning → ReadsOnly registry name)
unfolding check_mode
check_mode_iff none mode name = ground (arith, eq_iff mode mode_planning)
check_mode_iff (some r) mode name =
    ground (arith, eq_iff mode mode_planning, Option-cases (get name r))

check_whitelist_iff :
    (allowed : List String) (name : String)
    → (check_whitelist allowed name ≡ ok tt) ↔ Listed allowed name
unfolding check_whitelist
check_whitelist_iff [] name = ground arith
check_whitelist_iff (a ∷ as') name = ground arith

check_category_iff :
    (cfg : SecurityConfig) (registry : Option Registry) (name : String)
    → (check_category cfg registry name ≡ ok tt) ↔ InCategory cfg registry name
unfolding check_category
check_category_iff cfg none name = ground arith
check_category_iff cfg (some r) name = elim (Option-cases (get name r)) [
  | inl missing ↦ rw (missing, check_category) (λ h. tt, λ h. refl)
  | inr (t, found) ↦
      rw (found, check_category)
        (ground (arith, eq_iff (category_of t) "filesystem", eq_iff (category_of t) "internet"))
]

module _ (ext : External) {W : Type 0} (p : Policy W) (mode : RuntimeMode) (name args : String)
    (w : W) where
  -- A call that no hard restriction meets is decided by the rules and by `AutoApprove`, and only
  -- such a call is; the answer is never a bare `PolicyDeny`.
  check-Unrestricted :
      Unrestricted p.config p.registry mode name
      → check ext p mode name args w ≡ decide_rules ext p.config (stored_rules ext p w) name args
  unfolding check
  check-Unrestricted u = rw (
    (check_mode_iff p.registry mode name).1 u.mode_fits,
    (check_whitelist_iff p.config.allowed_tools name).1 u.listed,
    (check_category_iff p.config p.registry name).1 u.category_open,
  )

  check_restricts :
      (a : PolicyAction)
      → check ext p mode name args w ≡ ok a
      → Unrestricted p.config p.registry mode name
  unfolding check
  check_restricts a h =
      let (u, first, h') = bind-eq-ok _ _ h in
      let (v, second, h'') = bind-eq-ok _ _ h' in
      let (x, third, h''') = bind-eq-ok _ _ h'' in
      record {
        mode_fits = (check_mode_iff p.registry mode name).0 first;
        listed = (check_whitelist_iff p.config.allowed_tools name).0 second;
        category_open = (check_category_iff p.config p.registry name).0 third;
      }

module _ (ext : External) (name args : String) where
  -- A stored rule for this tool and these arguments, up to the formatting of the JSON.
  pub record Allows (rules : List PermissionRule) : Type 0 where
    pub rule : PermissionRule
    pub stored : Memᴰ rule rules
    pub same_tool : rule.tool_name ≡ name
    pub same_arguments : normalize_arguments ext rule.pattern ≡ normalize_arguments ext args
    pub action : rule.action ≡ "allow"

  Allows-cons :
      (r : PermissionRule) (rules : List PermissionRule) → Allows rules → Allows (r ∷ rules)
  Allows-cons r rules a = record {
    rule = a.rule;
    stored = Memᴰ.tail a.stored;
    same_tool = a.same_tool;
    same_arguments = a.same_arguments;
    action = a.action;
  }

  check_rules-Allows :
      (rules : List PermissionRule)
      → check_rules ext rules name args ≡ some (ok allow)
      → Allows rules
  unfolding check_rules matches
  check_rules-Allows [] h = cc
  check_rules-Allows (r ∷ rules) h =
      elim (Bool-cases (matches ext r name args && r.action == "allow")) [
        | inl here ↦ record {
          rule = r;
          stored = Memᴰ.head refl;
          same_tool = ground (arith, eq_iff r.tool_name name);
          same_arguments =
              ground
                (arith, eq_iff (normalize_arguments ext r.pattern) (normalize_arguments ext args));
          action = ground (arith, eq_iff r.action "allow");
        }
        | inr other ↦ Allows-cons r rules (check_rules-Allows rules (ground arith))
      ]

  check_rules-ne-deny :
      (rules : List PermissionRule) → check_rules ext rules name args ≢ some (ok deny)
  unfolding check_rules
  check_rules-ne-deny [] h = cc
  check_rules-ne-deny (r ∷ rules) h = ground (arith, check_rules-ne-deny rules)

  decide_rules-ne-deny :
      (cfg : SecurityConfig) (rules : List PermissionRule)
      → decide_rules ext cfg rules name args ≢ ok deny
  unfolding decide_rules
  decide_rules-ne-deny cfg rules h =
      ground (arith, check_rules-ne-deny rules, Option-cases (check_rules ext rules name args))

  decide_rules-Allows :
      (cfg : SecurityConfig) (rules : List PermissionRule)
      → decide_rules ext cfg rules name args ≡ ok allow
      → (cfg.auto_approve ≡ true) ⊎ Allows rules
  unfolding decide_rules
  decide_rules-Allows cfg rules h = elim (Option-cases (check_rules ext rules name args)) [
    | inl undecided ↦ inl (ground (arith, Bool-cases cfg.auto_approve))
    | inr (d, decided) ↦ inr (check_rules-Allows rules (ground arith))
  ]

-- A call that no hard restriction meets (mode, whitelist, category) is decided by the stored rules
-- and `AutoApprove` alone; any answer but an error means that no hard restriction meets the call,
-- whatever the rules say; and no answer is a bare `PolicyDeny`.
pub check_iff :
    (ext : External) {W : Type 0} (p : Policy W) (mode : RuntimeMode) (name args : String) (w : W)
    → (Unrestricted p.config p.registry mode name
        → check ext p mode name args w ≡ decide_rules ext p.config (stored_rules ext p w) name args)
      × ((a : PolicyAction)
          → check ext p mode name args w ≡ ok a
          → Unrestricted p.config p.registry mode name)
      × (check ext p mode name args w ≢ ok deny)
check_iff ext p mode name args w = (
  check-Unrestricted ext p mode name args w,
  check_restricts ext p mode name args w,
  λ h. decide_rules-ne-deny ext name args p.config (stored_rules ext p w) (
      sym
        (check-Unrestricted ext p mode name args w (check_restricts ext p mode name args w deny h))
      ∙ h),
)

-- A call is allowed without asking only under `AutoApprove`, or by a stored rule that allows this
-- tool with these arguments, up to the formatting of their JSON.
pub check-Allows :
    (ext : External) {W : Type 0} (p : Policy W) (mode : RuntimeMode) (name args : String) (w : W)
    → check ext p mode name args w ≡ ok allow
    → (p.config.auto_approve ≡ true) ⊎ Allows ext name args (stored_rules ext p w)
check-Allows ext p mode name args w h =
    decide_rules-Allows ext name args p.config (stored_rules ext p w) (
      sym
        (check-Unrestricted ext p mode name args w (check_restricts ext p mode name args w allow h))
      ∙ h)

normalize_arguments-eq :
    (ext : External) (args : String) (v : Json)
    → ext.unmarshal_any args ≡ some v
    → normalize_arguments ext args ≡ ext.marshal_any v
unfolding normalize_arguments
normalize_arguments-eq ext args v h = rw (h, normalize_arguments)

check_rules-same :
    (ext : External) (rules : List PermissionRule) (name args args' : String)
    → normalize_arguments ext args ≡ normalize_arguments ext args'
    → check_rules ext rules name args ≡ check_rules ext rules name args'
unfolding check_rules matches
check_rules-same ext [] name args args' h = refl
check_rules-same ext (r ∷ rules) name args args' h =
    rw (h, check_rules-same ext rules name args args' h)

-- Arguments that are the same JSON value get the same answer.
pub check-same_json :
    (ext : External) {W : Type 0} (p : Policy W) (mode : RuntimeMode) (name args args' : String)
    (w : W) (v : Json)
    → ext.unmarshal_any args ≡ some v
    → ext.unmarshal_any args' ≡ some v
    → check ext p mode name args w ≡ check ext p mode name args' w
unfolding check decide_rules
check-same_json ext p mode name args args' w v h h' =
    ap
      (λ d.
        check_mode p.registry mode name
        >> (check_whitelist p.config.allowed_tools name
            >> (check_category p.config p.registry name >> decided p.config d)))
      (check_rules-same ext (stored_rules ext p w) name args args'
        (normalize_arguments-eq ext args v h ∙ sym (normalize_arguments-eq ext args' v h')))
