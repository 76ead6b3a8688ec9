-- ===== src/Store/Rules.antt =====
-- pkg/store/fs_store.go: the permission rules, and the atomic write that stores them. `W` is the world
-- with the files.
pub mod Laws
use gm_agent.Prelude.{
  String, Bool, ◌&&◌, Option, none, some, List, [], ◌∷◌, ◌++◌, ◌==◌, ◌<+>◌, ◌≡◌, refl, ◌∙◌, any,
  if◌then◌else◌, Bool-cases, Option-cases, inl, inr, ◌≢◌,
}
use gm_agent.Prelude.Result.{Error, Reply, value, failed, wrap, Reply-cases}
use gm_agent.Types.Tool.{PermissionRule}

-- Packages os and encoding/json at lists of rules. `sync` opens a file and flushes it to the disk.
pub record RuleOs (W : Type 0) : Type 0 where
  pub read_file : String → W → Reply String
  pub is_not_exist : Error → Bool
  pub write_file : String → String → W → Option Error × W
  pub sync : String → W → Option Error × W
  pub rename : String → String → W → Option Error × W
  pub unmarshal : String → Reply (List PermissionRule)
  pub marshal : List PermissionRule → Reply String

unfoldable pub same_rule : PermissionRule → PermissionRule → Bool
same_rule rule r =
    r.tool_name == rule.tool_name && r.pattern == rule.pattern && r.action == rule.action

module _ {W : Type 0} (os : RuleOs W) where
  -- To a temporary file, which is flushed and then renamed.
  unfoldable pub atomic_write : String → String → W → Option Error × W
  atomic_write path text w =
      let (unwritten, w1) = os.write_file (path <+> ".tmp") text w in
      elim unwritten [
        | some x ↦ (some x, w1)
        | none ↦
            let (unsynced, w2) = os.sync (path <+> ".tmp") w1 in
            elim unsynced [ some x ↦ (some x, w2) | none ↦ os.rename (path <+> ".tmp") path w2 ]
      ]

  -- No file is no rules.
  unfoldable pub load_rules : String → W → Reply (List PermissionRule)
  load_rules path w = elim (os.read_file path w) [
    | failed x ↦ if os.is_not_exist x then value [] else failed x
    | value text ↦ elim (os.unmarshal text) [
      | failed x ↦ failed (wrap "failed to parse permissions.json" x)
      | value rules ↦ value rules
    ]
  ]

  unfoldable pub save_rules : String → List PermissionRule → W → Option Error × W
  unfolding atomic_write
  save_rules path rules w = elim (os.marshal rules) [
    | failed x ↦ (some x, w)
    | value text ↦ atomic_write path text w
  ]

  -- A rule for the same tool, pattern and action is not stored again.
  unfoldable pub add_rule : String → PermissionRule → W → Option Error × W
  unfolding load_rules any same_rule save_rules
  add_rule path rule w = elim (load_rules path w) [
    | failed x ↦ (some x, w)
    | value rules ↦
        if any (same_rule rule) rules then (none, w) else save_rules path (rules ++ rule ∷ []) w
  ]
