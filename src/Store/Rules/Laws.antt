-- ===== src/Store/Rules/Laws.antt =====
-- The permission rules of pkg/store/fs_store.go are read back as they were stored.
use gm_agent.Prelude.{
  some-none, String, none, List, [], ◌∷◌, ◌++◌, ◌<+>◌, ◌≡◌, refl, ◌∙◌, any, if◌then◌else◌,
  Bool-cases, Option-cases, inl, inr,
}
use gm_agent.Prelude.Result.{value, Reply-cases}
use gm_agent.Types.Tool.{PermissionRule}
use gm_agent.Store.Rules.{RuleOs, same_rule, atomic_write, load_rules, save_rules, add_rule}

module _ {W : Type 0} (os : RuleOs W) where
  -- The laws of the files and of the codec that the store relies on.
  abbrev pub Writes : Type 0
  Writes =
      (p t : String) (w : W)
      → (os.write_file p t w).0 ≡ none
      → os.read_file p (os.write_file p t w).1 ≡ value t

  abbrev pub Syncs : Type 0
  Syncs = (p q : String) (w : W) → os.read_file q (os.sync p w).1 ≡ os.read_file q w

  abbrev pub Renames : Type 0
  Renames =
      (p q : String) (w : W)
      → (os.rename p q w).0 ≡ none
      → os.read_file q (os.rename p q w).1 ≡ os.read_file p w

  abbrev pub Decodes : Type 0
  Decodes =
      (rules : List PermissionRule) (t : String)
      → os.marshal rules ≡ value t
      → os.unmarshal t ≡ value rules

  pub atomic_write-read_file :
      (path text : String) (w : W)
      → Writes
      → Syncs
      → Renames
      → (atomic_write os path text w).0 ≡ none
      → os.read_file path (atomic_write os path text w).1 ≡ value text
  unfolding atomic_write
  atomic_write-read_file path text w writes syncs renames done =
      elim (Option-cases (os.write_file (path <+> ".tmp") text w).0) [
        | inr (x, e) ↦ absurd (some-none (rw (e, atomic_write) at done))
        | inl written ↦
            let w1 = (os.write_file (path <+> ".tmp") text w).1 in
            elim (Option-cases (os.sync (path <+> ".tmp") w1).0) [
              | inr (x, e) ↦ absurd (some-none (rw (written, e, atomic_write) at done))
              | inl synced ↦
                  rw (written, synced, atomic_write)
                    (renames (path <+> ".tmp") path (os.sync (path <+> ".tmp") w1).1
                        (rw (written, synced, atomic_write) at done)
                      ∙ syncs (path <+> ".tmp") (path <+> ".tmp") w1
                      ∙ writes (path <+> ".tmp") text w written)
            ]
      ]

  save_rules-load_rules :
      (path : String) (rules : List PermissionRule) (w : W)
      → Writes
      → Syncs
      → Renames
      → Decodes
      → (save_rules os path rules w).0 ≡ none
      → load_rules os path (save_rules os path rules w).1 ≡ value rules
  unfolding save_rules load_rules
  save_rules-load_rules path rules w writes syncs renames decodes done =
      elim (Reply-cases (os.marshal rules)) [
        | inr (x, e) ↦ absurd (some-none (rw (e, save_rules) at done))
        | inl (text, e) ↦
            rw
              (
                e,
                save_rules,
                load_rules,
                atomic_write-read_file path text w writes syncs renames
                    (rw (e, save_rules) at done),
                decodes rules text e,
              )
              refl
      ]

  -- Where AddPermissionRule succeeds, the rules that are loaded afterwards are those from before,
  -- followed by the new rule unless a rule for the same tool, pattern and action was among them. A
  -- write is read back, to flush a file changes none, a rename moves the text, and the codec decodes
  -- what it has encoded.
  pub add_rule-load_rules :
      (path : String) (rule : PermissionRule) (rules : List PermissionRule) (w : W)
      → Writes
      → Syncs
      → Renames
      → Decodes
      → load_rules os path w ≡ value rules
      → (add_rule os path rule w).0 ≡ none
      → load_rules os path (add_rule os path rule w).1
        ≡ value (if any (same_rule rule) rules then rules else rules ++ rule ∷ [])
  unfolding add_rule
  add_rule-load_rules path rule rules w writes syncs renames decodes before done =
      elim (Bool-cases (any (same_rule rule) rules)) [
        | inl known ↦ rw (before, known, add_rule) before
        | inr new ↦
            rw (before, new, add_rule)
              (save_rules-load_rules path (rules ++ rule ∷ []) w writes syncs renames decodes
                (rw (before, new, add_rule) at done))
      ]
