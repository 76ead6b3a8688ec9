-- ===== src/Approval/Laws.antt =====
-- What is approved for good is allowed from then on, and nothing else is stored.
use gm_agent.Prelude.{
  ℕ, String, Bool, true, ◌&&◌, none, some, List, [], ◌∷◌, ◌++◌, ◌≡◌, ◌≢◌, refl, sym, ap, ◌∙◌, inl,
  inr, ◌==◌, eq_iff, eq_refl, arith, any, Bool-cases, some-none,
}
use gm_agent.Prelude.Result.{value, ok}
use gm_agent.Types.Tool.{PermissionRule}
use gm_agent.External.{External}
use gm_agent.Tool.Policy.{allow, normalize_arguments, matches, check_rules}
use gm_agent.Tool.Executor.{PermissionRequest}
use gm_agent.Store.Rules.{RuleOs, same_rule, load_rules, add_rule}
use gm_agent.Store.Rules.Laws.{Writes, Syncs, Renames, Decodes, add_rule-load_rules}
use gm_agent.Approval.{rule_of, remember, conclude}

and-true : (a b c : Bool) → (a && b && c) ≡ true → (a ≡ true) × (b ≡ true) × (c ≡ true)
and-true a b c h = ground arith

module _ (ext : External) where
  -- A rule that has not decided is passed over, whatever follows it.
  check_rules-skip :
      (r : PermissionRule) (rules more : List PermissionRule) (name args : String)
      → check_rules ext (r ∷ rules) name args ≡ none
      → check_rules ext (r ∷ more) name args ≡ check_rules ext more name args
  unfolding check_rules
  check_rules-skip r rules more name args h = elim (Bool-cases (matches ext r name args)) [
    | inr other ↦ rw (other, check_rules) refl
    | inl same ↦ elim (Bool-cases (r.action == "allow")) [
      | inl allowed ↦ absurd (some-none (rw (same, allowed, check_rules) at h))
      | inr unallowed ↦ elim (Bool-cases (r.action == "deny")) [
        | inl denied ↦ absurd (some-none (rw (same, unallowed, denied, check_rules) at h))
        | inr neither ↦ rw (same, unallowed, neither, check_rules) refl
      ]
    ]
  ]

  check_rules-append :
      (rules : List PermissionRule) (rule : PermissionRule) (name args : String)
      → check_rules ext rules name args ≡ none
      → matches ext rule name args ≡ true
      → (rule.action == "allow") ≡ true
      → check_rules ext (rules ++ rule ∷ []) name args ≡ some (ok allow)
  unfolding check_rules
  check_rules-append [] rule name args h hit allows = rw (hit, allows, check_rules) refl
  check_rules-append (r ∷ rules) rule name args h hit allows =
      check_rules-skip r rules (rules ++ rule ∷ []) name args h
      ∙ check_rules-append rules rule name args
          (sym (check_rules-skip r rules rules name args h) ∙ h) hit allows

  same_rule-matches :
      (rule r : PermissionRule) (name args : String)
      → same_rule rule r ≡ true
      → matches ext rule name args ≡ true
      → (rule.action == "allow") ≡ true
      → (matches ext r name args ≡ true) × ((r.action == "allow") ≡ true)
  unfolding same_rule matches
  same_rule-matches rule r name args same hit allows =
      let (tool, pattern, action) =
        and-true (r.tool_name == rule.tool_name) (r.pattern == rule.pattern)
          (r.action == rule.action) same in
      (
        ap
              (λ (t : String).
                t == name && normalize_arguments ext r.pattern == normalize_arguments ext args)
              ((eq_iff r.tool_name rule.tool_name).0 tool)
            ∙ ap
                (λ (p : String).
                  rule.tool_name == name
                  && normalize_arguments ext p == normalize_arguments ext args)
                ((eq_iff r.pattern rule.pattern).0 pattern)
            ∙ hit,
        ap (λ (t : String). t == "allow") ((eq_iff r.action rule.action).0 action) ∙ allows,
      )

  any-check_rules :
      (rules : List PermissionRule) (rule : PermissionRule) (name args : String)
      → any (same_rule rule) rules ≡ true
      → matches ext rule name args ≡ true
      → (rule.action == "allow") ≡ true
      → check_rules ext rules name args ≢ none
  unfolding any check_rules
  any-check_rules [] rule name args there hit allows h = cc
  any-check_rules (r ∷ rules) rule name args there hit allows h =
      elim (Bool-cases (same_rule rule r)) [
        | inl same ↦
            let (matched, allowed) = same_rule-matches rule r name args same hit allows in
            some-none (rw (matched, allowed, check_rules) at h)
        | inr other ↦
            any-check_rules rules rule name args (rw (other, any) at there) hit allows
              (sym (check_rules-skip r rules rules name args h) ∙ h)
      ]

  rule_of-matches :
      (req : PermissionRequest) (args : String) (n : ℕ)
      → normalize_arguments ext (normalize_arguments ext args) ≡ normalize_arguments ext args
      → matches ext (rule_of ext req args n) req.tool_name args ≡ true
  unfolding rule_of matches
  rule_of-matches req args n normal =
      rw (eq_refl req.tool_name, normal, eq_refl (normalize_arguments ext args)) refl

  module _ {W : Type 0} (os : RuleOs W) (path : String) where
    -- Where the user allows a call for good, no stored rule has decided on it and the rule is stored
    -- without an error, the callback answers yes, and the rules that are then loaded allow a call of
    -- the same tool with the same arguments. The arguments are normal once normalized, and files and
    -- codec are lawful.
    pub conclude-check_rules :
        (req : PermissionRequest) (args : String) (more : List String) (rules : List PermissionRule)
        (n : ℕ) (w : W)
        → normalize_arguments ext (normalize_arguments ext args) ≡ normalize_arguments ext args
        → Writes os
        → Syncs os
        → Renames os
        → Decodes os
        → req.patterns ≡ args ∷ more
        → load_rules os path w ≡ value rules
        → check_rules ext rules req.tool_name args ≡ none
        → (add_rule os path (rule_of ext req args n) w).0 ≡ none
        → ((conclude ext os path req (value (record { approved = true; always = true })) n w).0
            ≡ value true)
          × (stored : List PermissionRule) × (load_rules os path
                (conclude ext os path req (value (record { approved = true; always = true })) n w).1
              ≡ value stored)
          × (check_rules ext stored req.tool_name args ≡ some (ok allow))
    unfolding conclude remember rule_of
    conclude-check_rules req args more rules n w normal writes syncs renames decodes first before
          undecided done =
        let rule = rule_of ext req args n in
        let hit = rule_of-matches req args n normal in
        let loads =
          add_rule-load_rules os path rule rules w writes syncs renames decodes before done in
        elim (Bool-cases (any (same_rule rule) rules)) [
          | inl known ↦
              absurd (any-check_rules rules rule req.tool_name args known hit refl undecided)
          | inr new ↦
              rw (first, conclude, remember)
                (
                  refl,
                  rules ++ rule ∷ [],
                  rw (new) at loads,
                  check_rules-append rules rule req.tool_name args undecided hit refl,
                )
        ]
