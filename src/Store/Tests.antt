-- ===== src/Store/Tests.antt =====
-- A rule is stored in an empty directory.
use gm_agent.Prelude.{
  some-none, String, Bool, true, ◌&&◌, none, some, List, [], ◌∷◌, ◌++◌, ◌≡◌, refl, sym, ap, ◌==◌,
  eq_iff, eq_refl, eqb, any, arith, if◌then◌else◌, Bool-cases, Option-cases, inl, inr,
}
use gm_agent.Prelude.Dict.{Dict, lookup, insert, lookup-insert}
use gm_agent.Prelude.Result.{failed-value, Reply, value, failed, not_found}
use gm_agent.Types.Tool.{PermissionRule}
use gm_agent.Store.Rules.{RuleOs, same_rule, load_rules, add_rule}
use gm_agent.Store.Rules.Laws.{Writes, Renames, Decodes, add_rule-load_rules}

abbrev pub rule : PermissionRule
rule = record { id = "rule_O"; tool_name = "run"; action = "allow"; pattern = "{}"; created_at = 0 }

unfoldable pub is_rule : PermissionRule → Bool
is_rule r =
    r.id == "rule_O"
    && r.tool_name == "run"
    && r.action == "allow"
    && r.pattern == "{}"
    && eqb r.created_at 0

rule-eq : (r : PermissionRule) → is_rule r ≡ true → r ≡ rule
unfolding is_rule
rule-eq r h = ground (
  arith,
  eq_iff r.id "rule_O",
  eq_iff r.tool_name "run",
  eq_iff r.action "allow",
  eq_iff r.pattern "{}",
)

unfoldable pub read : String → Dict String → Reply String
unfolding lookup
read p w = elim (lookup p w) [ none ↦ failed not_found | some t ↦ value t ]

-- The codec knows the list of the one rule.
unfoldable pub encode : List PermissionRule → Reply String
unfolding is_rule
encode [] = failed not_found
encode (r ∷ []) = if is_rule r then value "[r]" else failed not_found
encode (r ∷ s ∷ rs) = failed not_found

abbrev pub move : String → String → Reply String → Dict String → Dict String
move p q (value t) w = insert q t w
move p q (failed x) w = w

abbrev pub os : RuleOs (Dict String)
os = record {
  read_file = read;
  is_not_exist = λ x. true;
  write_file = λ p t w. (none, insert p t w);
  sync = λ p w. (none, w);
  rename = λ p q w. (elim (read p w) [ value t ↦ none | failed x ↦ some x ], move p q (read p w) w);
  unmarshal = λ t. value (rule ∷ []);
  marshal = encode;
}

pub os-Writes : Writes os
unfolding read
os-Writes p t w _ = rw (read, lookup-insert p p t w, eq_refl p) refl

pub os-Renames : Renames os
unfolding read
os-Renames p q w moved = elim (Option-cases (lookup p w)) [
  | inl gone ↦ absurd (some-none (rw (gone, os, read) at moved))
  | inr (t, there) ↦ rw (there, read, lookup-insert q q t w, eq_refl q) refl
]

pub os-Decodes : Decodes os
unfolding encode
os-Decodes [] t h = absurd (failed-value h)
os-Decodes (r ∷ []) t h = elim (Bool-cases (is_rule r)) [
  | inl known ↦ ap (λ (x : PermissionRule). value (x ∷ [])) (sym (rule-eq r known))
  | inr other ↦ absurd (failed-value (rw (other, encode) at h))
]
os-Decodes (r ∷ s ∷ rs) t h = absurd (failed-value h)

add_rule-load_rules_example :
    load_rules os "p.json" (add_rule os "p.json" rule []).1
    ≡ value (if any (same_rule rule) [] then [] else [] ++ rule ∷ [])
unfolding load_rules add_rule read lookup encode insert
add_rule-load_rules_example =
    add_rule-load_rules os "p.json" rule [] [] os-Writes (λ p q w. refl) os-Renames os-Decodes refl
      refl
