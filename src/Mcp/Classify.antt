-- ===== src/Mcp/Classify.antt =====
-- Which data category a tool call touches.
use microsoft_agt_rust.Prelude.{
  ◌≡◌, ◌≢◌, Option-cases, inl, inr, refl, true, false, String, none, some, List, [], ◌∷◌, ◌++◌,
  arith, All, str_eq_self,
}
use microsoft_agt_rust.Prelude.Map
use microsoft_agt_rust.Prelude.Map.{get-insert}
use microsoft_agt_rust.Audit.{DataCategory, unknown}
use text.Mathlib.Text.{find?}
use microsoft_agt_rust.Mcp.Json.{Value, str_arg, has_pattern}
use microsoft_agt_rust.Mcp.{
  ClassificationRule, McpTool, PolicyEnforcer, new, classify, classify_by, rule_applies,
  register_tool,
}

classify_by_first :
    (before after : List ClassificationRule) (rule : ClassificationRule) (args : Value)
    (c : DataCategory)
    → All (λ r. rule_applies args r ≡ false) before
    → rule_applies args rule ≡ true
    → classify_by (before ++ rule ∷ after) args c ≡ rule.override_category
unfolding classify_by
classify_by_first [] after rule args c none_before h = ground (arith, h)
classify_by_first (r ∷ before) after rule args c none_before h =
    ground (arith, none_before.0, classify_by_first before after rule args c none_before.1 h)

classify_by_none :
    (rules : List ClassificationRule) (args : Value) (c : DataCategory)
    → All (λ r. rule_applies args r ≡ false) rules
    → classify_by rules args c ≡ c
unfolding classify_by
classify_by_none [] args c h = refl
classify_by_none (r ∷ rules) args c h = ground (arith, h.0, classify_by_none rules args c h.1)

-- A rule applies where the argument that it names is a text which holds the rule's pattern.
abbrev pub Applies : Value → ClassificationRule → Type 0
Applies args rule =
    (val : String) × (str_arg rule.param_name args ≡ some val) × (find? val rule.pattern ≢ none)

Applies-sound :
    (args : Value) (rule : ClassificationRule) → Applies args rule → rule_applies args rule ≡ true
unfolding rule_applies has_pattern
Applies-sound args rule (val, e, h) = elim (Option-cases (find? val rule.pattern)) [
  | inl n ↦ absurd (h n)
  | inr (_, f) ↦ rw (e, f)
]

Applies-complete :
    (args : Value) (rule : ClassificationRule)
    → ¬ Applies args rule
    → rule_applies args rule ≡ false
unfolding rule_applies has_pattern
Applies-complete args rule h = elim (Option-cases (str_arg rule.param_name args)) [
  | inl e ↦ rw e
  | inr (val, e) ↦ elim (Option-cases (find? val rule.pattern)) [
    | inl n ↦ rw (e, n)
    | inr (i, f) ↦ absurd (h (val, e, λ n. cc))
  ]
]

none_apply :
    (args : Value) (rules : List ClassificationRule)
    → All (λ r. ¬ Applies args r) rules
    → All (λ r. rule_applies args r ≡ false) rules
none_apply args [] h = tt
none_apply args (r ∷ rules) h = (Applies-complete args r h.0, none_apply args rules h.1)

module _ (e : PolicyEnforcer) (tool : McpTool) (args : Value) where
  registered : Map.get (Map.insert e.tools tool.name tool) tool.name ≡ some tool
  registered = ground (arith, get-insert e.tools tool.name tool tool.name, str_eq_self tool.name)

  -- A registered tool none of whose rules applies to the arguments has its default category.
  pub classify-register_tool_default :
      All (λ r. ¬ Applies args r) tool.classification_rules
      → classify (register_tool tool e) tool.name args ≡ tool.default_category
  unfolding classify register_tool
  classify-register_tool_default h = ground (
    arith,
    registered,
    classify_by_none tool.classification_rules args tool.default_category
        (none_apply args tool.classification_rules h),
  )

  -- After a tool is registered, a call of it has the category of the first of its rules that applies
  -- to the arguments: a rule that applies where none before it does.
  pub classify-register_tool :
      (before after : List ClassificationRule) (rule : ClassificationRule)
      → tool.classification_rules ≡ before ++ rule ∷ after
      → All (λ r. ¬ Applies args r) before
      → Applies args rule
      → classify (register_tool tool e) tool.name args ≡ rule.override_category
  unfolding classify register_tool
  classify-register_tool before after rule q h k = ground (
    arith,
    registered,
    q,
    classify_by_first before after rule args tool.default_category (none_apply args before h)
        (Applies-sound args rule k),
  )

-- Without tools every call is of the category Unknown.
pub classify-new : (tool : String) (args : Value) → classify new tool args ≡ unknown
unfolding classify Map.get
classify-new tool args = refl
