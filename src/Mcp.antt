-- ===== src/Mcp.antt =====
-- crates/ext/mcp-governance/src/lib.rs: tools, policies, and the decision on a tool call. The log lines
-- that it writes are not modelled.
pub mod Json
pub mod Evaluate
pub mod Classify
pub mod Store
mod Tests
use Prim.Native.String.{◌++◌}
use microsoft_agt_rust.Prelude.{
  ℕ, Bool, true, false, not, ◌&&◌, String, Option, none, some, List, [], ◌∷◌, contains, is_empty,
  if◌then◌else◌,
}
use microsoft_agt_rust.Prelude.Result.{Result, ok, err}
use microsoft_agt_rust.Prelude.Map
use microsoft_agt_rust.Prelude.Map.{HashMap}
use microsoft_agt_rust.Identity.Ring
use microsoft_agt_rust.Identity.Ring.{PrivilegeRing, ring_lt}
use microsoft_agt_rust.Audit.{DataCategory, unknown}
use microsoft_agt_rust.Rings.Enforcer.{can_execute}
use Json.{Value, str_arg, has_pattern}

pub record ClassificationRule : Type 0 where
  pub param_name : String
  pub pattern : String
  pub override_category : DataCategory

pub record McpTool : Type 0 where
  pub name : String
  pub description : String
  pub required_ring : PrivilegeRing
  pub default_category : DataCategory
  pub classification_rules : List ClassificationRule

pub record McpPolicy : Type 0 where
  pub allowed_tools : List String
  pub denylist : List String
  pub allow_unknown_tools : Bool
  pub max_requests_per_second : ℕ

-- `#[derive(Default)]`: the rate is 0 here, and not the 10 that serde fills in.
abbrev pub default : McpPolicy
default = record {
  allowed_tools = [];
  denylist = [];
  allow_unknown_tools = false;
  max_requests_per_second = 0;
}

pub data EnforcementDecision : Type 0 where
  allow : EnforcementDecision
  deny : String → EnforcementDecision
  escalate_required : PrivilegeRing → EnforcementDecision

-- `PolicyStore::load_policy`, as one call sees it.
abbrev pub LoadPolicy : Type 0
LoadPolicy = String → Result String (Option McpPolicy)

-- `PolicyEnforcer`; its store is an argument of `evaluate`.
pub record PolicyEnforcer : Type 0 where
  pub tools : HashMap McpTool

-- PolicyEnforcer::new
abbrev pub new : PolicyEnforcer
new = record { tools = [] }

pub register_tool : McpTool → PolicyEnforcer → PolicyEnforcer
register_tool tool e = record { tools = Map.insert e.tools tool.name tool }

-- Whether a rule applies to the arguments.
pub rule_applies : Value → ClassificationRule → Bool
rule_applies args rule = has_pattern rule.pattern (str_arg rule.param_name args)

-- The loop of `classify`, which stops at the first rule that applies.
classify_by : List ClassificationRule → Value → DataCategory → DataCategory
unfolding rule_applies
classify_by [] args category = category
classify_by (rule ∷ rules) args category =
    if rule_applies args rule then rule.override_category else classify_by rules args category

-- PolicyEnforcer::classify
pub classify : PolicyEnforcer → String → Value → DataCategory
unfolding classify_by
classify e tool_name args = elim (Map.get e.tools tool_name) [
  | none ↦ unknown
  | some tool ↦ classify_by tool.classification_rules args tool.default_category
]

abbrev pub not_registered : String
not_registered = "Tool not registered in AGT mesh (fail-closed)"

-- `evaluate` where the tool is not registered.
evaluate_unknown : Result String (Option McpPolicy) → EnforcementDecision
evaluate_unknown (ok (some policy)) =
    if policy.allow_unknown_tools then allow else deny not_registered
evaluate_unknown (ok none) = deny not_registered
evaluate_unknown (err e) = deny not_registered

-- The second step of `evaluate`: the agent's policy.
evaluate_policy : String → Result String (Option McpPolicy) → EnforcementDecision
evaluate_policy tool_name (ok (some policy)) =
    if contains policy.denylist tool_name
    then deny "Tool explicitly denied by policy"
    else if not (is_empty policy.allowed_tools) && not (contains policy.allowed_tools tool_name)
    then deny "Tool not in agent allowlist"
    else allow
evaluate_policy tool_name (ok none) = deny "No policy registered for agent"
evaluate_policy tool_name (err e) = deny ("Policy store error: " ++ e)

-- `evaluate` where the tool is registered: the ring, and then the policy.
evaluate_tool :
    String
    → PrivilegeRing
    → String
    → McpTool
    → Result String (Option McpPolicy)
    → EnforcementDecision
unfolding evaluate_policy can_execute
evaluate_tool agent_did agent_ring tool_name tool policy =
    if not (can_execute agent_did agent_ring tool.required_ring tool_name)
    then if ring_lt tool.required_ring agent_ring
      then escalate_required tool.required_ring
      else deny (
          "Insufficient privilege ring: agent is "
          ++ Ring.display agent_ring
          ++ ", tool requires "
          ++ Ring.display tool.required_ring)
    else evaluate_policy tool_name policy

-- PolicyEnforcer::evaluate. The classification that it makes first only goes to the log.
pub evaluate :
    PolicyEnforcer → LoadPolicy → String → PrivilegeRing → String → Value → EnforcementDecision
unfolding evaluate_unknown evaluate_tool
evaluate e load_policy agent_did agent_ring tool_name args = elim (Map.get e.tools tool_name) [
  | none ↦ evaluate_unknown (load_policy agent_did)
  | some tool ↦ evaluate_tool agent_did agent_ring tool_name tool (load_policy agent_did)
]

-- PolicyEnforcer::can_call_tool
pub can_call_tool : PolicyEnforcer → LoadPolicy → String → PrivilegeRing → String → Bool
unfolding evaluate
can_call_tool e load_policy agent_did agent_ring tool_name =
    elim (evaluate e load_policy agent_did agent_ring tool_name Value.null) [
      | allow ↦ true
      | deny _ ↦ false
      | escalate_required _ ↦ false
    ]
