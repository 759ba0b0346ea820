-- ===== src/Mcp/Tests.antt =====
-- The theorems on tool calls at a concrete table of tools.
use microsoft_agt_rust.Prelude.{◌≡◌, refl, true, some, [], ◌∷◌, arith, inr}
use microsoft_agt_rust.Prelude.Result.{ok}
use microsoft_agt_rust.Prelude.Map
use microsoft_agt_rust.Identity.Ring.{standard, trusted}
use microsoft_agt_rust.Audit.{personal_data, system_config}
use microsoft_agt_rust.Mcp.Json
use microsoft_agt_rust.Mcp.Json.{Value, str_arg}
use microsoft_agt_rust.Mcp.{
  ClassificationRule, McpTool, LoadPolicy, PolicyEnforcer, evaluate, allow,
}
use microsoft_agt_rust.Mcp.Evaluate.{evaluate_allow_iff}

abbrev secrets : ClassificationRule
secrets = record { param_name = "path"; pattern = "users"; override_category = personal_data }

abbrev reader : McpTool
reader = record {
  name = "read";
  description = "reads a file";
  required_ring = standard;
  default_category = system_config;
  classification_rules = secrets ∷ [];
}

abbrev enforcer : PolicyEnforcer
enforcer = record { tools = ("read", reader) ∷ [] }

abbrev open_policy : LoadPolicy
open_policy did = ok (
    some (record {
      allowed_tools = "read" ∷ [];
      denylist = "rm" ∷ [];
      allow_unknown_tools = true;
      max_requests_per_second = 10;
    }))

abbrev users_path : Value
users_path = Json.object (Json.field "path" (Json.string "/users/1") Json.end)

evaluate_allow_iff_example :
    evaluate enforcer open_policy "did:mesh:a1" trusted "read" users_path ≡ allow
unfolding Map.get
evaluate_allow_iff_example =
    (evaluate_allow_iff enforcer open_policy "did:mesh:a1" trusted "read" users_path reader refl).1
      (omega arith, (_, refl, (refl, inr refl)))
