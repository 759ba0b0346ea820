-- ===== src/Clients/Policies.antt =====
-- `HttpPolicyStore` of crates/ext/mcp-governance/src/store.rs.
use Prim.Native.String.{◌++◌}
use microsoft_agt_rust.Prelude.{ℕ, String, Option, none, some, List, []}
use microsoft_agt_rust.Prelude.Result.{Result, ok, err, ◌>>=◌}
use microsoft_agt_rust.Prelude.Map.{HashMap}
use microsoft_agt_rust.Prelude.Text.{utf8}
use microsoft_agt_rust.Platform.{Platform}
use microsoft_agt_rust.Mcp.{McpPolicy}
use microsoft_agt_rust.Clients.{Network, Client, http_get, http_post, signed, fetch, post}
use microsoft_agt_rust.Mcp.Store.{PolicyJson}

abbrev policy_path : String → String
policy_path agent_did = "/v1/agents/" ++ agent_did ++ "/policy"

module _ (p : Platform) (n : Network) (j : PolicyJson) where
  -- HttpPolicyStore::save_policy
  pub save_policy : String → McpPolicy → Client → Result String (Unit {0})
  save_policy agent_did policy c =
      post n "Failed to save policy: "
        (signed p c http_post (policy_path agent_did) (utf8 (j.to_string policy)))

  -- `HttpPolicyStore::load_policy`, with how an answer is read.
  pub load_policy :
      (List ℕ → Result String (Option McpPolicy))
      → String
      → Client
      → Result String (Option McpPolicy)
  load_policy read_policy agent_did c = do
    body ← fetch n "Failed to load policy: " (signed p c http_get (policy_path agent_did) [])
    elim body [ none ↦ ok none | some b ↦ read_policy b ]

  -- HttpPolicyStore::delete_policy
  pub delete_policy : String → Client → Result String (Unit {0})
  delete_policy _ c = err "Delete not implemented in HttpPolicyStore v1"

  -- HttpPolicyStore::list_policies
  pub list_policies : Client → Result String (HashMap McpPolicy)
  list_policies c = err "List not implemented in HttpPolicyStore v1"
