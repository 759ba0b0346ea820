-- ===== src/Grpc/Escalations/Policies.antt =====
-- The policy calls of the service over a store in memory.
use microsoft_agt_rust.Prelude.{◌≡◌, refl, true, String, some}
use microsoft_agt_rust.Prelude.Result.{ok}
use microsoft_agt_rust.Prelude.Map
use microsoft_agt_rust.Mcp.{McpPolicy}
use microsoft_agt_rust.Mcp.Store
use microsoft_agt_rust.Mcp.Store.{MemoryPolicyStore}
use microsoft_agt_rust.Grpc.Proto.{SetPolicyRequest}
use microsoft_agt_rust.Grpc.Call.{Call, authenticate}
use microsoft_agt_rust.Grpc.Escalations.{EscalationService, Setup, get_policy, set_policy}

module _ (u : Setup MemoryPolicyStore) (in_memory : u.policy_store ≡ Store.as_trait) (call : Call)
    (caller : String) (s : EscalationService MemoryPolicyStore) (policy : McpPolicy) where
  -- An authentic call of any agent sets the policy of the agent that the message names.
  pub set_policy_by_anyone :
      (inner : SetPolicyRequest)
      → authenticate u.platform u.registry_pubkey call (u.prost.set_policy_request inner)
        ≡ ok caller
      → u.policy_json.from_str inner.policy_json ≡ ok policy
      → set_policy u call inner s ≡ (
        ok (record { success = true; policy_json = inner.policy_json; error = "" }),
        record s { policies = Store.save_policy inner.agent_did policy s.policies },
      )
  unfolding set_policy Store.as_trait Store.save_policy
  set_policy_by_anyone inner passes reads =
      rw (set_policy, passes, reads, in_memory, Store.as_trait) refl

  pub get_policy_by_anyone :
      (did : String)
      → authenticate u.platform u.registry_pubkey call (u.prost.get_policy_request did) ≡ ok caller
      → Map.get s.policies.policies did ≡ some policy
      → get_policy u call did s
        ≡ ok (record { success = true; policy_json = u.policy_json.to_string policy; error = "" })
  unfolding get_policy Store.as_trait Store.load_policy
  get_policy_by_anyone did passes stored =
      rw (get_policy, passes, in_memory, Store.as_trait, Store.load_policy, stored) refl
