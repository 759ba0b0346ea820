-- ===== src/Clients/Remote.antt =====
-- `NetworkPolicyStore` of crates/ext/mcp-governance/src/store.rs, over the calls of the escalation
-- service on a state `T`.
pub mod RoundTrip
mod Tests
use microsoft_agt_rust.Prelude.{
  Bool, not, ◌&&◌, String, Option, none, some, List, ℕ, str_eq, if◌then◌else◌,
}
use microsoft_agt_rust.Prelude.Result.{Result, ok, err, map_err, ◌>>=◌, ◌>>◌}
use microsoft_agt_rust.Prelude.Map.{HashMap}
use microsoft_agt_rust.Platform.{Platform}
use microsoft_agt_rust.Mcp.{McpPolicy}
use microsoft_agt_rust.Mcp.Store.{PolicyJson}
use microsoft_agt_rust.Grpc.Proto.{Status, SetPolicyRequest, PolicyResponse, Prost}
use microsoft_agt_rust.Grpc.Call.{Metadata}
use Prim.Native.String.{◌++◌}

pub record NetworkPolicyStore : Type 0 where
  pub agent_did : String
  pub signing_key : List ℕ

-- What the store takes from tonic: the connection's outcome, `MetadataValue::try_from`, and how a
-- status is displayed.
pub record Channel : Type 0 where
  pub connected : Result String (Unit {0})
  pub try_from : String → Result String String
  pub show : Status → String

-- The metadata of a message that is signed with a key.
unfoldable pub signed_by : Platform → Channel → List ℕ → String → List ℕ → Result String Metadata
signed_by p ch key agent_did body_bytes = do
  did ← ch.try_from agent_did
  signature ← ch.try_from (p.encode (p.sign key body_bytes))
  ok (record { agent_did = some (ok did); signature = some (ok signature) })

module _ (p : Platform) (x : Prost) (j : PolicyJson) (ch : Channel) where
  -- A connection, and then the metadata of a message.
  pub prepared : List ℕ → NetworkPolicyStore → Result String Metadata
  unfolding signed_by
  prepared body_bytes c = do
    map_err (λ e. "Failed to connect to gRPC server: " ++ e) ch.connected
    signed_by p ch c.signing_key c.agent_did body_bytes

  pub saved : Result Status PolicyResponse → Result String (Unit {0})
  saved answer = do
    response ← map_err ch.show answer
    (if response.success then ok tt else err "Failed to save policy via gRPC")

  abbrev pub of_response : PolicyResponse → Result String (Option McpPolicy)
  of_response inner =
      if inner.success && not (str_eq inner.policy_json "")
      then (j.from_str inner.policy_json >>= λ policy. ok (some policy))
      else ok none

  pub loaded : Result Status PolicyResponse → Result String (Option McpPolicy)
  loaded answer = map_err ch.show answer >>= of_response

  module _ {T : Type 0} where
    -- save_policy
    pub save_policy :
        (Metadata → SetPolicyRequest → T → Result Status PolicyResponse × T)
        → String
        → McpPolicy
        → NetworkPolicyStore
        → T
        → Result String (Unit {0}) × T
    unfolding prepared saved
    save_policy set_policy agent_did policy c t =
        let req_payload : SetPolicyRequest = record {
          agent_did = agent_did;
          policy_json = j.to_string policy;
        } in
        elim (prepared (x.set_policy_request req_payload) c) [
          | err e ↦ (err e, t)
          | ok m ↦ let (answer, t') = set_policy m req_payload t in (saved answer, t')
        ]

    -- load_policy
    pub load_policy :
        (Metadata → String → T → Result Status PolicyResponse)
        → String
        → NetworkPolicyStore
        → T
        → Result String (Option McpPolicy)
    unfolding prepared loaded
    load_policy get_policy agent_did c t = do
      m ← prepared (x.get_policy_request agent_did) c
      loaded (get_policy m agent_did t)

-- delete_policy
pub delete_policy : String → NetworkPolicyStore → Result String (Unit {0})
delete_policy _ c = err "Delete not implemented in NetworkPolicyStore"

-- list_policies
pub list_policies : NetworkPolicyStore → Result String (HashMap McpPolicy)
list_policies c = err "List not implemented in NetworkPolicyStore"
