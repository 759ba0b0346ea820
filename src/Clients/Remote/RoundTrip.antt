-- ===== src/Clients/Remote/RoundTrip.antt =====
-- A policy that goes through the service and back.
use microsoft_agt_rust.Prelude.{ℕ, ◌≡◌, refl, String, some, List, arith, str_eq, false, str_eq_self}
use microsoft_agt_rust.Prelude.Result.{Result, ok}
use microsoft_agt_rust.Prelude.Map
use microsoft_agt_rust.Prelude.Text.{IsVisible}
use microsoft_agt_rust.Platform.{Platform, PlatformLaws}
use microsoft_agt_rust.Mcp.{McpPolicy}
use microsoft_agt_rust.Mcp.Store
use microsoft_agt_rust.Mcp.Store.{MemoryPolicyStore}
use microsoft_agt_rust.Mcp.Store.Files.{PolicyJsonLaws}
use microsoft_agt_rust.Grpc.Proto.{SetPolicyRequest, Status, PolicyResponse}
use microsoft_agt_rust.Grpc.Call.{Call, Metadata}
use microsoft_agt_rust.Grpc.Call.Authentic.{
  signed_metadata, IsKnown, IsKnown-metadata, authenticate-signed_metadata,
}
use microsoft_agt_rust.Grpc.Escalations.{EscalationService, Setup, get_policy, set_policy}
use microsoft_agt_rust.Grpc.Escalations.Policies.{set_policy_by_anyone, get_policy_by_anyone}
use microsoft_agt_rust.Clients.Remote.{
  NetworkPolicyStore, Channel, signed_by, prepared, saved, loaded, save_policy, load_policy,
}

-- A channel that connects and, as tonic documents, takes a text of visible ASCII as metadata.
pub record IsOpen (ch : Channel) : Type 0 where
  pub connects : ch.connected ≡ ok tt
  pub takes : (s : String) → IsVisible s → ch.try_from s ≡ ok s

pub signed_by-IsOpen :
    (p : Platform) (ch : Channel)
    → PlatformLaws p
    → IsOpen ch
    → (key body : List ℕ) (did : String) → IsVisible did
    → signed_by p ch key did body ≡ ok (signed_metadata p did key body)
unfolding signed_by
signed_by-IsOpen p ch laws open_ key body did visible =
    rw
      (
        signed_by,
        open_.takes did visible,
        open_.takes (p.encode (p.sign key body)) (laws.encode-IsVisible (p.sign key body)),
      )
      refl

module _ (u : Setup MemoryPolicyStore) (ch : Channel) (c : NetworkPolicyStore) (call : Call) where
  -- The service behind the client: the call with the metadata that is sent.
  abbrev pub set_at :
      Metadata
      → SetPolicyRequest
      → EscalationService MemoryPolicyStore
      → Result Status PolicyResponse × EscalationService MemoryPolicyStore
  set_at m req s = set_policy u (record call { metadata = m }) req s

  abbrev pub get_at :
      Metadata → String → EscalationService MemoryPolicyStore → Result Status PolicyResponse
  get_at m did s = get_policy u (record call { metadata = m }) did s

  prepared-IsOpen :
      PlatformLaws u.platform
      → IsOpen ch
      → IsVisible c.agent_did
      → (body : List ℕ)
      → prepared u.platform u.prost u.policy_json ch body c
        ≡ ok (signed_metadata u.platform c.agent_did c.signing_key body)
  unfolding prepared
  prepared-IsOpen laws open_ visible body =
      rw
        (
          prepared,
          open_.connects,
          signed_by-IsOpen u.platform ch laws open_ c.signing_key body c.agent_did visible,
        )
        refl

module _ (u : Setup MemoryPolicyStore) (ch : Channel) (c : NetworkPolicyStore) (call later : Call)
    (laws : PlatformLaws u.platform) (json_laws : PolicyJsonLaws u.policy_json)
    (not_empty : (policy : McpPolicy) → str_eq (u.policy_json.to_string policy) "" ≡ false)
    (in_memory : u.policy_store ≡ Store.as_trait) (visible : IsVisible c.agent_did) where
  abbrev saving :
      String
      → McpPolicy
      → EscalationService MemoryPolicyStore
      → Result String (Unit {0}) × EscalationService MemoryPolicyStore
  saving did policy s =
      save_policy u.platform u.prost u.policy_json ch (set_at u ch c call) did policy c s

  saving-eq :
      (did : String) (policy : McpPolicy) (s : EscalationService MemoryPolicyStore)
      → IsOpen ch
      → IsKnown u.platform u.registry_pubkey call c.agent_did c.signing_key
      → saving did policy s
        ≡ (ok tt, record s { policies = Store.save_policy did policy s.policies })
  unfolding save_policy saved
  saving-eq did policy s open_ known =
      let request : SetPolicyRequest = record {
        agent_did = did;
        policy_json = u.policy_json.to_string policy;
      } in
      let body = u.prost.set_policy_request request in
      let passes =
        authenticate-signed_metadata u.platform laws u.registry_pubkey
          (record call { metadata = signed_metadata u.platform c.agent_did c.signing_key body })
          body c.agent_did c.signing_key refl
          (IsKnown-metadata u.platform u.registry_pubkey call c.agent_did c.signing_key _ known) in
      let m = signed_metadata u.platform c.agent_did c.signing_key body in
      let answers =
        set_policy_by_anyone u in_memory (record call { metadata = m }) c.agent_did s policy request
          passes (json_laws.from_str-to_string policy) in
      rw (save_policy, prepared-IsOpen u ch c call laws open_ visible body, answers, saved) refl

  load_policy-eq :
      (did : String) (policy : McpPolicy) (s : EscalationService MemoryPolicyStore)
      → IsOpen ch
      → IsKnown u.platform u.registry_pubkey later c.agent_did c.signing_key
      → Map.get s.policies.policies did ≡ some policy
      → load_policy u.platform u.prost u.policy_json ch (get_at u ch c later) did c s
        ≡ ok (some policy)
  unfolding load_policy loaded
  load_policy-eq did policy s open_ known stored =
      let body = u.prost.get_policy_request did in
      let passes =
        authenticate-signed_metadata u.platform laws u.registry_pubkey
          (record later { metadata = signed_metadata u.platform c.agent_did c.signing_key body })
          body c.agent_did c.signing_key refl
          (IsKnown-metadata u.platform u.registry_pubkey later c.agent_did c.signing_key _ known) in
      let m = signed_metadata u.platform c.agent_did c.signing_key body in
      let answers =
        get_policy_by_anyone u in_memory (record later { metadata = m }) c.agent_did s policy did
          passes stored in
      rw
        (
          load_policy,
          prepared-IsOpen u ch c later laws open_ visible body,
          answers,
          loaded,
          not_empty policy,
          json_laws.from_str-to_string policy,
        )
        refl

  -- A policy that an agent saves over gRPC for any DID, it then loads over gRPC for that DID: where
  -- the connection is made, the agent's own DID is visible ASCII (which gRPC metadata must be), the
  -- server keeps its policies in memory, policies are never printed as an empty text, and at both
  -- calls the registry knows the agent with its signing key, both calls succeed and the policy
  -- comes back as it was.
  pub load_policy-save_policy :
      (did : String) (policy : McpPolicy) (s : EscalationService MemoryPolicyStore)
      → IsOpen ch
      → IsKnown u.platform u.registry_pubkey call c.agent_did c.signing_key
      → IsKnown u.platform u.registry_pubkey later c.agent_did c.signing_key
      → ((saving did policy s).0 ≡ ok tt)
        × (load_policy u.platform u.prost u.policy_json ch
              (get_at u ch c later)
              did
              c
              (saving did policy s).1
            ≡ ok (some policy))
  unfolding Store.save_policy
  load_policy-save_policy did policy s open_ known known' =
      let saves = saving-eq did policy s open_ known in
      let s' = record s { policies = Store.save_policy did policy s.policies } in
      let stored : Map.get s'.policies.policies did ≡ some policy =
        ground (arith, Map.get-insert s.policies.policies did policy did, str_eq_self did) in
      rw saves (refl, load_policy-eq did policy s' open_ known' stored)
