-- ===== src/Daemon/Http/Routes.antt =====
-- The handlers of crates/daemon/src/lib.rs behind the authentication layer, but for `execute_action`:
-- each over the parts of the server's state that it calls.
pub mod Shadows
pub mod Keys
pub mod Approvals
mod Tests
use microsoft_agt_rust.Prelude.{
  ℕ, ◌==◌, Bool, String, Option, none, some, List, length, if◌then◌else◌,
}
use microsoft_agt_rust.Prelude.Result.{Result, ok, err, map_err, ok_or, ensure, ◌>>=◌, ◌>>◌}
use microsoft_agt_rust.Platform.{Platform}
use microsoft_agt_rust.Identity.Ring.{PrivilegeRing, system, ring_eq}
use microsoft_agt_rust.Identity.AgentId
use microsoft_agt_rust.Identity.AgentId.{AgentIdentity}
use microsoft_agt_rust.Identity.Attestation.{SignedAttestation}
use microsoft_agt_rust.Identity.Registry.{AgentRegistry}
use microsoft_agt_rust.Identity.KeyStore.{KeyStore}
use microsoft_agt_rust.Mcp.{McpPolicy}
use microsoft_agt_rust.Mcp.Store.{PolicyStore}
use microsoft_agt_rust.Rings.Escalation
use microsoft_agt_rust.Rings.Escalation.{
  EscalationManager, EscalationRequest, Sinks, Clocks, pending_requests,
}
use microsoft_agt_rust.Discovery
use microsoft_agt_rust.Discovery.{
  DiscoveryManager, DiscoveredAgent, Seen, active, detect_shadow_agents,
}
use microsoft_agt_rust.Clients.Keys.{AttestedKeyResponse}
use microsoft_agt_rust.Daemon.Auth.{parse_did}
use microsoft_agt_rust.Daemon.Http.{HttpError}

-- A store's error, which is answered with 500.
abbrev pub internal {ℓ} : {A : Type ℓ} → Result String A → Result HttpError A
internal r = map_err (λ e. (500, e)) r

abbrev ok_200 : Result String (Unit {0}) → Result HttpError ℕ
ok_200 r = internal r >>= λ _. ok 200

-- `register_agent`, with the registry's `register`.
pub register_agent :
    {S : Type 0}
    → (AgentIdentity → PrivilegeRing → S → Result String (Unit {0}) × S)
    → AgentIdentity
    → PrivilegeRing
    → S × DiscoveryManager
    → Result HttpError ℕ × S × DiscoveryManager
register_agent register identity ring (registry, m) =
    let (written, registry') = register identity ring registry in
    elim written [
      | err e ↦ (err (500, e), registry', m)
      | ok _ ↦ (ok 201, registry', Discovery.register_agent (AgentId.display identity.did) m)
    ]

pub get_attestation : AgentRegistry → String → Result HttpError (Option SignedAttestation)
get_attestation registry did = internal (registry.get_attestation did)

pub get_ring : AgentRegistry → String → Result HttpError (Option PrivilegeRing)
get_ring registry did = internal (registry.get_ring did)

module _ {S : Type 0} (store : PolicyStore S) where
  pub get_policy : String → S → Result HttpError (Option McpPolicy)
  get_policy did s = internal (store.load_policy did s)

  pub save_policy : String → McpPolicy → S → Result HttpError ℕ × S
  save_policy did policy s = let (saved, s') = store.save_policy did policy s in (ok_200 saved, s')

module _ {S : Type 0} (p : Platform) (keys : KeyStore S) where
  -- The answer for a key that is there or not.
  pub answer_key : SignedAttestation → Option (List ℕ) → Option AttestedKeyResponse
  answer_key attestation none = none
  answer_key attestation (some k) =
      some (record { key_b64 = p.encode k; attestation = attestation })

  pub get_key : AgentRegistry → String → S → Result HttpError (Option AttestedKeyResponse)
  unfolding answer_key
  get_key registry did s = do
    key ← internal (keys.load_key did s)
    found ← internal (registry.get_attestation did)
    attestation ← ok_or (404, "Agent not in registry") found
    ok (answer_key attestation key)

  -- The key that a body carries.
  pub key_of : String → Result HttpError (List ℕ)
  key_of key_b64 = do
    bytes ← map_err (λ _. (400, "Invalid Base64")) (p.decode key_b64)
    ensure (length bytes == 32) (400, "Invalid key length")
    ok bytes

  pub save_key : String → String → S → Result HttpError ℕ × S
  unfolding key_of
  save_key did key_b64 s = elim (key_of key_b64) [
    | err e ↦ (err e, s)
    | ok key ↦ let (saved, s') = keys.save_key did key s in (ok_200 saved, s')
  ]

abbrev pub list_pending : EscalationManager → List (String × EscalationRequest)
list_pending m = pending_requests m

-- `approve_escalation` of the request in the path, by the approver in the body.
pub approve_escalation :
    Platform
    → Clocks
    → Sinks
    → AgentRegistry
    → String
    → String
    → String
    → EscalationManager
    → Result HttpError ℕ × EscalationManager
approve_escalation p t sinks registry id approver_did signature_b64 m =
    elim (p.decode signature_b64) [
      | err e ↦ (err (400, e), m)
      | ok signature ↦
          let (event, m') = Escalation.approve p t sinks id approver_did signature registry m in
          ((map_err (λ e. (403, e)) event >>= λ _. ok 200), m')
    ]

-- `report_presence` of the agent in the header, from the peer's address.
pub report_presence :
    Seen
    → Option String
    → String
    → String
    → DiscoveryManager
    → Result HttpError ℕ × DiscoveryManager
report_presence seen did_header name addr m =
    let checked = (do
      did_str ← ok_or (401, "Missing X-AGT-Agent-DID") did_header
      map_err (λ e. (400, e)) (parse_did did_str)) in
    elim checked [
      | err e ↦ (err e, m)
      | ok did ↦ (ok 200, Discovery.report_presence seen did name addr active m)
    ]

pub list_shadows :
    AgentRegistry → Option String → DiscoveryManager → Result HttpError (List DiscoveredAgent)
list_shadows registry did_header m = do
  did ← ok_or (401, "Missing X-AGT-Agent-DID") did_header
  found ← internal (registry.get_ring did)
  ring ← ok_or (401, "Not registered") found
  ensure (ring_eq ring system) (403, "Only System-ring agents can query shadows")
  ok (detect_shadow_agents m)
