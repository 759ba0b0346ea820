-- ===== src/Grpc/Agents.antt =====
-- `RegistryServiceImpl` of crates/daemon/src/grpc/registry.rs. The call `watch_presence`, which only
-- answers that it is not implemented, is left out.
pub mod Register
mod Tests
use microsoft_agt_rust.Prelude.{Bool, true, String, Option, none, some, List, ℕ}
use microsoft_agt_rust.Prelude.Result.{Result, ok, err, map_err, ok_or, ◌>>=◌}
use microsoft_agt_rust.Platform.{Platform}
use microsoft_agt_rust.Identity.Ring.{PrivilegeRing}
use microsoft_agt_rust.Identity.AgentId.{AgentIdentity}
use microsoft_agt_rust.Grpc.Proto.{
  Status, status, invalid_argument, internal, not_found, ProtoAttestation, RegisterRequest, Prost,
}
use microsoft_agt_rust.Grpc.Convert.{
  Chrono, from_proto_identity, from_proto_ring, to_proto_attestation,
}
use microsoft_agt_rust.Grpc.Call.{Call, authenticate}

-- `AgentRegistry::register` over the registry's state.
abbrev pub Register : Type 0 → Type 0
Register S = AgentIdentity → PrivilegeRing → S → Result String (Unit {0}) × S

module _ (p : Platform) (x : Prost) (registry_pubkey : String) (call : Call) where
  -- What `register` is asked to write.
  pub requested : RegisterRequest → Result Status (AgentIdentity × PrivilegeRing)
  requested inner = do
    _ ← authenticate p registry_pubkey call (x.register_request inner)
    proto_identity ← ok_or (status invalid_argument "Missing identity") inner.identity
    identity ← from_proto_identity proto_identity
    ring ← from_proto_ring inner.ring
    ok (identity, ring)

  -- register
  pub register : {S : Type 0} → Register S → RegisterRequest → S → Result Status Bool × S
  unfolding requested
  register write inner s = elim (requested inner) [
    | err e ↦ (err e, s)
    | ok (identity, ring) ↦
        let (written, s') = write identity ring s in
        ((map_err (status internal) written >>= λ _. ok true), s')
  ]

  -- `get_attestation` of the DID in the message.
  pub get_attestation : Chrono → String → Result Status ProtoAttestation
  get_attestation c did = do
    _ ← authenticate p registry_pubkey call (x.get_attestation_request did)
    found ← map_err (status internal) (call.later.get_attestation did)
    attestation ← ok_or (status not_found "Attestation not found") found
    ok (to_proto_attestation c attestation)
