-- ===== src/Grpc/Agents/Register.antt =====
-- Who can register agents.
use microsoft_agt_rust.Prelude.{◌≡◌, refl, true, String, none, some, arith, str_eq_self}
use microsoft_agt_rust.Prelude.Result.{ok}
use microsoft_agt_rust.Platform.{Platform}
use microsoft_agt_rust.Identity.Ring.{PrivilegeRing}
use microsoft_agt_rust.Identity.AgentId
use microsoft_agt_rust.Identity.AgentId.{AgentIdentity}
use microsoft_agt_rust.Identity.Registry
use microsoft_agt_rust.Identity.Registry.{MemoryAgentRegistry, get_ring}
use microsoft_agt_rust.Identity.Registry.Memory.{get_ring-register}
use microsoft_agt_rust.Grpc.Proto.{RegisterRequest, Prost}
use microsoft_agt_rust.Grpc.Convert.{to_proto_identity, to_proto_ring}
use microsoft_agt_rust.Grpc.Convert.RoundTrips.{
  from_proto_ring-to_proto_ring, from_proto_identity-to_proto_identity,
}
use microsoft_agt_rust.Grpc.Call.{Call, authenticate}
use microsoft_agt_rust.Grpc.Agents.{Register, register, requested}

-- The registry in memory as the service writes it.
abbrev pub in_memory : Register MemoryAgentRegistry
in_memory id ring m = (ok tt, Registry.register id ring m)

-- The message that asks to register an identity in a ring.
abbrev pub asks : AgentIdentity → PrivilegeRing → RegisterRequest
asks id ring = record { identity = some (to_proto_identity id ring); ring = to_proto_ring ring }

-- Where the registry is the one in memory: any authentic call, of whichever agent, registers any
-- identity in the ring that it asks for: the answer is success, and the registry then gives that
-- ring for the identity's DID.
pub register_by_anyone :
    (p : Platform) (x : Prost) (registry_pubkey : String) (call : Call) (caller : String)
    (id : AgentIdentity) (ring : PrivilegeRing) (m : MemoryAgentRegistry)
    → authenticate p registry_pubkey call (x.register_request (asks id ring)) ≡ ok caller
    → let (answer, m') = register p x registry_pubkey call in_memory (asks id ring) m in
      (answer ≡ ok true) × (get_ring m' (AgentId.display id.did) ≡ ok (some ring))
unfolding register requested
register_by_anyone p x registry_pubkey call caller id ring m passes =
    let read = from_proto_ring-to_proto_ring ring in
    let made = from_proto_identity-to_proto_identity id ring in
    let kept = record id {
      status = "active";
      parent_did = none;
      delegation_depth = 0;
      private_key = none;
    } in
    let known = (get_ring-register kept ring m (AgentId.display id.did)).0 in
    rw (register, requested, passes, made, read)
      (refl, ground (arith, known, str_eq_self (AgentId.display id.did)))
