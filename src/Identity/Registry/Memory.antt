-- ===== src/Identity/Registry/Memory.antt =====
-- The registry in memory: what a registration makes visible.
use microsoft_agt_rust.Prelude.{
  ℕ, ◌+◌, ◌≡◌, refl, true, String, some, arith, if◌then◌else◌, str_eq, eq_iff, leb,
}
use microsoft_agt_rust.Prelude.Result.{ok, err}
use microsoft_agt_rust.Prelude.Map.{get-insert}
use microsoft_agt_rust.Platform.{Platform, PlatformLaws}
use microsoft_agt_rust.Identity.Ring.{PrivilegeRing}
use microsoft_agt_rust.Identity.AgentId
use microsoft_agt_rust.Identity.AgentId.{AgentIdentity}
use microsoft_agt_rust.Identity.Attestation.{SignedAttestation, expired, verify}
use microsoft_agt_rust.Identity.Attestation.Verify.{verify-attest}
use microsoft_agt_rust.Identity.Registry.{
  MemoryAgentRegistry, register, issue, get_attestation, get_ring, is_registered, day,
}

-- After a registration the registered DID has the ring given, and every other DID the ring that it
-- had; so too for `is_registered`.
pub get_ring-register :
    (id : AgentIdentity) (ring : PrivilegeRing) (m : MemoryAgentRegistry) (did : String)
    → (get_ring (register id ring m) did
        ≡ (if str_eq (AgentId.display id.did) did then ok (some ring) else get_ring m did))
      × (is_registered (register id ring m) did
          ≡ (if str_eq (AgentId.display id.did) did then ok true else is_registered m did))
unfolding get_ring register is_registered
get_ring-register id ring m did =
    ground (arith, get-insert m.entries (AgentId.display id.did) (id.public_key, ring) did)

-- The attestation of a registered DID names that DID and its registered key, and verifies under the
-- registry's own public key for 24 hours from its issue; afterwards it is refused as expired.
pub get_attestation-register :
    (p : Platform)
    → PlatformLaws p
    → (now later at : ℕ) (id : AgentIdentity) (ring : PrivilegeRing) (m : MemoryAgentRegistry)
    → (a : SignedAttestation) × (get_attestation p now later
          (register id ring m)
          (AgentId.display id.did)
        ≡ ok (some a))
      × (a.claim.subject_did ≡ AgentId.display id.did)
      × (a.claim.public_key_b64 ≡ id.public_key)
      × (verify p at a (p.encode (p.public_key m.registry_identity))
          ≡ (if leb at (later + day) then ok tt else err expired))
unfolding get_attestation register issue
get_attestation-register p laws now later at id ring m =
    let did = AgentId.display id.did in
    (
      issue p now later m did id.public_key,
      ground (arith, get-insert m.entries did (id.public_key, ring) did, eq_iff did did),
      refl,
      refl,
      verify-attest p laws at m.registry_identity m.registry_did _,
    )
