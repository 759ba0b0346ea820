-- ===== src/Fixtures/Agents.antt =====
-- An agent with the signing key `key`, and a registry that answers every DID with its attestation.
use microsoft_agt_rust.Prelude.{◌≡◌, true, String, none, some, List, [], ◌∷◌, ℕ}
use microsoft_agt_rust.Prelude.Result.{ok}
use microsoft_agt_rust.Platform.Toy.{toy, toy_laws}
use microsoft_agt_rust.Identity.Ring.{system}
use microsoft_agt_rust.Identity.AgentId.{AgentIdentity, verify_key}
use microsoft_agt_rust.Identity.AgentId.Signatures.{verify_key-sign}
use microsoft_agt_rust.Identity.Attestation.{AttestationClaim, SignedAttestation, attest}
use microsoft_agt_rust.Identity.Attestation.Verify.{IsGenuine, verify_iff, verify-attest}
use microsoft_agt_rust.Identity.Registry
use microsoft_agt_rust.Identity.Registry.{AgentRegistry, MemoryAgentRegistry}

abbrev pub key : List ℕ
key = 7 ∷ 9 ∷ []

abbrev pub registry_key : String
registry_key = toy.encode (toy.public_key (3 ∷ []))

abbrev pub agent_a : AgentIdentity
agent_a = record {
  did = record { method = "mesh"; unique_id = "a1" };
  name = "a";
  public_key = toy.encode (toy.public_key key);
  sponsor_email = "a@mesh";
  capabilities = [];
  status = "active";
  parent_did = none;
  delegation_depth = 0;
  private_key = some key;
}

abbrev claim : AttestationClaim
claim = record {
  subject_did = "did:mesh:a1";
  public_key_b64 = toy.encode (toy.public_key key);
  issued_at = 10;
  expires_at = 20;
}

abbrev pub attestation : SignedAttestation
attestation = attest toy (3 ∷ []) "did:mesh:registry" claim

abbrev pub all_a : AgentRegistry
all_a = record {
  get_attestation = λ did. ok (some attestation);
  get_ring = λ did. ok (some system);
}

abbrev pub empty_memory : MemoryAgentRegistry
empty_memory = Registry.new (3 ∷ []) "did:mesh:registry"

pub attestation-IsGenuine : IsGenuine toy 15 attestation registry_key
attestation-IsGenuine =
    (verify_iff toy 15 attestation registry_key).0
      (verify-attest toy toy_laws 15 (3 ∷ []) "did:mesh:registry" claim)

pub signed_by_a :
    (body : List ℕ)
    → verify_key toy attestation.claim.public_key_b64 body (toy.sign key body) ≡ true
signed_by_a body = verify_key-sign toy toy_laws key body
