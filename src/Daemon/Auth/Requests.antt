-- ===== src/Daemon/Auth/Requests.antt =====
-- Which requests are authentic.
use microsoft_agt_rust.Prelude.{ℕ, ◌+◌, ◌≤◌, ◌≡◌, ◌↔◌, true, String, some, List, arith, inl, inr}
use microsoft_agt_rust.Prelude.Result.{ok, Result-cases, >>=-eq-ok, ok_or-eq-ok, ok_or}
use microsoft_agt_rust.Platform.{Platform, PlatformLaws}
use microsoft_agt_rust.Identity.Ring.{PrivilegeRing}
use microsoft_agt_rust.Identity.AgentId
use microsoft_agt_rust.Identity.AgentId.{AgentIdentity, verify_key}
use microsoft_agt_rust.Identity.AgentId.Signatures.{verify_key-sign}
use microsoft_agt_rust.Identity.Attestation.{SignedAttestation, verify}
use microsoft_agt_rust.Identity.Attestation.Verify.{IsGenuine, verify_iff}
use microsoft_agt_rust.Identity.Registry.{
  AgentRegistry, MemoryAgentRegistry, register, as_trait, day,
}
use microsoft_agt_rust.Identity.Registry.Memory.{get_attestation-register}
use microsoft_agt_rust.Daemon.Auth.{verify_request_signature, not_registered}

module _ (p : Platform) (now : ℕ) (did : String) (signature body : List ℕ)
    (registry : AgentRegistry) (pubkey : String) where
  -- What stands behind an authentic request.
  pub record IsAuthentic : Type 0 where
    pub attestation : SignedAttestation
    pub attested : registry.get_attestation did ≡ ok (some attestation)
    pub genuine : IsGenuine p now attestation pubkey
    pub signed : verify_key p attestation.claim.public_key_b64 body signature ≡ true

  request_sound :
      verify_request_signature p now did signature body registry pubkey ≡ ok tt → IsAuthentic
  unfolding verify_request_signature
  request_sound h =
      let (found, e₁, h₁) = >>=-eq-ok (registry.get_attestation did) _ h in
      let (a, e₂, h₂) = >>=-eq-ok (ok_or not_registered found) _ h₁ in
      elim (Result-cases (verify p now a pubkey)) [
        | inr (_, e) ↦ absurd (ground (arith, e, h₂))
        | inl (tt, e) ↦ record {
          attestation = a;
          attested = cc (e₁, ok_or-eq-ok _ found e₂);
          genuine = (verify_iff p now a pubkey).0 e;
          signed = ground (arith, e, h₂);
        }
      ]

  request_complete :
      IsAuthentic → verify_request_signature p now did signature body registry pubkey ≡ ok tt
  unfolding verify_request_signature
  request_complete g =
      ground (arith, g.attested, (verify_iff p now g.attestation pubkey).1 g.genuine, g.signed)

  -- A request passes exactly when the registry gives an attestation for its DID that is genuine, and
  -- the signature verifies under the attested key over the body.
  pub verify_request_signature_iff :
      (verify_request_signature p now did signature body registry pubkey ≡ ok tt) ↔ IsAuthentic
  verify_request_signature_iff = (request_sound, request_complete)

-- Once an agent is registered in memory under the public key of its signing key `k`, a request for its
-- DID that is signed with `k` passes, for every body, until 24 hours after the attestation's issue.
pub verify_request_signature-register :
    (p : Platform)
    → PlatformLaws p
    → (now later at : ℕ) (k body : List ℕ) (id : AgentIdentity) (ring : PrivilegeRing)
      (m : MemoryAgentRegistry)
    → id.public_key ≡ p.encode (p.public_key k)
    → at ≤ later + day
    → verify_request_signature p at
        (AgentId.display id.did)
        (p.sign k body)
        body
        (as_trait p now later (register id ring m))
        (p.encode (p.public_key m.registry_identity))
      ≡ ok tt
unfolding as_trait
verify_request_signature-register p laws now later at k body id ring m key fresh =
    let (a, found, _, subject_key, verified) =
      get_attestation-register p laws now later at id ring m in
    request_complete p at _ _ _ _ _ (record {
      attestation = a;
      attested = found;
      genuine = (verify_iff p at a _).0 (ground (arith, verified));
      signed = rw (subject_key, key) (verify_key-sign p laws k body);
    })
