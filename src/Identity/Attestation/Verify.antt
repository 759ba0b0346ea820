-- ===== src/Identity/Attestation/Verify.antt =====
-- When an attestation verifies.
use microsoft_agt_rust.Prelude.{
  ℕ, ◌≤◌, ◌≡◌, ◌↔◌, inl, inr, true, String, List, length, arith, leb, if◌then◌else◌,
}
use microsoft_agt_rust.Prelude.Result.{ok, err, Result-cases}
use microsoft_agt_rust.Platform.{Platform, PlatformLaws}
use microsoft_agt_rust.Identity.Attestation.{
  expired, AttestationClaim, SignedAttestation, canonical_bytes, verify, attest,
}

-- What stands behind a verified attestation: it has not expired, and the registry's key, 32 bytes that
-- are a point of the curve, verifies the 64 bytes of the signature over the claim.
pub record IsGenuine (p : Platform) (now : ℕ) (a : SignedAttestation) (pubkey : String)
    : Type 0 where
  pub key : List ℕ
  pub signature : List ℕ
  pub in_time : now ≤ a.claim.expires_at
  pub key_decodes : p.decode pubkey ≡ ok key
  pub key_length : length key ≡ 32
  pub key_point : p.point key ≡ ok tt
  pub signature_decodes : p.decode a.signature_b64 ≡ ok signature
  pub signature_length : length signature ≡ 64
  pub verifies : p.verify key (canonical_bytes p a.claim) signature ≡ true

module _ (p : Platform) (now : ℕ) (a : SignedAttestation) (pubkey : String) where
  verify_sound : verify p now a pubkey ≡ ok tt → IsGenuine p now a pubkey
  unfolding verify
  verify_sound e = elim (Result-cases (p.decode pubkey)) [
    | inr (_, bad) ↦ absurd (ground (arith, bad))
    | inl (key, d) ↦ elim (Result-cases (p.decode a.signature_b64)) [
      | inr (_, bad) ↦ absurd (ground (arith, bad, d))
      | inl (signature, s) ↦ record {
        key = key;
        signature = signature;
        in_time = ground (arith, d, s);
        key_decodes = d;
        key_length = ground (arith, d, s);
        key_point = ground (arith, d, s);
        signature_decodes = s;
        signature_length = ground (arith, d, s);
        verifies = ground (arith, d, s);
      }
    ]
  ]

  verify_complete : IsGenuine p now a pubkey → verify p now a pubkey ≡ ok tt
  unfolding verify
  verify_complete g = ground (arith, g.key_decodes, g.signature_decodes, g.key_point, g.verifies)

  -- An attestation passes `verify` exactly when it has not expired and the registry's public key, 32
  -- bytes that are a point of the curve, verifies the 64 bytes of its signature over its claim.
  pub verify_iff : (verify p now a pubkey ≡ ok tt) ↔ IsGenuine p now a pubkey
  verify_iff = (verify_sound, verify_complete)

-- What a registry signs with its key, `verify` accepts under the registry's public key until the claim
-- expires, and refuses as expired from then on.
pub verify-attest :
    (p : Platform)
    → PlatformLaws p
    → (now : ℕ) (k : List ℕ) (registry_did : String) (claim : AttestationClaim)
    → verify p now (attest p k registry_did claim) (p.encode (p.public_key k))
      ≡ (if leb now claim.expires_at then ok tt else err expired)
unfolding verify
verify-attest p laws now k registry_did claim = ground (
  arith,
  laws.decode-encode (p.public_key k),
  laws.decode-encode (p.sign k (canonical_bytes p claim)),
  laws.length-public_key k,
  laws.point-public_key k,
  laws.length-sign k (canonical_bytes p claim),
  laws.verify-sign k (canonical_bytes p claim),
)
