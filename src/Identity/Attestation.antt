-- ===== src/Identity/Attestation.antt =====
-- crates/core/mesh/src/identity/attestation.rs. Times are nanoseconds of one UTC clock; `Utc::now()`
-- is the argument `now`.
pub mod Verify
use Prim.Native.String.{◌++◌}
use microsoft_agt_rust.Prelude.{
  ℕ, ◌==◌, Bool, not, String, List, [], ◌∷◌, length, ltb, if◌then◌else◌,
}
use microsoft_agt_rust.Prelude.Result.{Result, ok, err, map_err, ensure, ◌>>=◌, ◌>>◌}
use microsoft_agt_rust.Platform.{Platform}

pub data AttestationError : Type 0 where
  invalid_signature expired : AttestationError
  serialization invalid_public_key : String → AttestationError

-- The `#[error]` texts.
unfoldable pub display : AttestationError → String
display invalid_signature = "Invalid signature"
display expired = "Attestation expired"
display (serialization e) = "Serialization error: " ++ e
display (invalid_public_key e) = "Invalid public key: " ++ e

pub record AttestationClaim : Type 0 where
  pub subject_did : String
  pub public_key_b64 : String
  pub issued_at : ℕ
  pub expires_at : ℕ

pub record SignedAttestation : Type 0 where
  pub claim : AttestationClaim
  pub registry_did : String
  pub signature_b64 : String

-- `!(expires_at < now)`
abbrev pub not_before : ℕ → ℕ → Bool
not_before now expires_at = not (ltb expires_at now)

module _ (p : Platform) where
  unfoldable pub canonical_bytes : AttestationClaim → List ℕ
  canonical_bytes c = p.claim_json c.subject_did c.public_key_b64 c.issued_at c.expires_at

  -- SignedAttestation::verify
  unfoldable pub verify : ℕ → SignedAttestation → String → Result AttestationError (Unit {0})
  verify now a registry_pubkey = do
    ensure (not_before now a.claim.expires_at) expired
    key ← map_err invalid_public_key (p.decode registry_pubkey)
    ensure (length key == 32) (invalid_public_key "Wrong length")
    map_err invalid_public_key (p.point key)
    signature ← map_err (λ _. invalid_signature) (p.decode a.signature_b64)
    ensure (length signature == 64) invalid_signature
    ensure (p.verify key (canonical_bytes a.claim) signature) invalid_signature

  -- The signature that a registry with the signing key `k` puts under a claim.
  abbrev pub attest : List ℕ → String → AttestationClaim → SignedAttestation
  attest k registry_did claim = record {
    claim = claim;
    registry_did = registry_did;
    signature_b64 = p.encode (p.sign k (canonical_bytes claim));
  }
