-- ===== src/Identity/AgentId/Signatures.antt =====
-- Signing and verifying with an identity.
use microsoft_agt_rust.Prelude.{ℕ, ◌≡◌, ◌≢◌, refl, true, String, Option, some, List, length, arith}
use microsoft_agt_rust.Prelude.Result.{Result, ok}
use microsoft_agt_rust.Platform.{Platform, PlatformLaws}
use microsoft_agt_rust.Identity.AgentId.{
  AgentIdentity, create, sign, verify_key, verify_signature, rotate_keys, check_point, zeros,
}

module _ (p : Platform) (laws : PlatformLaws p) where
  pub verify_key-sign :
      (k message : List ℕ)
      → verify_key p (p.encode (p.public_key k)) message (p.sign k message) ≡ true
  unfolding verify_key check_point
  verify_key-sign k message = ground (
    arith,
    laws.decode-encode (p.public_key k),
    laws.length-public_key k,
    laws.point-public_key k,
    laws.length-sign k message,
    laws.verify-sign k message,
  )

  -- After a key rotation with fresh bytes, whatever the identity was before, it signs every message
  -- with the new key, its own public key verifies that signature, and nothing else of it has changed.
  pub rotate_keys-sign :
      (bytes message : List ℕ) (id : AgentIdentity)
      → let id' = rotate_keys p bytes id in
        (sign p id' message ≡ some (p.sign bytes message))
        × (verify_signature p id' message (p.sign bytes message) ≡ true)
        × (record id' { public_key = id.public_key; private_key = id.private_key } ≡ id)
  unfolding rotate_keys sign
  rotate_keys-sign bytes message id = (refl, verify_key-sign bytes message, refl)

  -- An identity that `create` returns signs every message so that its own public key verifies it.
  pub create-sign :
      (bytes message : List ℕ) (name sponsor : String) (capabilities : List String)
      (organization : Option String)
      (keystore : Option (String → List ℕ → Result String (Unit {0}))) (id : AgentIdentity)
      → create p bytes name sponsor capabilities organization keystore ≡ ok id
      → (sign p id message ≡ some (p.sign bytes message))
        × (verify_signature p id message (p.sign bytes message) ≡ true)
  unfolding create sign
  create-sign bytes message name sponsor capabilities organization keystore id e =
      ground (arith, verify_key-sign bytes message)

-- A public key that does not decode to 32 bytes is not refused: signatures are verified against the
-- all-zero key in its place.
pub verify_key-zeros :
    (p : Platform) (key : String) (b message signature : List ℕ)
    → p.decode key ≡ ok b
    → length b ≢ 32
    → (p.point (zeros 32) ≡ ok tt)
    → length signature ≡ 64
    → verify_key p key message signature ≡ p.verify (zeros 32) message signature
unfolding verify_key check_point
verify_key-zeros p key b message signature d h q l = ground arith
