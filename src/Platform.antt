-- ===== src/Platform.antt =====
-- What the program takes from its dependencies: base64 (`general_purpose::STANDARD`), ed25519-dalek,
-- SHA-256 in hexadecimal, and the JSON that serde writes of an attestation's claim. Bytes are a list
-- of numbers; a signing key and a verifying key are their bytes.
pub mod Toy
use microsoft_agt_rust.Prelude.{ℕ, ◌≡◌, Bool, true, String, List, length}
use microsoft_agt_rust.Prelude.Text.{IsVisible}
use microsoft_agt_rust.Prelude.Result.{Result, ok}

pub record Platform : Type 0 where
  pub encode : List ℕ → String
  pub decode : String → Result String (List ℕ)
  -- `SigningKey::from_bytes(k).verifying_key().to_bytes()`
  pub public_key : List ℕ → List ℕ
  -- `VerifyingKey::from_bytes`, with the text of its error
  pub point : List ℕ → Result String (Unit {0})
  -- `key.sign(data).to_bytes()`
  pub sign : List ℕ → List ℕ → List ℕ
  -- `key.verify(data, &signature).is_ok()`
  pub verify : List ℕ → List ℕ → List ℕ → Bool
  pub sha256_hex : List ℕ → String
  -- `serde_json::to_vec(claim)`: subject, key, time of issue, time of expiry
  pub claim_json : String → String → ℕ → ℕ → List ℕ

-- The documented behaviour that the round trips rest on.
pub record PlatformLaws (p : Platform) : Type 0 where
  pub decode-encode : (b : List ℕ) → p.decode (p.encode b) ≡ ok b
  pub length-public_key : (k : List ℕ) → length (p.public_key k) ≡ 32
  pub point-public_key : (k : List ℕ) → p.point (p.public_key k) ≡ ok tt
  pub length-sign : (k d : List ℕ) → length (p.sign k d) ≡ 64
  -- the alphabet of base64 is visible ASCII
  pub encode-IsVisible : (b : List ℕ) → IsVisible (p.encode b)
  pub verify-sign : (k d : List ℕ) → p.verify (p.public_key k) d (p.sign k d) ≡ true
