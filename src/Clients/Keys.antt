-- ===== src/Clients/Keys.antt =====
-- `HttpKeyStore` of crates/core/mesh/src/identity/keystore_http.rs.
pub mod Attested
mod Tests
use Prim.Native.String.{◌++◌}
use microsoft_agt_rust.Prelude.{
  ℕ, ◌==◌, Bool, String, Option, none, some, List, [], length, str_eq, if◌then◌else◌,
}
use microsoft_agt_rust.Prelude.Result.{Result, ok, err, map_err, ensure, ◌>>=◌, ◌>>◌}
use microsoft_agt_rust.Platform.{Platform}
use microsoft_agt_rust.Identity.Attestation
use microsoft_agt_rust.Identity.Attestation.{SignedAttestation, verify}
use microsoft_agt_rust.Clients.{Network, Client, http_get, http_post, signed, fetch, post}

pub record AttestedKeyResponse : Type 0 where
  pub key_b64 : String
  pub attestation : SignedAttestation

-- serde's JSON of a text, and how an answer is read.
pub record KeyJson : Type 0 where
  pub text_json : String → List ℕ
  pub read_key : List ℕ → Result String (Option AttestedKeyResponse)

abbrev pub key_mismatch : String
key_mismatch = "Key mismatch: private key does not match attested public key"

module _ (p : Platform) where
  -- The checks on the answer to `load_key`.
  pub accept_key : ℕ → String → AttestedKeyResponse → Result String (List ℕ)
  accept_key now registry_pubkey res = do
    map_err (λ e. "Registry attestation verification failed: " ++ Attestation.display e)
        (verify p now res.attestation registry_pubkey)
    bytes ← p.decode res.key_b64
    ensure (length bytes == 32) "Invalid key length"
    ensure (str_eq (p.encode (p.public_key bytes)) res.attestation.claim.public_key_b64)
        key_mismatch
    ok bytes

  module _ (n : Network) (j : KeyJson) where
    -- save_key
    pub save_key : String → List ℕ → Client → Result String (Unit {0})
    save_key agent_did key c =
        post n "Failed to save key: "
          (signed p c http_post ("/v1/agents/" ++ agent_did ++ "/key") (j.text_json (p.encode key)))

    -- The key of an answer.
    pub answered : ℕ → String → Option (List ℕ) → Result String (Option (List ℕ))
    answered now registry_pubkey none = ok none
    answered now registry_pubkey (some body) = do
      res ← j.read_key body
      elim res [
        | none ↦ ok none
        | some r ↦ accept_key now registry_pubkey r >>= λ key. ok (some key)
      ]

    -- load_key
    pub load_key : ℕ → String → Client → Result String (Option (List ℕ))
    load_key now agent_did c = do
      body ←
          fetch n "Registry error: " (signed p c http_get ("/v1/agents/" ++ agent_did ++ "/key") [])
      answered now c.registry_pubkey body

    -- delete_key
    pub delete_key : String → Client → Result String (Unit {0})
    delete_key _ c = err "Delete not implemented in HttpKeyStore v1"
