-- ===== src/Clients/Keys/Attested.antt =====
-- Which keys an HTTP key store hands out.
use microsoft_agt_rust.Prelude.{
  ℕ, ◌≡◌, String, Option, none, some, List, length, arith, inl, inr, eq_iff,
}
use microsoft_agt_rust.Prelude.Result.{ok, Result-cases, >>=-eq-ok}
use microsoft_agt_rust.Platform.{Platform, PlatformLaws}
use microsoft_agt_rust.Identity.Attestation.{SignedAttestation, verify}
use microsoft_agt_rust.Identity.Attestation.Verify.{IsGenuine, verify_iff}
use microsoft_agt_rust.Clients.{Network, Client, fetch}
use microsoft_agt_rust.Clients.Keys.{KeyJson, AttestedKeyResponse, accept_key, answered, load_key}

module _ (p : Platform) (now : ℕ) (pubkey : String) (key : List ℕ) where
  -- What stands behind a key that is handed out.
  pub record IsAttestedKey : Type 0 where
    pub attestation : SignedAttestation
    pub genuine : IsGenuine p now attestation pubkey
    pub key_length : length key ≡ 32
    pub matches : p.encode (p.public_key key) ≡ attestation.claim.public_key_b64

  accept_key-IsAttestedKey :
      (res : AttestedKeyResponse) → accept_key p now pubkey res ≡ ok key → IsAttestedKey
  unfolding accept_key
  accept_key-IsAttestedKey res h = elim (Result-cases (verify p now res.attestation pubkey)) [
    | inr (_, bad) ↦ absurd (ground (arith, bad, h))
    | inl (tt, good) ↦ elim (Result-cases (p.decode res.key_b64)) [
      | inr (_, bad) ↦ absurd (ground (arith, bad, good, h))
      | inl (bytes, d) ↦
          let same : bytes ≡ key = ground (arith, good, d, h) in
          record {
            attestation = res.attestation;
            genuine = (verify_iff p now res.attestation pubkey).0 good;
            key_length = ground (arith, good, d, h);
            matches =
                (eq_iff (p.encode (p.public_key key)) res.attestation.claim.public_key_b64).0
                  (ground (arith, good, d, h));
          }
    ]
  ]

module _ (p : Platform) (n : Network) (j : KeyJson) (now : ℕ) (pubkey : String) (key : List ℕ) where
  accepted-IsAttestedKey :
      (res : Option AttestedKeyResponse) (body : List ℕ)
      → j.read_key body ≡ ok res
      → answered p n j now pubkey (some body) ≡ ok (some key)
      → IsAttestedKey p now pubkey key
  unfolding answered
  accepted-IsAttestedKey none body e h = absurd (ground (arith, e, h))
  accepted-IsAttestedKey (some r) body e h =
      accept_key-IsAttestedKey p now pubkey key r (ground (arith, e, h))

  answered-IsAttestedKey :
      (body : Option (List ℕ))
      → answered p n j now pubkey body ≡ ok (some key)
      → IsAttestedKey p now pubkey key
  unfolding answered
  answered-IsAttestedKey none h = absurd (ground (arith, h))
  answered-IsAttestedKey (some body) h = elim (Result-cases (j.read_key body)) [
    | inr (_, e) ↦ absurd (ground (arith, e, h))
    | inl (res, e) ↦ accepted-IsAttestedKey res body e h
  ]

-- A key that `load_key` returns has 32 bytes, and its public key is the one that an attestation names
-- which the registry's public key verifies and which has not expired: whatever the server answers.
pub load_key-IsAttestedKey :
    (p : Platform) (n : Network) (j : KeyJson) (now : ℕ) (agent_did : String) (c : Client)
    (key : List ℕ)
    → load_key p n j now agent_did c ≡ ok (some key)
    → IsAttestedKey p now c.registry_pubkey key
unfolding load_key
load_key-IsAttestedKey p n j now agent_did c key h =
    let (body, _, h₁) = >>=-eq-ok (fetch n "Registry error: " _) _ h in
    answered-IsAttestedKey p n j now c.registry_pubkey key body h₁

-- The answer for a key whose public key is attested is accepted.
pub accept_key-signed :
    (p : Platform)
    → PlatformLaws p
    → (now : ℕ) (pubkey : String) (key : List ℕ) (a : SignedAttestation) → length key ≡ 32
    → a.claim.public_key_b64 ≡ p.encode (p.public_key key)
    → verify p now a pubkey ≡ ok tt
    → accept_key p now pubkey (record { key_b64 = p.encode key; attestation = a }) ≡ ok key
unfolding accept_key
accept_key-signed p laws now pubkey key a long holds good = ground (
  arith,
  good,
  laws.decode-encode key,
  eq_iff (p.encode (p.public_key key)) a.claim.public_key_b64,
)
