-- ===== src/Daemon/Http/Routes/Keys.antt =====
-- A key that is saved on the server, and fetched by the HTTP key store.
use microsoft_agt_rust.Prelude.{
  ℕ, ◌≡◌, ◌≤◌, ◌+◌, ◌∙◌, refl, String, some, List, length, arith, str_eq_self,
}
use microsoft_agt_rust.Prelude.Result.{ok}
use microsoft_agt_rust.Prelude.Map
use microsoft_agt_rust.Platform.{Platform, PlatformLaws}
use microsoft_agt_rust.Identity.Ring.{PrivilegeRing}
use microsoft_agt_rust.Identity.AgentId
use microsoft_agt_rust.Identity.AgentId.{AgentIdentity}
use microsoft_agt_rust.Identity.Attestation.{SignedAttestation, verify}
use microsoft_agt_rust.Identity.Registry
use microsoft_agt_rust.Identity.Registry.{AgentRegistry, MemoryAgentRegistry, register, day}
use microsoft_agt_rust.Identity.Registry.Memory.{get_attestation-register}
use microsoft_agt_rust.Identity.KeyStore
use microsoft_agt_rust.Identity.KeyStore.{MemoryKeyStore}
use microsoft_agt_rust.Clients.Keys.{AttestedKeyResponse, accept_key}
use microsoft_agt_rust.Clients.Keys.Attested.{accept_key-signed}
use microsoft_agt_rust.Daemon.Http.Routes.{get_key, save_key, answer_key, key_of}

module _ (p : Platform) (laws : PlatformLaws p) (key : List ℕ) (did : String)
    (s : MemoryKeyStore) where
  save_key-encode :
      length key ≡ 32
      → save_key p KeyStore.as_trait did (p.encode key) s ≡ (ok 200, KeyStore.save_key did key s)
  unfolding save_key key_of KeyStore.as_trait
  save_key-encode long = rw (save_key, key_of, laws.decode-encode key, long) refl

  get_key-eq :
      (registry : AgentRegistry) (a : SignedAttestation)
      → registry.get_attestation did ≡ ok (some a)
      → get_key p KeyStore.as_trait registry did (KeyStore.save_key did key s)
        ≡ ok (some (record { key_b64 = p.encode key; attestation = a }))
  unfolding get_key answer_key KeyStore.as_trait KeyStore.save_key KeyStore.load_key
  get_key-eq registry a attested =
      let stored : Map.get (Map.insert s.keys did key) did ≡ some key =
        ground (arith, Map.get-insert s.keys did key did, str_eq_self did) in
      rw (get_key, stored, attested) refl

-- Where the key store and the registry are those in memory: a key that is saved through `save_key`
-- for the DID of an agent that is registered under its public key, `get_key` gives back with an
-- attestation, and the HTTP key store accepts that answer as this key until 24 hours after the
-- attestation's issue.
pub accept_key-get_key :
    (p : Platform)
    → PlatformLaws p
    → (now later at : ℕ) (key : List ℕ) (id : AgentIdentity) (ring : PrivilegeRing)
      (m : MemoryAgentRegistry) (s : MemoryKeyStore)
    → length key ≡ 32
    → id.public_key ≡ p.encode (p.public_key key)
    → at ≤ later + day
    → let did = AgentId.display id.did in
      let (answer, s') = save_key p KeyStore.as_trait did (p.encode key) s in
      (answer ≡ ok 200)
      × ((res : AttestedKeyResponse) × (get_key p KeyStore.as_trait
              (Registry.as_trait p now later (register id ring m))
              did
              s'
            ≡ ok (some res))
          × (accept_key p at (p.encode (p.public_key m.registry_identity)) res ≡ ok key))
unfolding Registry.as_trait
accept_key-get_key p laws now later at key id ring m s long holds fresh =
    let did = AgentId.display id.did in
    let (a, found, _, subject_key, verified) =
      get_attestation-register p laws now later at id ring m in
    let saves = save_key-encode p laws key did s long in
    let registry = Registry.as_trait p now later (register id ring m) in
    let verifies : verify p at a (p.encode (p.public_key m.registry_identity)) ≡ ok tt =
      ground (arith, verified, fresh) in
    let accepts =
      accept_key-signed p laws at (p.encode (p.public_key m.registry_identity)) key a long
        (subject_key ∙ holds) verifies in
    rw saves (refl, (_, get_key-eq p laws key did s registry a found, accepts))
