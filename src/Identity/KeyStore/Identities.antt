-- ===== src/Identity/KeyStore/Identities.antt =====
-- An identity that is created over a key store, printed and loaded again.
use microsoft_agt_rust.Prelude.{ℕ, ◌≡◌, String, Option, none, some, List, arith, str_eq_self}
use microsoft_agt_rust.Prelude.Result.{Result, ok}
use microsoft_agt_rust.Prelude.Map.{get-insert}
use microsoft_agt_rust.Platform.{Platform}
use microsoft_agt_rust.Identity.AgentId
use microsoft_agt_rust.Identity.AgentId.{AgentIdentity}
use microsoft_agt_rust.Identity.KeyStore.{
  MemoryKeyStore, as_trait, save_key, load_key, create_in, load,
}

-- An identity that is created over the key store in memory, and read from JSON that has everything but
-- its private key, is loaded as it was created, private key included.
pub load-create_in :
    (p : Platform) (from_str : String → Result String AgentIdentity) (json name sponsor : String)
    (bytes : List ℕ) (capabilities : List String) (organization : Option String)
    (s : MemoryKeyStore) (id : AgentIdentity)
    → (create_in p as_trait bytes name sponsor capabilities organization s).0 ≡ ok id
    → from_str json ≡ ok (record id { private_key = none })
    → load p as_trait from_str json
        (create_in p as_trait bytes name sponsor capabilities organization s).1
      ≡ ok id
unfolding create_in load as_trait save_key load_key AgentId.create
load-create_in p from_str json name sponsor bytes capabilities organization s id made read =
    let did = AgentId.display (AgentId.new p name organization) in
    let same : id ≡ record {
      did = AgentId.new p name organization;
      name = name;
      public_key = p.encode (p.public_key bytes);
      sponsor_email = sponsor;
      capabilities = capabilities;
      status = "active";
      parent_did = none;
      delegation_depth = 0;
      private_key = some bytes;
    } =
      ground (arith, made) in
    ground (arith, read, same, get-insert s.keys did bytes did, str_eq_self did)
