-- ===== src/Identity/Tests.antt =====
-- Tests of the identity modules, and their theorems at concrete identities.
use microsoft_agt_rust.Prelude.{refl, none, some, [], ◌∷◌}
use microsoft_agt_rust.Platform.Toy.{toy}
use microsoft_agt_rust.Identity.Ring.{system, trusted}
use microsoft_agt_rust.Identity.AgentId.{AgentIdentity}
use microsoft_agt_rust.Identity.Registry
use microsoft_agt_rust.Identity.Registry.{
  MemoryAgentRegistry, FileAgentRegistry, register, get_attestation, get_ring, open_, register_file,
}
use microsoft_agt_rust.Identity.Registry.File.{IsPersisted, register_all, register_all-IsPersisted}
use microsoft_agt_rust.Fixtures.Registry.{plain_records, plain_record_laws}

abbrev pub admin : AgentIdentity
admin = record {
  did = record { method = "mesh"; unique_id = "a1" };
  name = "admin";
  public_key = toy.encode (toy.public_key (7 ∷ 9 ∷ []));
  sponsor_email = "admin@mesh";
  capabilities = "compute" ∷ [];
  status = "active";
  parent_did = none;
  delegation_depth = 0;
  private_key = some (7 ∷ 9 ∷ []);
}

abbrev pub registry : MemoryAgentRegistry
registry = Registry.new (3 ∷ []) "did:mesh:registry"

abbrev no_file : FileAgentRegistry
no_file = record { path = []; memory = registry }

no_file-IsPersisted : IsPersisted plain_records no_file
unfolding open_
no_file-IsPersisted = refl

register_all-IsPersisted_example :
    IsPersisted plain_records
      (register_all plain_records ((admin, system) ∷ (admin, trusted) ∷ []) no_file)
register_all-IsPersisted_example =
    register_all-IsPersisted plain_records plain_record_laws
      ((admin, system) ∷ (admin, trusted) ∷ []) no_file no_file-IsPersisted
