-- ===== src/Clients/Registry/Tests.antt =====
-- Two lookups of an attestation.
use microsoft_agt_rust.Prelude.{◌≡◌, none, some, [], ◌∷◌, arith}
use microsoft_agt_rust.Prelude.Result.{ok}
use microsoft_agt_rust.Prelude.Map
use microsoft_agt_rust.Platform.Toy.{toy}
use microsoft_agt_rust.Identity.Attestation.Verify.{IsGenuine, verify_iff}
use microsoft_agt_rust.Fixtures.Agents.{key, registry_key, attestation, attestation-IsGenuine}
use microsoft_agt_rust.Clients.{Network, Client, fetch}
use microsoft_agt_rust.Clients.Registry.{
  RegistryJson, new, is_cache_fresh, admit, fetch_attestation, get_attestation,
}
use microsoft_agt_rust.Clients.Registry.Answers.{Lookup, run, run-new-IsGenuine}

abbrev server : Network
server = record {
  send = λ request. ok (record { status = 200; body = [] });
  show_status = λ status. "";
}

abbrev answers : RegistryJson
answers = record {
  register_json = λ identity ring. [];
  read_attestation = λ body. ok (some attestation);
  read_ring = λ body. ok none;
}

abbrev client : Client
client = record {
  base_url = "http://localhost:7700";
  registry_pubkey = registry_key;
  agent_did = "did:mesh:a1";
  signing_key = key;
}

abbrev lookup : Lookup
lookup = record {
  moment = record { checked_at = 15; jitter_secs = 4000; verified_at = 15 };
  network = server;
  did = "did:mesh:a1";
}

-- The first lookup fills the cache, but the attestation is too close to its expiry to be taken from it.
found :
    (get_attestation toy server answers lookup.moment "did:mesh:a1"
      (run toy answers (lookup ∷ []) (new client))).0
    ≡ ok (some attestation)
unfolding run get_attestation fetch_attestation admit fetch is_cache_fresh Map.get Map.insert
found = ground (arith, (verify_iff toy 15 attestation registry_key).1 attestation-IsGenuine)

run-new-IsGenuine_example : IsGenuine toy 15 attestation registry_key
run-new-IsGenuine_example =
    run-new-IsGenuine toy answers client (lookup ∷ []) lookup attestation (omega arith) found
