-- ===== src/Clients/Keys/Tests.antt =====
-- A key that is loaded from a server.
use microsoft_agt_rust.Prelude.{ℕ, ◌≡◌, refl, some, List, [], arith}
use microsoft_agt_rust.Prelude.Result.{ok}
use microsoft_agt_rust.Platform.Toy.{toy, toy_laws, toy_public}
use microsoft_agt_rust.Identity.Attestation.Verify.{verify_iff}
use microsoft_agt_rust.Fixtures.Agents.{key, registry_key, attestation, attestation-IsGenuine}
use microsoft_agt_rust.Clients.{Network, Client, fetch}
use microsoft_agt_rust.Clients.Keys.{KeyJson, load_key, answered}
use microsoft_agt_rust.Clients.Keys.Attested.{
  IsAttestedKey, accept_key-signed, load_key-IsAttestedKey,
}

-- A key of 32 bytes with the agent's public key.
abbrev long_key : List ℕ
long_key = toy.public_key key

abbrev server : Network
server = record {
  send = λ request. ok (record { status = 200; body = [] });
  show_status = λ status. "";
}

abbrev answers : KeyJson
answers = record {
  text_json = λ s. [];
  read_key =
      λ body. ok (some (record { key_b64 = toy.encode long_key; attestation = attestation }));
}

abbrev client : Client
client = record {
  base_url = "http://localhost:7700";
  registry_pubkey = registry_key;
  agent_did = "did:mesh:a1";
  signing_key = key;
}

loads : load_key toy server answers 15 "did:mesh:a1" client ≡ ok (some long_key)
unfolding load_key answered fetch toy_public
loads =
    let accepts =
      accept_key-signed toy toy_laws 15 registry_key long_key attestation
        (toy_laws.length-public_key key) refl
        ((verify_iff toy 15 attestation registry_key).1 attestation-IsGenuine) in
    ground (arith, accepts)

load_key-IsAttestedKey_example : IsAttestedKey toy 15 registry_key long_key
load_key-IsAttestedKey_example =
    load_key-IsAttestedKey toy server answers 15 "did:mesh:a1" client long_key loads
