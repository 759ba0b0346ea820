-- ===== src/Daemon/Auth/Tests.antt =====
-- The theorems on authentication at a concrete agent.
use microsoft_agt_rust.Prelude.{◌≡◌, [], ◌∷◌, refl}
use microsoft_agt_rust.Prelude.Result.{ok}
use microsoft_agt_rust.Platform.Toy.{toy}
use microsoft_agt_rust.Fixtures.Agents.{
  key, registry_key, attestation, all_a, attestation-IsGenuine, signed_by_a,
}
use microsoft_agt_rust.Daemon.Auth.{verify_request_signature}
use microsoft_agt_rust.Daemon.Auth.Requests.{verify_request_signature_iff}

verify_request_signature_iff_example :
    verify_request_signature toy 15 "did:mesh:a1"
      (toy.sign key (1 ∷ 2 ∷ []))
      (1 ∷ 2 ∷ [])
      all_a
      registry_key
    ≡ ok tt
verify_request_signature_iff_example =
    (verify_request_signature_iff toy 15 "did:mesh:a1" (toy.sign key (1 ∷ 2 ∷ [])) (1 ∷ 2 ∷ [])
        all_a registry_key).1
      (record {
        attestation = attestation;
        attested = refl;
        genuine = attestation-IsGenuine;
        signed = signed_by_a (1 ∷ 2 ∷ []);
      })
