-- ===== src/Daemon/Auth.antt =====
-- crates/daemon/src/grpc/auth.rs, and `parse_did` of crates/daemon/src/lib.rs, which
-- crates/daemon/src/grpc/discovery.rs repeats.
pub mod Requests
pub mod Dids
mod Tests
use Prim.Native.String.{◌++◌}
use microsoft_agt_rust.Prelude.{ℕ, Bool, ◌&&◌, String, Option, List, [], ◌∷◌, str_eq, if◌then◌else◌}
use microsoft_agt_rust.Prelude.Result.{Result, ok, err, map_err, ok_or, ensure, ◌>>=◌, ◌>>◌}
use microsoft_agt_rust.Prelude.Text.{split_colon}
use microsoft_agt_rust.Platform.{Platform}
use microsoft_agt_rust.Identity.AgentId.{AgentDid, verify_key}
use microsoft_agt_rust.Identity.Attestation
use microsoft_agt_rust.Identity.Registry.{AgentRegistry}

abbrev pub not_registered : String
not_registered = "Agent not registered"

-- verify_request_signature
unfoldable pub verify_request_signature :
    Platform → ℕ → String → List ℕ → List ℕ → AgentRegistry → String → Result String (Unit {0})
verify_request_signature p now did signature body registry registry_pubkey = do
  attestation_opt ← registry.get_attestation did
  attestation ← ok_or not_registered attestation_opt
  map_err (λ e. "Registry attestation verification failed: " ++ Attestation.display e)
      (Attestation.verify p now attestation registry_pubkey)
  ensure (verify_key p attestation.claim.public_key_b64 body signature) "Invalid signature"

did_of : List String → Result String AgentDid
did_of (a ∷ b ∷ c ∷ []) =
    if str_eq a "did" && str_eq b "mesh"
    then ok (record { method = "mesh"; unique_id = c })
    else err "Invalid DID format"
did_of _ = err "Invalid DID format"

-- parse_did
unfoldable pub parse_did : String → Result String AgentDid
unfolding did_of
parse_did s = did_of (split_colon s)
