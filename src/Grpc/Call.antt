-- ===== src/Grpc/Call.antt =====
-- crates/daemon/src/grpc/auth.rs: the metadata of a call and its authentication.
pub mod Authentic
use microsoft_agt_rust.Prelude.{ℕ, String, Option, List}
use microsoft_agt_rust.Prelude.Result.{Result, ok, map_err, ok_or, ◌>>=◌, ◌>>◌}
use microsoft_agt_rust.Platform.{Platform}
use microsoft_agt_rust.Identity.Registry.{AgentRegistry}
use microsoft_agt_rust.Daemon.Auth.{verify_request_signature}
use microsoft_agt_rust.Grpc.Proto.{Status, status, unauthenticated, invalid_argument}

-- The two entries of the metadata: each may be missing, and may not be text.
pub record Metadata : Type 0 where
  pub agent_did : Option (Result (Unit {0}) String)
  pub signature : Option (Result (Unit {0}) String)

-- What a call finds beside its message: the registry as it answers the first lookups, and as it
-- answers those behind them, since other calls may write in between.
pub record Call : Type 0 where
  pub metadata : Metadata
  pub now : ℕ
  pub registry : AgentRegistry
  pub later : AgentRegistry

module _ (p : Platform) where
  unfoldable pub extract_grpc_auth : Metadata → Result Status (String × List ℕ)
  extract_grpc_auth metadata = do
    did_value ← ok_or (status unauthenticated "Missing X-AGT-Agent-DID") metadata.agent_did
    did ← map_err (λ _. status unauthenticated "Invalid DID format") did_value
    signature_value ← ok_or (status unauthenticated "Missing X-AGT-Signature") metadata.signature
    signature_b64 ← map_err (λ _. status unauthenticated "Invalid signature format") signature_value
    signature ←
        map_err (λ _. status invalid_argument "Invalid Base64 in signature")
          (p.decode signature_b64)
    ok (did, signature)

  -- How every service but `watch_shadows` starts: the DID of an authentic call.
  unfoldable pub authenticate : String → Call → List ℕ → Result Status String
  unfolding extract_grpc_auth
  authenticate registry_pubkey call body_bytes = do
    auth ← extract_grpc_auth call.metadata
    map_err (status unauthenticated)
        (verify_request_signature p call.now auth.0 auth.1 body_bytes call.registry registry_pubkey)
    ok auth.0
