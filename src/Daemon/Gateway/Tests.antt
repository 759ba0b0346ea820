-- ===== src/Daemon/Gateway/Tests.antt =====
-- The theorems on the gateway at concrete requests.
use microsoft_agt_rust.Prelude.{
  ◌≡◌, ◌≢◌, ◌*◌, ◌+◌, ◌-◌, ◌≤◌, refl, true, String, Option, none, some, List, [], ◌∷◌, ℕ, arith,
  length, ap,
}
use microsoft_agt_rust.Prelude.Result.{ok}
use microsoft_agt_rust.Prelude.Map
use microsoft_agt_rust.Platform.Toy.{toy, toy_laws}
use microsoft_agt_rust.Identity.Ring.{system}
use microsoft_agt_rust.Compliance.{default_policy}
use microsoft_agt_rust.Compliance.Log.{all_written, missing, genesis, load_history}
use microsoft_agt_rust.Compliance.Log.History.{load_history-to_string}
use microsoft_agt_rust.Fixtures.Audit.{plain_json, plain_laws}
use microsoft_agt_rust.Fixtures.Agents.{
  key, registry_key, attestation, all_a, attestation-IsGenuine, signed_by_a,
}
use microsoft_agt_rust.Mcp.{McpPolicy}
use microsoft_agt_rust.Mcp.Json
use microsoft_agt_rust.Mcp.Json.{Value, str_arg}
use microsoft_agt_rust.Daemon.Auth.{verify_request_signature}
use microsoft_agt_rust.Daemon.Auth.Requests.{verify_request_signature_iff}
use microsoft_agt_rust.Daemon.Gateway.{
  GatewayCall, GatewayState, Setup, JsonRpcRequest, mcp_proxy_handler, authenticate, forward,
  governed, tool_call, tool_of, or_default,
}
use microsoft_agt_rust.Daemon.Gateway.Authorized.{IsSigned, mcp_proxy_handler-IsSigned}
use microsoft_agt_rust.Daemon.Gateway.Ungoverned.{governed_by_flag}
use microsoft_agt_rust.Daemon.Gateway.RateLimit.{
  admitted, admitted_bound, interval, rate_limit, limited,
}

abbrev setup : Setup
setup = record {
  platform = toy;
  audit_json = plain_json;
  escalation_json = λ id reason. id;
  debug = λ d. "24h";
  rules = default_policy;
  registry_pubkey = registry_key;
}

abbrev body : List ℕ
body = 1 ∷ 2 ∷ []

-- A policy that denies the tool that is called, and allows unknown tools.
abbrev lax : McpPolicy
lax = record {
  allowed_tools = [];
  denylist = "rm" ∷ [];
  allow_unknown_tools = true;
  max_requests_per_second = 10;
}

abbrev params : Option Value
params = some (Json.object (Json.field "name" (Json.string "rm") Json.end))

abbrev call : String → GatewayCall
call method = record {
  did_header = some "did:mesh:a1";
  signature_header = some (toy.encode (toy.sign key body));
  body = body;
  payload = ok (record { method = method; params = params });
  registry = all_a;
  rate_policy = λ did. ok (some lax);
  call_policy = λ did. ok (some lax);
  verified_at = 15;
  limited_at = 15;
  checked_at = 15;
  requested_at = 15;
  stamped_at = 15;
  record_id = "r1";
  escalation_id = "e1";
  log_io = all_written;
  upstream = ok (Json.string "pong");
}

abbrev state : GatewayState
state = record {
  last_requests = [];
  escalation_manager = record {
    pending = [];
    audit_log = none;
    siem_exporter = none;
    registry_pubkey = registry_key;
  };
  action_log = record { disk = record { lines = []; checkpoint = missing }; last_hash = genesis };
  forwarded = [];
}

passes :
    verify_request_signature toy 15 "did:mesh:a1" (toy.sign key body) body all_a registry_key
    ≡ ok tt
passes =
    (verify_request_signature_iff toy 15 "did:mesh:a1" (toy.sign key body) body all_a
        registry_key).1
      (record {
        attestation = attestation;
        attested = refl;
        genuine = attestation-IsGenuine;
        signed = signed_by_a body;
      })

-- What a signed request is taken for.
authenticated :
    (u : Setup) (c : GatewayCall) (did signature_b64 : String) (signature : List ℕ)
    (p : JsonRpcRequest)
    → c.did_header ≡ some did
    → c.signature_header ≡ some signature_b64
    → u.platform.decode signature_b64 ≡ ok signature
    → verify_request_signature u.platform c.verified_at did signature c.body c.registry
        u.registry_pubkey
      ≡ ok tt
    → c.payload ≡ ok p
    → authenticate u c ≡ ok (did, p)
unfolding authenticate
authenticated u c did signature_b64 signature p names carries decodes authentic payload =
    ground (arith, names, carries, decodes, authentic, payload)

ping_authentic :
    authenticate setup (call "ping")
    ≡ ok ("did:mesh:a1", record { method = "ping"; params = params })
ping_authentic =
    authenticated setup (call "ping") "did:mesh:a1" (toy.encode (toy.sign key body))
      (toy.sign key body) (record { method = "ping"; params = params }) refl refl
      (toy_laws.decode-encode (toy.sign key body)) passes refl

ping_forwarded : (mcp_proxy_handler setup (call "ping") state).1.forwarded ≡ body ∷ []
unfolding mcp_proxy_handler forward
ping_forwarded = rw (ping_authentic, mcp_proxy_handler)

ping_changes : (mcp_proxy_handler setup (call "ping") state).1 ≢ state
ping_changes h = cc (ping_forwarded, ap (λ s. s.forwarded) h)

mcp_proxy_handler-IsSigned_example : IsSigned setup (call "ping")
mcp_proxy_handler-IsSigned_example =
    mcp_proxy_handler-IsSigned setup (call "ping") state ping_changes

rm_call : tool_call setup (call "tools/call") "did:mesh:a1" params ≡ ok ("rm", system, lax)
unfolding tool_call tool_of or_default str_arg
rm_call = refl

in_time : rate_limit 15 10 "did:mesh:a1" [] ≡ some (("did:mesh:a1", 15) ∷ [])
unfolding rate_limit limited Map.get Map.insert
in_time = refl

no_history : load_history plain_json "did:mesh:a1" [] ≡ ok []
no_history = (load_history-to_string plain_json plain_laws "did:mesh:a1" 0 []).0

governed_by_flag_example :
    (governed setup (call "tools/call") "did:mesh:a1" params state).1.forwarded ≡ body ∷ []
governed_by_flag_example =
    (governed_by_flag setup (call "tools/call") "did:mesh:a1" params state "rm" system lax
      (("did:mesh:a1", 15) ∷ []) [] rm_call in_time refl no_history).1

admitted_bound_example :
    length (admitted 2 "did:mesh:a1" [] (0 ∷ 400000000 ∷ 500000000 ∷ [])) * interval 2
    ≤ (500000000 - 0) + interval 2
admitted_bound_example =
    admitted_bound 2 "did:mesh:a1" [] (0 ∷ 400000000 ∷ 500000000 ∷ []) 0 500000000 (omega arith)
      (omega arith, (omega arith, (omega arith, tt)))
      (omega arith, (omega arith, (omega arith, tt)))
