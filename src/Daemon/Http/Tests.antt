-- ===== src/Daemon/Http/Tests.antt =====
-- The theorems on the HTTP routes at concrete requests.
use microsoft_agt_rust.Prelude.{◌≡◌, refl, true, String, none, some, List, [], ◌∷◌, ℕ, arith}
use microsoft_agt_rust.Prelude.Result.{ok}
use microsoft_agt_rust.Platform.Toy.{toy, toy_laws}
use microsoft_agt_rust.Identity.Ring.{PrivilegeRing, system}
use microsoft_agt_rust.Identity.Registry.{AgentRegistry}
use microsoft_agt_rust.Audit.{personal_data}
use microsoft_agt_rust.Compliance.{
  default_policy, ActionRecord, ComplianceInput, is_compliant, evaluate,
}
use microsoft_agt_rust.Compliance.Log.{all_written, missing, genesis, load_history}
use microsoft_agt_rust.Compliance.Log.History.{load_history-to_string, append-all_written}
use microsoft_agt_rust.Discovery
use microsoft_agt_rust.Discovery.{shadow}
use microsoft_agt_rust.Fixtures.Audit.{plain_json, plain_laws}
use microsoft_agt_rust.Fixtures.Agents.{
  key, registry_key, attestation, all_a, attestation-IsGenuine, signed_by_a,
}
use microsoft_agt_rust.Daemon.Http.{
  ServerState, Setup, HttpCall, ExecuteRequest, context, presented, auth_middleware, execute_action,
  input_of, log_and_respond, ExecuteResponse,
}
use microsoft_agt_rust.Daemon.Http.Execute.{execute_action-IsRecorded, IsRecorded, logged}
use microsoft_agt_rust.Daemon.Http.Middleware.{auth_middleware_iff}

abbrev setup : Setup
setup = record {
  platform = toy;
  audit_json = plain_json;
  debug = λ d. "24h";
  rules = default_policy;
  registry_pubkey = registry_key;
}

abbrev body : List ℕ
body = 1 ∷ 2 ∷ []

abbrev call : String → AgentRegistry → HttpCall
call did registry = record {
  did_header = some did;
  signature_header = some (toy.encode (toy.sign key body));
  peer_addr = "10.0.0.7";
  body = ok body;
  registry = registry;
  verified_at = 15;
  seen = record { first = 15; made = 15; updated = 15 };
  evaluated_at = 15;
  checked_at = 15;
  stamped_at = 15;
  record_id = "r1";
  log_io = all_written;
  exported = true;
}

abbrev state : ServerState
state = record {
  discovery_manager = Discovery.new;
  action_log = record { disk = record { lines = []; checkpoint = missing }; last_hash = genesis };
  siem_exporter = none;
}

abbrev export : ExecuteRequest
export = record {
  action = "data_export";
  resource_category = personal_data;
  jurisdiction = some "EU";
}

headed :
    (u : Setup) (c : HttpCall) (did signature_b64 : String) (signature bytes : List ℕ)
    → c.did_header ≡ some did
    → c.signature_header ≡ some signature_b64
    → u.platform.decode signature_b64 ≡ ok signature
    → c.body ≡ ok bytes
    → presented u c ≡ ok (did, signature, bytes)
unfolding presented
headed u c did signature_b64 signature bytes names carries decodes read =
    ground (arith, names, carries, decodes, read)

call_headed :
    (did : String) (registry : AgentRegistry)
    → presented setup (call did registry) ≡ ok (did, toy.sign key body, body)
call_headed did registry =
    headed setup (call did registry) did (toy.encode (toy.sign key body)) (toy.sign key body) body
      refl refl (toy_laws.decode-encode (toy.sign key body)) refl

gathered :
    (u : Setup) (c : HttpCall) (req : ExecuteRequest) (s : ServerState) (did : String)
    (ring : PrivilegeRing) (history : List ActionRecord)
    → c.did_header ≡ some did
    → c.registry.get_ring did ≡ ok (some ring)
    → load_history u.audit_json did s.action_log.lines ≡ ok history
    → context u c req s ≡ ok (did, ring, history)
unfolding context
gathered u c req s did ring history names found read = ground (arith, names, found, read)

call_gathered :
    context setup (call "did:mesh:a1" all_a) export state ≡ ok ("did:mesh:a1", system, [])
call_gathered =
    gathered setup (call "did:mesh:a1" all_a) export state "did:mesh:a1" system [] refl refl
      (load_history-to_string plain_json plain_laws "did:mesh:a1" 0 []).0

auth_middleware_iff_example :
    auth_middleware setup (call "did:mesh:a1" all_a) state ≡ (ok tt, state)
auth_middleware_iff_example =
    (auth_middleware_iff setup (call "did:mesh:a1" all_a) state "did:mesh:a1" (toy.sign key body)
        body (call_headed "did:mesh:a1" all_a)).1.1
      (record {
        attestation = attestation;
        attested = refl;
        genuine = attestation-IsGenuine;
        signed = signed_by_a body;
      })

abbrev input : ComplianceInput
input = input_of "did:mesh:a1" system export []

abbrev verdict : ExecuteResponse
verdict = record {
  success = is_compliant setup.debug 15 default_policy input;
  results = evaluate setup.debug 15 default_policy input;
}

answered : (execute_action setup (call "did:mesh:a1" all_a) export state).0 ≡ ok verdict
unfolding execute_action log_and_respond
answered = ground (
  arith,
  call_gathered,
  append-all_written toy plain_json
      (logged setup (call "did:mesh:a1" all_a) export "did:mesh:a1" input) state.action_log,
)

execute_action-IsRecorded_example :
    IsRecorded setup
      (call "did:mesh:a1" all_a)
      export
      state
      (execute_action setup (call "did:mesh:a1" all_a) export state).1
      verdict
execute_action-IsRecorded_example =
    execute_action-IsRecorded setup (call "did:mesh:a1" all_a) export plain_laws state verdict
      answered
