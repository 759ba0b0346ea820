-- ===== src/Fixtures/Calls.antt =====
-- gRPC calls of the agent of the module of agents, and a service for them.
use microsoft_agt_rust.Prelude.{ℕ, ◌≡◌, refl, true, String, none, some, List, [], ◌∷◌, ◌++◌}
use microsoft_agt_rust.Prelude.Result.{ok}
use microsoft_agt_rust.Prelude.Text.{utf8}
use microsoft_agt_rust.Platform.Toy.{toy, toy_laws}
use microsoft_agt_rust.Identity.Ring.{standard, trusted}
use microsoft_agt_rust.Fixtures.Agents.{
  key, registry_key, attestation, all_a, attestation-IsGenuine,
}
use microsoft_agt_rust.Fixtures.Policies.{plain_policies}
use microsoft_agt_rust.Mcp.Store
use microsoft_agt_rust.Mcp.Store.{MemoryPolicyStore}
use microsoft_agt_rust.Rings.Escalation.{EscalationRequest, Sinks, Clocks}
use microsoft_agt_rust.Grpc.Proto.{Prost}
use microsoft_agt_rust.Grpc.Convert.{Chrono, ChronoLaws}
use microsoft_agt_rust.Grpc.Call.{Call, authenticate}
use microsoft_agt_rust.Grpc.Call.Authentic.{signed_metadata, IsKnown, authenticate-signed_metadata}
use microsoft_agt_rust.Grpc.Escalations.{EscalationService, Setup}
use microsoft_agt_rust.Clients.Remote.{Channel}
use microsoft_agt_rust.Clients.Remote.RoundTrip.{IsOpen}

abbrev pub plain_prost : Prost
plain_prost = record {
  escalation_request = λ r. r.current_ring ∷ r.requested_ring ∷ utf8 r.agent_did;
  approve_request = λ r. utf8 r.request_id ++ utf8 r.signature_b64;
  deny_request = λ r. utf8 r.request_id ++ utf8 r.cause;
  list_pending_request = [];
  get_policy_request = λ did. utf8 did;
  set_policy_request = λ r. utf8 r.agent_did ++ utf8 r.policy_json;
  register_request = λ r. r.ring ∷ [];
  get_attestation_request = λ did. utf8 did;
  presence_report = λ r. utf8 r.name ++ utf8 r.address;
  watch_shadows_request = λ since. [];
}

-- Every time is a number of seconds.
abbrev pub plain_chrono : Chrono
plain_chrono = record {
  timestamp = λ t. t;
  timestamp_subsec_nanos = λ t. 0;
  timestamp_opt = λ t n. some t;
}

pub plain_times : ChronoLaws plain_chrono
plain_times = record { timestamp_opt-timestamp = λ t. refl }

abbrev pub setup : Setup MemoryPolicyStore
setup = record {
  platform = toy;
  prost = plain_prost;
  chrono = plain_chrono;
  policy_json = plain_policies;
  policy_store = Store.as_trait;
  parse_str = λ s. some s;
  registry_pubkey = registry_key;
}

abbrev pub a1 : String
a1 = "did:mesh:a1"

-- A call of the agent with its signature over a message.
abbrev pub call_over : List ℕ → Call
call_over body = record {
  metadata = signed_metadata toy a1 key body;
  now = 15;
  registry = all_a;
  later = all_a;
}

pub call_over-IsKnown : (body : List ℕ) → IsKnown toy registry_key (call_over body) a1 key
call_over-IsKnown body = record {
  attestation = attestation;
  attested = refl;
  genuine = attestation-IsGenuine;
  holds_key = refl;
}

pub authenticate-call_over :
    (body : List ℕ) → authenticate toy registry_key (call_over body) body ≡ ok a1
authenticate-call_over body =
    authenticate-signed_metadata toy toy_laws registry_key (call_over body) body a1 key refl
      (call_over-IsKnown body)

abbrev pub pending_request : EscalationRequest
pending_request = record {
  agent_did = "did:mesh:b2";
  current_ring = standard;
  requested_ring = trusted;
  reason = "deploy";
  timestamp = 5;
}

-- A service with one pending request and no policies.
abbrev pub service : EscalationService MemoryPolicyStore
service = record {
  manager = record {
    pending = ("e1", pending_request) ∷ [];
    audit_log = none;
    siem_exporter = none;
    registry_pubkey = registry_key;
  };
  policies = record { policies = [] };
}

abbrev pub clocks : Clocks
clocks = record { verified_at = 15; stamped_at = 16 }

abbrev pub sinks : Sinks
sinks = record { log_written = true; exported = true }

abbrev pub open_channel : Channel
open_channel = record { connected = ok tt; try_from = λ s. ok s; show = λ s. s.message }

pub open_channel-IsOpen : IsOpen open_channel
open_channel-IsOpen = record { connects = refl; takes = λ s v. refl }
