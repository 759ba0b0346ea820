-- ===== src/Grpc/Escalations/Tests.antt =====
-- The theorems on the escalation service at concrete calls.
use microsoft_agt_rust.Prelude.{ℕ, ◌≡◌, ◌≢◌, refl, ap, String, List, arith}
use microsoft_agt_rust.Prelude.Result.{ok}
use microsoft_agt_rust.Prelude.Map
use microsoft_agt_rust.Platform.Toy.{toy, toy_laws}
use microsoft_agt_rust.Rings.Escalation.{approved, to_event, approval_payload}
use microsoft_agt_rust.Rings.Escalation.Approve.{approve_iff}
use microsoft_agt_rust.Identity.Ring.{trusted}
use microsoft_agt_rust.Grpc.Call.{Call}
use microsoft_agt_rust.Fixtures.Agents.{
  key, registry_key, attestation, all_a, attestation-IsGenuine, signed_by_a,
}
use microsoft_agt_rust.Fixtures.Calls.{
  plain_prost, plain_chrono, plain_times, setup, a1, call_over, authenticate-call_over,
  pending_request, service, clocks, sinks,
}
use microsoft_agt_rust.Grpc.Proto.{
  ApproveRequest, DenyRequest, ProtoEscalationEvent, ProtoEscalationRequest,
}
use microsoft_agt_rust.Grpc.Convert.{to_proto_escalation_request, to_proto_escalation_event}
use microsoft_agt_rust.Grpc.Convert.RoundTrips.{
  from_proto_escalation_request-to_proto_escalation_request,
}
use microsoft_agt_rust.Grpc.Call.Authentic.{IsAuthenticCall, authenticate_iff}
use microsoft_agt_rust.Grpc.Escalations.{approve}
use microsoft_agt_rust.Grpc.Escalations.Authentic.{
  requests, body_of, serve, serve-IsAuthenticCall, request_escalation-authentic, deny_by_anyone,
  IsDenied, approve_sound, IsApprovedBy,
}

abbrev asked : ProtoEscalationRequest
asked = to_proto_escalation_request plain_chrono pending_request

abbrev body : List ℕ
body = plain_prost.escalation_request asked

-- The service keeps the request under a new identifier.
changes : serve setup (call_over body) (requests "e2" asked) service ≢ service
unfolding serve Map.get
changes h =
    let (_, kept) =
      request_escalation-authentic setup (call_over body) "e2" asked pending_request a1 service
        (authenticate-call_over body)
        (from_proto_escalation_request-to_proto_escalation_request plain_chrono plain_times
          pending_request) in
    let there = ap (λ s. Map.get s.manager.pending "e2") h in ground (arith, kept, there)

serve-IsAuthenticCall_example :
    (did : String) × IsAuthenticCall toy registry_key
      (call_over body)
      (body_of setup (requests "e2" asked))
      did
serve-IsAuthenticCall_example =
    serve-IsAuthenticCall setup (call_over body) (requests "e2" asked) service changes

abbrev denial : DenyRequest
denial = record { request_id = "e1"; approver_did = "did:mesh:root"; cause = "no" }

abbrev denial_call : Call
denial_call = call_over (plain_prost.deny_request denial)

deny_by_anyone_example : IsDenied setup denial_call 16 sinks denial service "e1" pending_request
unfolding Map.get
deny_by_anyone_example =
    let body = plain_prost.deny_request denial in
    (deny_by_anyone setup denial_call 16 sinks denial service "e1" pending_request refl refl).1
      (a1, (authenticate_iff toy registry_key denial_call body a1).0 (authenticate-call_over body))

-- The consent of the agent, which is of the System ring, to the pending request.
abbrev consent : ApproveRequest
consent = record {
  request_id = "e1";
  approver_did = a1;
  signature_b64 = toy.encode (toy.sign key (approval_payload "e1" "did:mesh:b2" trusted));
}

abbrev approval_call : Call
approval_call = call_over (plain_prost.approve_request consent)

abbrev event : ProtoEscalationEvent
event = to_proto_escalation_event plain_chrono (to_event "e1" pending_request a1 approved 16)

goes_through : (approve setup approval_call clocks sinks consent service).0 ≡ ok event
unfolding approve Map.get
goes_through =
    let signature = toy.sign key (approval_payload "e1" "did:mesh:b2" trusted) in
    let approves =
      (approve_iff toy clocks sinks "e1" pending_request a1 signature all_a service.manager refl).1
        (record {
          attestation = attestation;
          from_system = refl;
          attested = refl;
          genuine = attestation-IsGenuine;
          signed = signed_by_a (approval_payload "e1" "did:mesh:b2" trusted);
          upward = omega arith;
        }) in
    ground (
      arith,
      authenticate-call_over (plain_prost.approve_request consent),
      toy_laws.decode-encode signature,
      approves,
    )

approve_sound_example : IsApprovedBy setup approval_call clocks sinks consent service
unfolding to_proto_escalation_event to_event
approve_sound_example =
    approve_sound setup approval_call clocks sinks consent service event goes_through refl
