-- ===== src/Cli/Escalate/Request.antt =====
-- A request that the command line makes, as the server keeps it.
use Prim.Native.String.{◌++◌}
use microsoft_agt_rust.Prelude.{ℕ, ◌≡◌, refl, String, some, List}
use microsoft_agt_rust.Prelude.Result.{Result, ok}
use microsoft_agt_rust.Prelude.Map
use microsoft_agt_rust.Prelude.Text.{IsVisible}
use microsoft_agt_rust.Platform.{Platform, PlatformLaws}
use microsoft_agt_rust.Identity.Ring.{PrivilegeRing, standard}
use microsoft_agt_rust.Rings.Escalation.{EscalationRequest}
use microsoft_agt_rust.Grpc.Proto.{Status, Prost, ProtoEscalationRequest}
use microsoft_agt_rust.Grpc.Convert.{Chrono, ChronoLaws, to_proto_escalation_request}
use microsoft_agt_rust.Grpc.Convert.RoundTrips.{
  from_proto_escalation_request-to_proto_escalation_request,
}
use microsoft_agt_rust.Grpc.Call.{Call, Metadata}
use microsoft_agt_rust.Grpc.Call.Authentic.{
  signed_metadata, IsKnown, IsKnown-metadata, authenticate-signed_metadata,
}
use microsoft_agt_rust.Grpc.Escalations.{EscalationService, Setup, request_escalation}
use microsoft_agt_rust.Grpc.Escalations.Authentic.{request_escalation-authentic}
use microsoft_agt_rust.Clients.Remote.{Channel}
use microsoft_agt_rust.Clients.Remote.RoundTrip.{IsOpen, signed_by-IsOpen}
use microsoft_agt_rust.Cli.Escalate.{request_message, prepared, request}

-- The request that the command line makes.
abbrev pub asked : ℕ → String → PrivilegeRing → String → EscalationRequest
asked now did to_ring reason = record {
  agent_did = did;
  current_ring = standard;
  requested_ring = to_ring;
  reason = reason;
  timestamp = now;
}

prepared-IsOpen :
    (p : Platform) (x : Prost) (c : Chrono) (ch : Channel)
    → PlatformLaws p
    → IsOpen ch
    → (key body : List ℕ) (did : String) → IsVisible did
    → prepared p x c ch (ok key) did body ≡ ok (signed_metadata p did key body)
unfolding prepared
prepared-IsOpen p x c ch laws open_ key body did visible =
    rw (prepared, signed_by-IsOpen p ch laws open_ key body did visible, open_.connects) refl

module _ {S : Type 0} (u : Setup S) (ch : Channel) (call : Call) (event_id : String)
    (laws : PlatformLaws u.platform) (times : ChronoLaws u.chrono) where
  -- The service behind the command, which draws `event_id`.
  abbrev pub request_at :
      Metadata
      → ProtoEscalationRequest
      → EscalationService S
      → Result Status String × EscalationService S
  request_at m req s = request_escalation u (record call { metadata = m }) event_id req s

  -- `escalate request` of an agent whose key the command has and the registry knows, and whose DID
  -- is visible ASCII (which gRPC metadata must be), where the connection is made and chrono reads
  -- back the times that it writes: the command prints the identifier that the server drew, and
  -- under it the server keeps a pending request of this agent, from the Standard ring, whatever the
  -- agent's ring, to the ring asked for, with the reason and the time given.
  pub request-pending :
      (key : List ℕ) (now : ℕ) (did reason : String) (to_ring : PrivilegeRing)
      (s : EscalationService S)
      → IsOpen ch
      → IsVisible did
      → IsKnown u.platform u.registry_pubkey call did key
      → let (printed, s') =
          request u.platform u.prost u.chrono ch (ok key) request_at now did to_ring reason s in
        (printed ≡ ok ("Escalation requested. Request ID: " ++ event_id))
        × (Map.get s'.manager.pending event_id ≡ some (asked now did to_ring reason))
  unfolding request prepared request_message to_proto_escalation_request
  request-pending key now did reason to_ring s open_ visible known =
      let body = u.prost.escalation_request (request_message u.chrono now did to_ring reason) in
      let m = signed_metadata u.platform did key body in
      let passes =
        authenticate-signed_metadata u.platform laws u.registry_pubkey
          (record call { metadata = m }) body did key refl
          (IsKnown-metadata u.platform u.registry_pubkey call did key m known) in
      let (answers, kept) =
        request_escalation-authentic u (record call { metadata = m }) event_id
          (request_message u.chrono now did to_ring reason) (asked now did to_ring reason) did s
          passes
          (from_proto_escalation_request-to_proto_escalation_request u.chrono times
            (asked now did to_ring reason)) in
      rw
        (
          request,
          prepared-IsOpen u.platform u.prost u.chrono ch laws open_ key body did visible,
          answers,
        )
        (refl, kept)
