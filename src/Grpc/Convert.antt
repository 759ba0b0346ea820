-- ===== src/Grpc/Convert.antt =====
-- crates/daemon/src/grpc/convert.rs. The numbers of the enumerations are those of types.proto.
pub mod RoundTrips
use Prim.Native.String.{◌++◌}
use microsoft_agt_rust.Prelude.{ℕ, ◌≡◌, ◌==◌, if◌then◌else◌, String, Option, none, some, []}
use microsoft_agt_rust.Prelude.Result.{Result, ok, err, ok_or, ◌>>=◌}
use microsoft_agt_rust.Identity.Ring.{PrivilegeRing, system, trusted, standard, sandboxed}
use microsoft_agt_rust.Identity.AgentId.{AgentDid, AgentIdentity}
use microsoft_agt_rust.Identity.Attestation.{SignedAttestation}
use microsoft_agt_rust.Audit.{
  DataCategory, personal_data, financial_record, audit_log, system_config, unknown,
}
use microsoft_agt_rust.Rings.Escalation.{
  EscalationRequest, EscalationOutcome, approved, denied, EscalationEvent,
}
use microsoft_agt_rust.Grpc.Proto.{
  Status, status, invalid_argument, Timestamp, ProtoDid, ProtoIdentity, ProtoAttestation,
  ProtoEscalationRequest, ProtoEscalationEvent,
}

-- What the conversions take from chrono: a time's seconds and nanoseconds, and the time that such a
-- pair denotes, if it denotes one.
pub record Chrono : Type 0 where
  pub timestamp : ℕ → ℕ
  pub timestamp_subsec_nanos : ℕ → ℕ
  pub timestamp_opt : ℕ → ℕ → Option ℕ

pub record ChronoLaws (c : Chrono) : Type 0 where
  pub timestamp_opt-timestamp :
      (t : ℕ) → c.timestamp_opt (c.timestamp t) (c.timestamp_subsec_nanos t) ≡ some t

abbrev invalid : String → Status
invalid message = status invalid_argument message

unfoldable pub to_proto_ring : PrivilegeRing → ℕ
to_proto_ring system = 1
to_proto_ring trusted = 2
to_proto_ring standard = 3
to_proto_ring sandboxed = 4

unfoldable pub from_proto_ring : ℕ → Result Status PrivilegeRing
from_proto_ring ring =
    if ring == 1
    then ok system
    else if ring == 2
    then ok trusted
    else if ring == 3
    then ok standard
    else if ring == 4
    then ok sandboxed
    else err (invalid "Unknown PrivilegeRing")

unfoldable pub to_proto_category : DataCategory → ℕ
to_proto_category personal_data = 1
to_proto_category financial_record = 2
to_proto_category audit_log = 3
to_proto_category system_config = 4
to_proto_category unknown = 0

unfoldable pub from_proto_category : ℕ → DataCategory
from_proto_category cat =
    if cat == 1
    then personal_data
    else if cat == 2
    then financial_record
    else if cat == 3
    then audit_log
    else if cat == 4
    then system_config
    else unknown

unfoldable pub to_proto_did : AgentDid → ProtoDid
to_proto_did did = record { method = did.method; unique_id = did.unique_id }

unfoldable pub from_proto_did : ProtoDid → AgentDid
from_proto_did did = record { method = did.method; unique_id = did.unique_id }

unfoldable pub to_proto_identity : AgentIdentity → PrivilegeRing → ProtoIdentity
unfolding to_proto_did to_proto_ring
to_proto_identity id ring = record {
  did = some (to_proto_did id.did);
  name = id.name;
  public_key_b64 = id.public_key;
  sponsor_email = id.sponsor_email;
  capabilities = id.capabilities;
  ring = to_proto_ring ring;
}

unfoldable pub from_proto_identity : ProtoIdentity → Result Status AgentIdentity
unfolding from_proto_did
from_proto_identity id = do
  did ← ok_or (invalid "Missing DID") id.did
  ok (record {
    did = from_proto_did did;
    name = id.name;
    public_key = id.public_key_b64;
    sponsor_email = id.sponsor_email;
    capabilities = id.capabilities;
    status = "active";
    parent_did = none;
    delegation_depth = 0;
    private_key = none;
  })

abbrev pub outcome_text : EscalationOutcome → String
outcome_text approved = "Approved"
outcome_text (denied cause) = "Denied: " ++ cause

module _ (c : Chrono) where
  unfoldable pub to_proto_timestamp : ℕ → Timestamp
  to_proto_timestamp dt = record { seconds = c.timestamp dt; nanos = c.timestamp_subsec_nanos dt }

  unfoldable pub from_proto_timestamp : Timestamp → Result Status ℕ
  from_proto_timestamp ts =
      ok_or (invalid "Invalid timestamp") (c.timestamp_opt ts.seconds ts.nanos)

  unfoldable pub to_proto_attestation : SignedAttestation → ProtoAttestation
  unfolding to_proto_timestamp
  to_proto_attestation sa = record {
    claim = some (record {
      subject_did = sa.claim.subject_did;
      public_key_b64 = sa.claim.public_key_b64;
      issued_at = some (to_proto_timestamp sa.claim.issued_at);
      expires_at = some (to_proto_timestamp sa.claim.expires_at);
    });
    registry_did = sa.registry_did;
    signature_b64 = sa.signature_b64;
  }

  unfoldable pub from_proto_attestation : ProtoAttestation → Result Status SignedAttestation
  unfolding from_proto_timestamp
  from_proto_attestation sa = do
    proto_claim ← ok_or (invalid "Missing claim") sa.claim
    issued ← ok_or (invalid "Missing issued_at") proto_claim.issued_at
    issued_at ← from_proto_timestamp issued
    expires ← ok_or (invalid "Missing expires_at") proto_claim.expires_at
    expires_at ← from_proto_timestamp expires
    ok (record {
      claim = record {
        subject_did = proto_claim.subject_did;
        public_key_b64 = proto_claim.public_key_b64;
        issued_at = issued_at;
        expires_at = expires_at;
      };
      registry_did = sa.registry_did;
      signature_b64 = sa.signature_b64;
    })

  unfoldable pub to_proto_escalation_request : EscalationRequest → ProtoEscalationRequest
  unfolding to_proto_timestamp to_proto_ring
  to_proto_escalation_request req = record {
    agent_did = req.agent_did;
    current_ring = to_proto_ring req.current_ring;
    requested_ring = to_proto_ring req.requested_ring;
    reason = req.reason;
    timestamp = some (to_proto_timestamp req.timestamp);
  }

  unfoldable pub from_proto_escalation_request :
      ProtoEscalationRequest → Result Status EscalationRequest
  unfolding from_proto_timestamp from_proto_ring
  from_proto_escalation_request req = do
    current_ring ← from_proto_ring req.current_ring
    requested_ring ← from_proto_ring req.requested_ring
    sent ← ok_or (invalid "Missing timestamp") req.timestamp
    timestamp ← from_proto_timestamp sent
    ok (record {
      agent_did = req.agent_did;
      current_ring = current_ring;
      requested_ring = requested_ring;
      reason = req.reason;
      timestamp = timestamp;
    })

  unfoldable pub to_proto_escalation_event : EscalationEvent → ProtoEscalationEvent
  unfolding to_proto_timestamp to_proto_ring
  to_proto_escalation_event event = record {
    event_id = event.event_id;
    agent_did = event.agent_did;
    approver_did = event.approver_did;
    from_ring = to_proto_ring event.from_ring;
    to_ring = to_proto_ring event.to_ring;
    outcome = outcome_text event.outcome;
    reason = event.reason;
    timestamp = some (to_proto_timestamp event.timestamp);
  }
