-- ===== src/Grpc/Proto.antt =====
-- The messages of proto/agt/v1 that the services exchange, and how prost writes the ones that are
-- signed. An integer of the wire is its bits, which the casts between i32 and u32 keep.
use microsoft_agt_rust.Prelude.{ℕ, Bool, String, Option, List}

pub data Code : Type 0 where
  unauthenticated invalid_argument internal not_found : Code
  failed_precondition permission_denied unimplemented : Code

-- `tonic::Status`
pub record Status : Type 0 where
  pub code : Code
  pub message : String

abbrev pub status : Code → String → Status
status code message = record { code = code; message = message }

pub record Timestamp : Type 0 where
  pub seconds : ℕ
  pub nanos : ℕ

pub record ProtoDid : Type 0 where
  pub method : String
  pub unique_id : String

pub record ProtoIdentity : Type 0 where
  pub did : Option ProtoDid
  pub name : String
  pub public_key_b64 : String
  pub sponsor_email : String
  pub capabilities : List String
  pub ring : ℕ

pub record ProtoClaim : Type 0 where
  pub subject_did : String
  pub public_key_b64 : String
  pub issued_at : Option Timestamp
  pub expires_at : Option Timestamp

pub record ProtoAttestation : Type 0 where
  pub claim : Option ProtoClaim
  pub registry_did : String
  pub signature_b64 : String

pub record ProtoEscalationRequest : Type 0 where
  pub agent_did : String
  pub current_ring : ℕ
  pub requested_ring : ℕ
  pub reason : String
  pub timestamp : Option Timestamp

pub record ProtoEscalationEvent : Type 0 where
  pub event_id : String
  pub agent_did : String
  pub approver_did : String
  pub from_ring : ℕ
  pub to_ring : ℕ
  pub outcome : String
  pub reason : String
  pub timestamp : Option Timestamp

pub record ApproveRequest : Type 0 where
  pub request_id : String
  pub approver_did : String
  pub signature_b64 : String

pub record DenyRequest : Type 0 where
  pub request_id : String
  pub approver_did : String
  pub cause : String

pub record SetPolicyRequest : Type 0 where
  pub agent_did : String
  pub policy_json : String

pub record PolicyResponse : Type 0 where
  pub success : Bool
  pub policy_json : String
  pub error : String

pub record RegisterRequest : Type 0 where
  pub identity : Option ProtoIdentity
  pub ring : ℕ

pub record PresenceReport : Type 0 where
  pub name : String
  pub address : String

pub record ShadowAlert : Type 0 where
  pub did : Option ProtoDid
  pub name : String
  pub detected_at : Option Timestamp
  pub transport_address : String

-- `encode_to_vec` of each request; one that has a single text or time is that field.
pub record Prost : Type 0 where
  pub escalation_request : ProtoEscalationRequest → List ℕ
  pub approve_request : ApproveRequest → List ℕ
  pub deny_request : DenyRequest → List ℕ
  pub list_pending_request : List ℕ
  pub get_policy_request : String → List ℕ
  pub set_policy_request : SetPolicyRequest → List ℕ
  pub register_request : RegisterRequest → List ℕ
  pub get_attestation_request : String → List ℕ
  pub presence_report : PresenceReport → List ℕ
  pub watch_shadows_request : Option Timestamp → List ℕ
