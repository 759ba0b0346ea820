-- ===== src/Grpc/Escalations.antt =====
-- `EscalationServiceImpl` of crates/daemon/src/grpc/escalation.rs.
pub mod Authentic
pub mod Policies
mod Tests
use Prim.Native.String.{◌++◌ as str_append}
use microsoft_agt_rust.Prelude.{ℕ, Bool, true, String, Option, none, some, List, map}
use microsoft_agt_rust.Prelude.Result.{Result, ok, err, map_err, ok_or, ◌>>=◌, ◌>>◌}
use microsoft_agt_rust.Prelude.Map
use microsoft_agt_rust.Platform.{Platform}
use microsoft_agt_rust.Mcp.{McpPolicy}
use microsoft_agt_rust.Mcp.Store.{PolicyJson, PolicyStore}
use microsoft_agt_rust.Rings.Escalation
use microsoft_agt_rust.Rings.Escalation.{EscalationManager, Sinks, Clocks, pending_requests}
use microsoft_agt_rust.Grpc.Proto.{
  Status, status, invalid_argument, internal, failed_precondition, ProtoEscalationRequest,
  ProtoEscalationEvent, ApproveRequest, DenyRequest, SetPolicyRequest, PolicyResponse, Prost,
}
use microsoft_agt_rust.Grpc.Convert.{
  Chrono, from_proto_escalation_request, to_proto_escalation_request, to_proto_escalation_event,
}
use microsoft_agt_rust.Grpc.Call.{Call, authenticate}

pub record EscalationService (S : Type 0) : Type 0 where
  pub manager : EscalationManager
  pub policies : S

-- What does not change from call to call. `parse_str` is `Uuid::parse_str`.
pub record Setup (S : Type 0) : Type 0 where
  pub platform : Platform
  pub prost : Prost
  pub chrono : Chrono
  pub policy_json : PolicyJson
  pub policy_store : PolicyStore S
  pub parse_str : String → Option String
  pub registry_pubkey : String

module _ {S : Type 0} (u : Setup S) (call : Call) where
  -- `request_escalation`, with the identifier that is drawn.
  pub request_escalation :
      String
      → ProtoEscalationRequest
      → EscalationService S
      → Result Status String × EscalationService S
  request_escalation event_id inner s =
      let checked = (do
        _ ← authenticate u.platform u.registry_pubkey call (u.prost.escalation_request inner)
        from_proto_escalation_request u.chrono inner) in
      elim checked [
        | err e ↦ (err e, s)
        | ok domain_req ↦
            let (request_id, m) = Escalation.request_escalation event_id domain_req s.manager in
            (ok request_id, record s { manager = m })
      ]

  -- approve
  pub approve :
      Clocks
      → Sinks
      → ApproveRequest
      → EscalationService S
      → Result Status ProtoEscalationEvent × EscalationService S
  approve t sinks inner s =
      let checked : Result Status (String × List ℕ) = (do
        _ ← authenticate u.platform u.registry_pubkey call (u.prost.approve_request inner)
        request_id ←
            ok_or (status invalid_argument "Invalid request_id UUID") (u.parse_str inner.request_id)
        approval_sig ←
            map_err (λ _. status invalid_argument "Invalid Base64 in signature")
              (u.platform.decode inner.signature_b64)
        ok (request_id, approval_sig)) in
      elim checked [
        | err e ↦ (err e, s)
        | ok (request_id, approval_sig) ↦
            let (event, m) =
              Escalation.approve u.platform t sinks request_id inner.approver_did approval_sig
                call.later s.manager in
            (
              (map_err (status failed_precondition) event >>= λ e.
                  ok (to_proto_escalation_event u.chrono e)),
              record s { manager = m },
            )
      ]

  -- deny
  pub deny :
      ℕ
      → Sinks
      → DenyRequest
      → EscalationService S
      → Result Status ProtoEscalationEvent × EscalationService S
  deny now sinks inner s =
      let checked = (do
        _ ← authenticate u.platform u.registry_pubkey call (u.prost.deny_request inner)
        ok_or (status invalid_argument "Invalid request_id UUID") (u.parse_str inner.request_id)) in
      elim checked [
        | err e ↦ (err e, s)
        | ok request_id ↦
            let (event, m) =
              Escalation.deny now sinks request_id inner.approver_did inner.cause s.manager in
            (
              (map_err (status failed_precondition) event >>= λ e.
                  ok (to_proto_escalation_event u.chrono e)),
              record s { manager = m },
            )
      ]

  -- list_pending
  pub list_pending : EscalationService S → Result Status (List ProtoEscalationRequest)
  list_pending s = do
    _ ← authenticate u.platform u.registry_pubkey call u.prost.list_pending_request
    ok (map (λ e. to_proto_escalation_request u.chrono e.1) (pending_requests s.manager))

  -- The answer of `get_policy` to what the store has.
  abbrev pub policy_response : Option McpPolicy → PolicyResponse
  policy_response (some policy) = record {
    success = true;
    policy_json = u.policy_json.to_string policy;
    error = "";
  }
  policy_response none = record { success = true; policy_json = ""; error = "Policy not found" }

  -- `get_policy`, of the agent that the message names.
  pub get_policy : String → EscalationService S → Result Status PolicyResponse
  get_policy agent_did s = do
    _ ← authenticate u.platform u.registry_pubkey call (u.prost.get_policy_request agent_did)
    policy ← map_err (status internal) (u.policy_store.load_policy agent_did s.policies)
    ok (policy_response policy)

  -- set_policy
  pub set_policy :
      SetPolicyRequest → EscalationService S → Result Status PolicyResponse × EscalationService S
  set_policy inner s =
      let checked = (do
        _ ← authenticate u.platform u.registry_pubkey call (u.prost.set_policy_request inner)
        map_err (λ e. status invalid_argument (str_append "Invalid policy JSON: " e))
            (u.policy_json.from_str inner.policy_json)) in
      elim checked [
        | err e ↦ (err e, s)
        | ok policy ↦
            let (saved, store) = u.policy_store.save_policy inner.agent_did policy s.policies in
            (
              (do
                map_err (status internal) saved
                ok (record { success = true; policy_json = inner.policy_json; error = "" })),
              record s { policies = store },
            )
      ]
