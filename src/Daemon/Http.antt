-- ===== src/Daemon/Http.antt =====
-- crates/daemon/src/lib.rs: the authentication layer in front of the HTTP routes, and the handler
-- `execute_action`; the other handlers stand in the module of the routes.
pub mod Execute
pub mod Middleware
pub mod Routes
mod Tests
use microsoft_agt_rust.Prelude.{
  ℕ, Bool, true, false, String, Option, none, some, List, [], ◌∷◌, ◌++◌, str_eq, if◌then◌else◌,
}
use microsoft_agt_rust.Prelude.Result.{Result, ok, err, map_err, ok_or, ◌>>=◌, ◌>>◌}
use microsoft_agt_rust.Platform.{Platform}
use microsoft_agt_rust.Identity.Ring.{PrivilegeRing}
use microsoft_agt_rust.Identity.AgentId.{AgentDid}
use microsoft_agt_rust.Identity.Registry.{AgentRegistry}
use microsoft_agt_rust.Audit.{
  DataCategory, ActionLogRecord, ActionOutcome, permitted, denied, AuditJson,
}
use microsoft_agt_rust.Compliance.{
  ComplianceInput, ComplianceRule, ComplianceResult, compliant, not_applicable, violation, evaluate,
  is_compliant, ActionRecord,
}
use microsoft_agt_rust.Compliance.Log.{FileActionLog, AppendIo, append, load_history}
use microsoft_agt_rust.Discovery.{DiscoveryManager, Seen, active, passive, report_presence}
use microsoft_agt_rust.Daemon.Auth.{verify_request_signature, parse_did, not_registered}

abbrev pub HttpError : Type 0
HttpError = ℕ × String

-- The parts of `ServerState` that these handlers write.
pub record ServerState : Type 0 where
  pub discovery_manager : DiscoveryManager
  pub action_log : FileActionLog
  pub siem_exporter : Option (List ActionLogRecord)

-- What does not change from request to request.
pub record Setup : Type 0 where
  pub platform : Platform
  pub audit_json : AuditJson
  pub debug : ℕ → String
  pub rules : List ComplianceRule
  pub registry_pubkey : String

-- What one request finds outside the state.
pub record HttpCall : Type 0 where
  pub did_header : Option String
  pub signature_header : Option String
  pub peer_addr : String
  -- `axum::body::to_bytes`
  pub body : Result String (List ℕ)
  pub registry : AgentRegistry
  pub verified_at : ℕ
  pub seen : Seen
  pub evaluated_at : ℕ
  pub checked_at : ℕ
  pub stamped_at : ℕ
  pub record_id : String
  pub log_io : AppendIo
  pub exported : Bool

pub record ExecuteRequest : Type 0 where
  pub action : String
  pub resource_category : DataCategory
  pub jurisdiction : Option String

pub record ExecuteResponse : Type 0 where
  pub success : Bool
  pub results : List ComplianceResult

-- The passive report that an unregistered caller leaves, if its DID can be read.
report_stranger : HttpCall → String → ServerState → ServerState
report_stranger c did s = elim (parse_did did) [
  | err _ ↦ s
  | ok agent ↦ record s {
    discovery_manager =
        report_presence c.seen agent "unknown" c.peer_addr passive s.discovery_manager;
  }
]

-- The DID and the signature that the headers carry, and the body.
pub presented : Setup → HttpCall → Result HttpError (String × List ℕ × List ℕ)
presented u c = do
  did ← ok_or (401, "Missing X-AGT-Agent-DID") c.did_header
  signature_b64 ← ok_or (401, "Missing X-AGT-Signature") c.signature_header
  signature ← map_err (λ _. (400, "Invalid Base64 in signature")) (u.platform.decode signature_b64)
  body ← map_err (λ e. (400, e)) c.body
  ok (did, signature, body)

-- `auth_middleware` up to the call of the handler behind it: the request goes on, or is answered.
pub auth_middleware : Setup → HttpCall → ServerState → Result HttpError (Unit {0}) × ServerState
unfolding report_stranger presented
auth_middleware u c s = elim (presented u c) [
  | err e ↦ (err e, s)
  | ok (did, signature, body) ↦
      elim (verify_request_signature u.platform c.verified_at did signature body c.registry
        u.registry_pubkey) [
          | ok _ ↦ (ok tt, s)
          | err e ↦ (err (401, e), if str_eq e not_registered then report_stranger c did s else s)
        ]
]

first_violation : List ComplianceResult → Option (String × String)
first_violation [] = none
first_violation (violation rule reason ∷ rest) = some (rule, reason)
first_violation (compliant ∷ rest) = first_violation rest
first_violation (not_applicable ∷ rest) = first_violation rest

denial : Option (String × String) → ActionOutcome
denial none = denied "Unknown" "Access denied"
denial (some (rule, reason)) = denied rule reason

export_action :
    Bool → ActionLogRecord → Option (List ActionLogRecord) → Option (List ActionLogRecord)
export_action exported r none = none
export_action exported r (some sent) = if exported then some (sent ++ r ∷ []) else some sent

-- The input of the compliance check; the capabilities are a placeholder.
abbrev pub input_of : String → PrivilegeRing → ExecuteRequest → List ActionRecord → ComplianceInput
input_of did ring req history = record {
  agent_did = did;
  agent_ring = ring;
  agent_capabilities = [];
  action = req.action;
  resource_category = req.resource_category;
  action_history = history;
  jurisdiction = req.jurisdiction;
}

module _ (u : Setup) (c : HttpCall) (req : ExecuteRequest) where
  -- The context that `execute_action` gathers.
  pub context : ServerState → Result HttpError (String × PrivilegeRing × List ActionRecord)
  context s = do
    did ← ok_or (401, "Missing X-AGT-Agent-DID") c.did_header
    found ← map_err (λ e. (500, e)) (c.registry.get_ring did)
    ring ← ok_or (401, "Agent not registered") found
    history ← map_err (λ e. (500, e)) (load_history u.audit_json did s.action_log.lines)
    ok (did, ring, history)

  -- The outcome that is logged.
  pub outcome_of : ComplianceInput → ActionOutcome
  unfolding first_violation denial
  outcome_of input =
      if is_compliant u.debug c.checked_at u.rules input
      then permitted
      else denial (first_violation (evaluate u.debug c.evaluated_at u.rules input))

  -- Steps 3 and 4: the record is appended, and then exported.
  log_and_respond :
      String → ComplianceInput → ServerState → Result HttpError ExecuteResponse × ServerState
  unfolding outcome_of export_action
  log_and_respond did input s =
      let r : ActionLogRecord = record {
        record_id = c.record_id;
        agent_did = did;
        action = req.action;
        resource_category = req.resource_category;
        timestamp = c.stamped_at;
        outcome = outcome_of input;
        prev_hash = "";
      } in
      let (written, log) = append u.platform u.audit_json c.log_io r s.action_log in
      elim written [
        | err e ↦ (err (500, e), record s { action_log = log })
        | ok _ ↦ (
          ok (record {
            success = is_compliant u.debug c.checked_at u.rules input;
            results = evaluate u.debug c.evaluated_at u.rules input;
          }),
          record s { action_log = log; siem_exporter = export_action c.exported r s.siem_exporter },
        )
      ]

  -- execute_action
  pub execute_action : ServerState → Result HttpError ExecuteResponse × ServerState
  unfolding context log_and_respond
  execute_action s = elim (context s) [
    | err e ↦ (err e, s)
    | ok (did, ring, history) ↦ log_and_respond did (input_of did ring req history) s
  ]
