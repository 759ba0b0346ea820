-- ===== src/Daemon/Gateway/State.antt =====
-- crates/daemon/src/gateway.rs: the gateway's state, its setup, and what one request finds outside.
use microsoft_agt_rust.Prelude.{ℕ, String, Option, List}
use microsoft_agt_rust.Prelude.Result.{Result}
use microsoft_agt_rust.Prelude.Map.{HashMap}
use microsoft_agt_rust.Platform.{Platform}
use microsoft_agt_rust.Identity.Registry.{AgentRegistry}
use microsoft_agt_rust.Audit.{AuditJson}
use microsoft_agt_rust.Compliance.{ComplianceRule}
use microsoft_agt_rust.Compliance.Log.{FileActionLog, AppendIo}
use microsoft_agt_rust.Rings.Escalation.{EscalationManager}
use microsoft_agt_rust.Mcp.{LoadPolicy}
use microsoft_agt_rust.Mcp.Json.{Value}

pub record JsonRpcRequest : Type 0 where
  pub method : String
  pub params : Option Value

-- A status code with a text.
abbrev pub HttpError : Type 0
HttpError = ℕ × String

-- What one request finds outside the handler's state: its headers and body (with the result of
-- parsing it), the registry, the policy store at the two times when it is read, the clock readings,
-- the UUIDs drawn, the outcome of a write to the action log, and the upstream server's answer.
pub record GatewayCall : Type 0 where
  pub did_header : Option String
  pub signature_header : Option String
  pub body : List ℕ
  pub payload : Result String JsonRpcRequest
  pub registry : AgentRegistry
  pub rate_policy : LoadPolicy
  pub call_policy : LoadPolicy
  pub verified_at : ℕ
  pub limited_at : ℕ
  pub checked_at : ℕ
  pub requested_at : ℕ
  pub stamped_at : ℕ
  pub record_id : String
  pub escalation_id : String
  pub log_io : AppendIo
  pub upstream : Result String Value

-- `GatewayState` with the parts of `ServerState` that the handler writes, and the bodies that have been
-- sent upstream.
pub record GatewayState : Type 0 where
  pub last_requests : HashMap ℕ
  pub escalation_manager : EscalationManager
  pub action_log : FileActionLog
  pub forwarded : List (List ℕ)

-- What does not change from request to request: the libraries, serde's JSON of audit records and of
-- the answer to an escalation, `Debug` of a duration, the compliance rules, the registry's key.
pub record Setup : Type 0 where
  pub platform : Platform
  pub audit_json : AuditJson
  pub escalation_json : String → String → String
  pub debug : ℕ → String
  pub rules : List ComplianceRule
  pub registry_pubkey : String
