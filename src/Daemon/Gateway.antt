-- ===== src/Daemon/Gateway.antt =====
-- crates/daemon/src/gateway.rs: the handler that stands between agents and the MCP server. One call
-- of `governed` or `forward` is one request. Log lines are not modelled.
pub mod State
pub mod RateLimit
pub mod Ungoverned
pub mod Authorized
mod Tests
use Prim.Native.String.{◌++◌ as str_append}
use microsoft_agt_rust.Prelude.{
  ℕ, ◌+◌, ◌-◌, ◌/◌, ◌^◌, max, Bool, true, false, not, String, Option, none, some, List, [], ◌∷◌,
  ◌++◌, ltb, str_eq, if◌then◌else◌,
}
use microsoft_agt_rust.Prelude.Result.{Result, ok, err, map_err, ok_or, ◌>>=◌, ◌>>◌}
use microsoft_agt_rust.Prelude.Map
use microsoft_agt_rust.Prelude.Map.{HashMap}
use microsoft_agt_rust.Platform.{Platform}
use microsoft_agt_rust.Identity.Ring
use microsoft_agt_rust.Identity.Ring.{PrivilegeRing}
use microsoft_agt_rust.Identity.Registry.{AgentRegistry}
use microsoft_agt_rust.Audit.{
  DataCategory, unknown, ActionLogRecord, ActionOutcome, permitted, denied, AuditJson,
}
use microsoft_agt_rust.Compliance.{ComplianceInput, ComplianceRule, is_compliant, ActionRecord}
use microsoft_agt_rust.Compliance.Log.{FileActionLog, AppendIo, append, load_history}
use microsoft_agt_rust.Rings.Escalation.{EscalationRequest, EscalationManager, request_escalation}
use microsoft_agt_rust.Mcp
use microsoft_agt_rust.Mcp.{
  McpPolicy, EnforcementDecision, allow, deny, escalate_required, LoadPolicy, PolicyEnforcer,
  evaluate, classify,
}
use microsoft_agt_rust.Mcp.Json
use microsoft_agt_rust.Mcp.Json.{Value, str_arg}
use microsoft_agt_rust.Daemon.Auth.{verify_request_signature}
use microsoft_agt_rust.Daemon.Gateway.RateLimit.{rate_limit}
pub use microsoft_agt_rust.Daemon.Gateway.State.{
  JsonRpcRequest, HttpError, GatewayCall, GatewayState, Setup,
}

or_default : Option McpPolicy → McpPolicy
or_default none = Mcp.default
or_default (some policy) = policy

tool_of : Option Value → Option String
tool_of none = none
tool_of (some params) = str_arg "name" params

get_or_null : Option Value → Value
get_or_null none = Json.null
get_or_null (some v) = v

args_of : Option Value → Value
unfolding get_or_null
args_of none = Json.null
args_of (some params) = get_or_null (Json.get "arguments" params)

-- A record of the action log as the handler makes it.
abbrev pub action_record :
    GatewayCall → String → String → DataCategory → ActionOutcome → ActionLogRecord
action_record c did tool category outcome = record {
  record_id = c.record_id;
  agent_did = did;
  action = tool;
  resource_category = category;
  timestamp = c.stamped_at;
  outcome = outcome;
  prev_hash = "";
}

module _ (u : Setup) (c : GatewayCall) where
  log_action : ActionLogRecord → GatewayState → GatewayState
  log_action r s = record s {
    action_log = (append u.platform u.audit_json c.log_io r s.action_log).1;
  }

  -- log_denial
  pub log_denial : String → String → String → DataCategory → GatewayState → GatewayState
  unfolding log_action
  log_denial did tool reason category s =
      log_action (action_record c did tool category (denied "Governance" reason)) s

  -- The call of the upstream server, with the original body.
  pub forward : GatewayState → Result HttpError Value × GatewayState
  forward s =
      (map_err (λ e. (502, e)) c.upstream, record s { forwarded = s.forwarded ++ c.body ∷ [] })

  -- The steps 3 and 4 of a tool call: the success is logged if there is an answer.
  forward_tool :
      String → String → DataCategory → GatewayState → Result HttpError Value × GatewayState
  unfolding forward log_action
  forward_tool did tool category s =
      let (answer, s') = forward s in
      elim answer [
        | err e ↦ (err e, s')
        | ok v ↦ (ok v, log_action (action_record c did tool category permitted) s')
      ]

  -- The branch `EnforcementDecision::Allow`: compliance, and then the upstream server.
  comply :
      String
      → PrivilegeRing
      → String
      → DataCategory
      → GatewayState
      → Result HttpError Value × GatewayState
  unfolding forward_tool log_denial
  comply did ring tool category s = elim (load_history u.audit_json did s.action_log.lines) [
    | err e ↦ (err (500, e), s)
    | ok history ↦
        let input : ComplianceInput = record {
          agent_did = did;
          agent_ring = ring;
          agent_capabilities = [];
          action = tool;
          resource_category = category;
          action_history = history;
          jurisdiction = none;
        } in
        if not (is_compliant u.debug c.checked_at u.rules input)
        then (
          err (403, "Compliance violation detected"),
          log_denial did tool "Compliance violation detected" category s,
        )
        else forward_tool did tool category s
  ]

  -- The branch `EnforcementDecision::EscalateRequired`.
  escalate :
      String
      → PrivilegeRing
      → String
      → PrivilegeRing
      → GatewayState
      → Result HttpError Value × GatewayState
  unfolding log_denial request_escalation
  escalate did ring tool requested s =
      let reason = str_append "Tool " (
        str_append tool (
          str_append " requires "
            (str_append (Ring.display requested) " ring. Escalation triggered."))) in
      let request : EscalationRequest = record {
        agent_did = did;
        current_ring = ring;
        requested_ring = requested;
        reason = str_append "Auto-escalation for tool: " tool;
        timestamp = c.requested_at;
      } in
      let (id, manager) = request_escalation c.escalation_id request s.escalation_manager in
      (
        err (202, u.escalation_json id reason),
        log_denial did tool reason unknown (record s { escalation_manager = manager }),
      )

  -- The match on the decision of the enforcer.
  obey :
      PolicyEnforcer
      → EnforcementDecision
      → String
      → PrivilegeRing
      → String
      → Value
      → GatewayState
      → Result HttpError Value × GatewayState
  unfolding comply escalate log_denial
  obey enforcer (deny reason) did ring tool args s =
      (err (403, reason), log_denial did tool reason unknown s)
  obey enforcer (escalate_required requested) did ring tool args s =
      escalate did ring tool requested s
  obey enforcer allow did ring tool args s = comply did ring tool (classify enforcer tool args) s

  -- What a tool call needs before the rate limit: its name, the agent's ring, the agent's policy.
  pub tool_call : String → Option Value → Result HttpError (String × PrivilegeRing × McpPolicy)
  unfolding tool_of or_default
  tool_call did params = do
    tool ← ok_or (400, "Missing tool name in tools/call") (tool_of params)
    found ← map_err (λ e. (500, e)) (c.registry.get_ring did)
    ring ← ok_or (401, "Agent not registered") found
    policy ← map_err (λ e. (500, e)) (c.rate_policy did)
    ok (tool, ring, or_default policy)

  -- The handler behind the check of the method: a tool call.
  pub governed : String → Option Value → GatewayState → Result HttpError Value × GatewayState
  unfolding tool_call rate_limit obey args_of
  governed did params s = elim (tool_call did params) [
    | err e ↦ (err e, s)
    | ok (tool, ring, policy) ↦
        elim (rate_limit c.limited_at policy.max_requests_per_second did s.last_requests) [
          | none ↦ (err (429, "Rate limit exceeded"), s)
          | some last_requests ↦
              let enforcer = Mcp.new in
              let args = args_of params in
              obey enforcer (evaluate enforcer c.call_policy did ring tool args) did ring tool args
                (record s { last_requests = last_requests })
        ]
  ]

  -- The checks at the head of `mcp_proxy_handler`.
  pub authenticate : Result HttpError (String × JsonRpcRequest)
  authenticate = do
    did ← ok_or (401, "Missing X-AGT-Agent-DID") c.did_header
    signature_b64 ← ok_or (401, "Missing X-AGT-Signature") c.signature_header
    signature ←
        map_err (λ _. (400, "Invalid Base64 in signature")) (u.platform.decode signature_b64)
    map_err (λ e. (401, e))
        (verify_request_signature u.platform c.verified_at did signature c.body c.registry
          u.registry_pubkey)
    payload ← map_err (λ e. (400, str_append "Invalid JSON: " e)) c.payload
    ok (did, payload)

  -- mcp_proxy_handler
  pub mcp_proxy_handler : GatewayState → Result HttpError Value × GatewayState
  unfolding authenticate governed forward
  mcp_proxy_handler s = elim authenticate [
    | err e ↦ (err e, s)
    | ok (did, payload) ↦
        if str_eq payload.method "tools/call" then governed did payload.params s else forward s
  ]
