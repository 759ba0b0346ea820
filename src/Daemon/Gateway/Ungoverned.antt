-- ===== src/Daemon/Gateway/Ungoverned.antt =====
-- What the gateway enforces: it builds its enforcer with no tools, so every tool is unknown to it.
use microsoft_agt_rust.Prelude.{
  Bool-cases, if◌then◌else◌, ℕ, ◌≡◌, true, String, Option, none, some, List, [], ◌∷◌, ◌++◌, arith,
  Option-cases, inl, inr,
}
use microsoft_agt_rust.Prelude.Result.{ok, err, map_err, Result-cases}
use microsoft_agt_rust.Prelude.Map.{HashMap}
use microsoft_agt_rust.Identity.Ring.{PrivilegeRing}
use microsoft_agt_rust.Audit.{DataCategory, unknown}
use microsoft_agt_rust.Compliance.{ComplianceInput, default_policy, is_compliant, ActionRecord}
use microsoft_agt_rust.Compliance.Log.{load_history}
use microsoft_agt_rust.Mcp
use microsoft_agt_rust.Mcp.{
  McpPolicy, not_registered, evaluate, classify, allow, deny, escalate_required,
}
use microsoft_agt_rust.Mcp.Evaluate.{evaluate-new, allows_unknown}
use microsoft_agt_rust.Mcp.Classify.{classify-new}
use microsoft_agt_rust.Mcp.Json.{Value}
use microsoft_agt_rust.Daemon.Gateway.RateLimit.{rate_limit}
use microsoft_agt_rust.Daemon.Gateway.{
  GatewayCall, GatewayState, Setup, log_action, log_denial, forward, forward_tool, comply, obey,
  tool_call, governed, args_of, authenticate, mcp_proxy_handler,
}

unknown-is_compliant :
    (debug : ℕ → String) (now : ℕ) (i : ComplianceInput)
    → i.resource_category ≡ unknown
    → is_compliant debug now default_policy i ≡ true
unfolding is_compliant
unknown-is_compliant debug now i e = ground (arith, e)

module _ (u : Setup) (c : GatewayCall) (did : String) (params : Option Value)
    (s : GatewayState) where
  comply-escalations :
      (ring : PrivilegeRing) (tool : String) (category : DataCategory) (s : GatewayState)
      → (comply u c did ring tool category s).1.escalation_manager ≡ s.escalation_manager
  unfolding comply forward_tool forward log_action log_denial
  comply-escalations ring tool category s =
      elim (Result-cases (load_history u.audit_json did s.action_log.lines)) [
        | inl (h, e) ↦ elim (Result-cases c.upstream) [
          | inl (_, w) ↦ ground (arith, e, w)
          | inr (_, w) ↦ ground (arith, e, w)
        ]
        | inr (_, e) ↦ ground (arith, e)
      ]

  governed-escalations : (governed u c did params s).1.escalation_manager ≡ s.escalation_manager
  unfolding governed obey log_denial log_action
  governed-escalations = elim (Result-cases (tool_call u c did params)) [
    | inr (_, e) ↦ ground (arith, e)
    | inl ((tool, ring, policy), e) ↦
        elim (Option-cases
          (rate_limit c.limited_at policy.max_requests_per_second did s.last_requests)) [
            | inl l ↦ ground (arith, e, l)
            | inr (last, l) ↦
                let d = evaluate-new c.call_policy did ring tool (args_of params) in
                elim (Bool-cases (allows_unknown (c.call_policy did))) [
                  | inl b ↦ ground (
                    arith,
                    e,
                    l,
                    d,
                    b,
                    comply-escalations ring tool (classify Mcp.new tool (args_of params))
                        (record s { last_requests = last }),
                  )
                  | inr b ↦ ground (arith, e, l, d, b)
                ]
          ]
  ]

  comply_open :
      (ring : PrivilegeRing) (tool : String) (category : DataCategory) (s : GatewayState)
      (history : List ActionRecord)
      → category ≡ unknown
      → u.rules ≡ default_policy
      → load_history u.audit_json did s.action_log.lines ≡ ok history
      → ((comply u c did ring tool category s).0 ≡ map_err (λ e. (502, e)) c.upstream)
        × ((comply u c did ring tool category s).1.forwarded ≡ s.forwarded ++ c.body ∷ [])
  unfolding comply forward_tool forward log_action
  comply_open ring tool category s history e rules h =
      let input : ComplianceInput = record {
        agent_did = did;
        agent_ring = ring;
        agent_capabilities = [];
        action = tool;
        resource_category = category;
        action_history = history;
        jurisdiction = none;
      } in
      let passes : is_compliant u.debug c.checked_at u.rules input ≡ true =
        rw rules (unknown-is_compliant u.debug c.checked_at input e) in
      elim (Result-cases c.upstream) [
        | inl (_, w) ↦ ground (arith, h, passes, w)
        | inr (_, w) ↦ ground (arith, h, passes, w)
      ]

  -- A tool call of a registered agent that names its tool and does not come too soon, under the
  -- default rules and with a log that can be read, is decided by one flag alone. If the agent's policy
  -- is found and allows unknown tools, the body goes upstream and the upstream's answer is the answer,
  -- whatever the tool, the agent's ring, the denylist and the allowlist; otherwise nothing goes
  -- upstream and the answer is 403.
  pub governed_by_flag :
      (tool : String) (ring : PrivilegeRing) (policy : McpPolicy) (last : HashMap ℕ)
      (history : List ActionRecord)
      → tool_call u c did params ≡ ok (tool, ring, policy)
      → rate_limit c.limited_at policy.max_requests_per_second did s.last_requests ≡ some last
      → u.rules ≡ default_policy
      → load_history u.audit_json did s.action_log.lines ≡ ok history
      → let flag = allows_unknown (c.call_policy did) in
        ((governed u c did params s).0
          ≡ (if flag then map_err (λ e. (502, e)) c.upstream else err (403, not_registered)))
        × ((governed u c did params s).1.forwarded
            ≡ (if flag then s.forwarded ++ c.body ∷ [] else s.forwarded))
  unfolding governed obey log_denial log_action
  governed_by_flag tool ring policy last history e l rules hist =
      let args = args_of params in
      let d = evaluate-new c.call_policy did ring tool args in
      let opened =
        comply_open ring tool (classify Mcp.new tool args) (record s { last_requests = last })
          history (classify-new tool args) rules hist in
      elim (Bool-cases (allows_unknown (c.call_policy did))) [
        | inl b ↦ ground (arith, e, l, d, b, opened)
        | inr b ↦ ground (arith, e, l, d, b)
      ]

-- No request through the gateway ever asks for an escalation.
pub mcp_proxy_handler-escalations :
    (u : Setup) (c : GatewayCall) (s : GatewayState)
    → (mcp_proxy_handler u c s).1.escalation_manager ≡ s.escalation_manager
unfolding mcp_proxy_handler forward
mcp_proxy_handler-escalations u c s = elim (Result-cases (authenticate u c)) [
  | inr (_, e) ↦ ground (arith, e)
  | inl ((did, payload), e) ↦ ground (arith, e, governed-escalations u c did payload.params s)
]
