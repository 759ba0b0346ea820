-- ===== src/Mcp/Evaluate.antt =====
-- When a tool call is allowed, escalated or denied.
use microsoft_agt_rust.Prelude.{
  Bool, if◌then◌else◌, ◌≡◌, ◌≢◌, ◌≤◌, ◌<◌, ◌↔◌, ◌⊎◌, inl, inr, refl, true, false, String, Option,
  none, some, List, [], ◌∷◌, contains, is_empty, arith, Option-cases, Bool-cases, ltb,
}
use microsoft_agt_rust.Prelude.Result.{Result, ok, err}
use microsoft_agt_rust.Prelude.Map
use microsoft_agt_rust.Identity.Ring.{PrivilegeRing, rank}
use microsoft_agt_rust.Rings.Enforcer.{can_execute}
use microsoft_agt_rust.Mcp.Json.{Value}
use microsoft_agt_rust.Mcp.{
  McpTool, McpPolicy, allow, deny, escalate_required, LoadPolicy, PolicyEnforcer, evaluate, new,
  not_registered, evaluate_tool, evaluate_unknown, evaluate_policy,
}

-- A policy under which a tool may be called: the denylist wins, and an empty allowlist allows all.
abbrev pub Permits : McpPolicy → String → Type 0
Permits policy tool =
    (contains policy.denylist tool ≡ false)
    × ((policy.allowed_tools ≡ []) ⊎ (contains policy.allowed_tools tool ≡ true))

is_empty_nil : (xs : List String) → is_empty xs ≡ true → xs ≡ []
is_empty_nil [] h = refl
is_empty_nil (x ∷ xs) h = cc

module _ (e : PolicyEnforcer) (load_policy : LoadPolicy) (did : String) (ring : PrivilegeRing)
    (tool_name : String) (args : Value) where
  policy_sound :
      (r : Result String (Option McpPolicy))
      → evaluate_policy tool_name r ≡ allow
      → (policy : McpPolicy) × (r ≡ ok (some policy)) × Permits policy tool_name
  unfolding evaluate_policy
  policy_sound (err x) h = cc
  policy_sound (ok none) h = cc
  policy_sound (ok (some policy)) h = (
    policy,
    refl,
    (
      ground arith,
      elim (Bool-cases (is_empty policy.allowed_tools)) [
        | inl q ↦ inl (is_empty_nil policy.allowed_tools q)
        | inr q ↦ inr (ground (arith, q))
      ],
    ),
  )

  policy_complete :
      (policy : McpPolicy)
      → Permits policy tool_name
      → evaluate_policy tool_name (ok (some policy)) ≡ allow
  unfolding evaluate_policy
  policy_complete policy h = ground (arith, h)

  unknown_sound :
      (r : Result String (Option McpPolicy))
      → evaluate_unknown r ≡ allow
      → (policy : McpPolicy) × (r ≡ ok (some policy)) × (policy.allow_unknown_tools ≡ true)
  unfolding evaluate_unknown
  unknown_sound (err x) h = cc
  unknown_sound (ok none) h = cc
  unknown_sound (ok (some policy)) h = (policy, refl, ground arith)

  unknown_no_escalation :
      (x : Result String (Option McpPolicy)) (r : PrivilegeRing)
      → evaluate_unknown x ≢ escalate_required r
  unfolding evaluate_unknown
  unknown_no_escalation (err x) r h = cc
  unknown_no_escalation (ok none) r h = cc
  unknown_no_escalation (ok (some policy)) r h = ground (arith, h)

  policy_no_escalation :
      (x : Result String (Option McpPolicy)) (r : PrivilegeRing)
      → evaluate_policy tool_name x ≢ escalate_required r
  unfolding evaluate_policy
  policy_no_escalation (err x) r h = cc
  policy_no_escalation (ok none) r h = cc
  policy_no_escalation (ok (some policy)) r h = ground (arith, h)

  escalated :
      (tool : McpTool) (r : PrivilegeRing) (x : Result String (Option McpPolicy))
      → evaluate_tool did ring tool_name tool x ≡ escalate_required r
      → (tool.required_ring ≡ r) × (rank r < rank ring)
  unfolding evaluate_tool can_execute
  escalated tool r x h = elim (Bool-cases (ltb (rank tool.required_ring) (rank ring))) [
    | inl b ↦ ground (arith, b, h)
    | inr b ↦ absurd (policy_no_escalation x r (ground (arith, b, h)))
  ]

  -- A call of a registered tool is allowed exactly when the agent's ring is at least as privileged as
  -- the tool's and the agent has a policy that permits the tool: it is not on the denylist, and the
  -- allowlist is empty or names it.
  pub evaluate_allow_iff :
      (tool : McpTool)
      → Map.get e.tools tool_name ≡ some tool
      → (evaluate e load_policy did ring tool_name args ≡ allow) ↔ (
          (rank ring ≤ rank tool.required_ring)
          × ((policy : McpPolicy) × (load_policy did ≡ ok (some policy))
              × Permits policy tool_name))
  unfolding evaluate evaluate_tool can_execute
  evaluate_allow_iff tool q = (
    λ h. (ground (arith, q, h), policy_sound (load_policy did) (ground (arith, q, h))),
    λ h. ground (arith, q, h.0, h.1.1, policy_complete h.1.0 h.1.2),
  )

  -- A call of a tool that is not registered is never escalated; it is allowed exactly when the agent
  -- has a policy that allows unknown tools.
  pub evaluate_unknown_iff :
      Map.get e.tools tool_name ≡ none
      → ((evaluate e load_policy did ring tool_name args ≡ allow) ↔ (
          (policy : McpPolicy) × (load_policy did ≡ ok (some policy))
          × (policy.allow_unknown_tools ≡ true)))
        × ((r : PrivilegeRing)
            → evaluate e load_policy did ring tool_name args ≢ escalate_required r)
  unfolding evaluate evaluate_unknown
  evaluate_unknown_iff q = (
    (λ h. unknown_sound (load_policy did) (ground (arith, q, h)), λ h. ground (arith, q, h.1, h.2)),
    λ r h. unknown_no_escalation (load_policy did) r (ground (arith, q, h)),
  )

  -- A call is answered by a request for escalation to the ring `r` exactly when the tool is registered
  -- with `r` as its ring and the agent's ring is less privileged than `r`.
  pub evaluate_escalate_iff :
      (r : PrivilegeRing)
      → (evaluate e load_policy did ring tool_name args ≡ escalate_required r) ↔ (
          (tool : McpTool) × (Map.get e.tools tool_name ≡ some tool)
          × (tool.required_ring ≡ r)
          × (rank r < rank ring))
  unfolding evaluate evaluate_tool evaluate_unknown can_execute evaluate_policy
  evaluate_escalate_iff r = elim (Option-cases (Map.get e.tools tool_name)) [
    | inl q ↦ (
      λ h. absurd (unknown_no_escalation (load_policy did) r (ground (arith, q, h))),
      λ h. absurd (ground (arith, q, h.1)),
    )
    | inr (tool, q) ↦ (
      λ h.
          let facts = escalated tool r (load_policy did) (ground (arith, q, h)) in
          (tool, q, facts.0, facts.1),
      λ h. ground (arith, q, h.1, h.2, h.3),
    )
  ]

-- Whether an agent's policy was found and allows unknown tools.
abbrev pub allows_unknown : Result String (Option McpPolicy) → Bool
allows_unknown (err e) = false
allows_unknown (ok none) = false
allows_unknown (ok (some policy)) = policy.allow_unknown_tools

unknown_by_flag :
    (found : Result String (Option McpPolicy))
    → evaluate_unknown found ≡ (if allows_unknown found then allow else deny not_registered)
unfolding evaluate_unknown
unknown_by_flag (err e) = refl
unknown_by_flag (ok none) = refl
unknown_by_flag (ok (some policy)) = refl

-- With no tool registered there are two answers, and only the flag for unknown tools tells them apart.
pub evaluate-new :
    (load_policy : LoadPolicy) (did : String) (ring : PrivilegeRing) (tool_name : String)
    (args : Value)
    → evaluate new load_policy did ring tool_name args
      ≡ (if allows_unknown (load_policy did) then allow else deny not_registered)
unfolding evaluate Map.get
evaluate-new load_policy did ring tool_name args = unknown_by_flag (load_policy did)
