-- ===== src/Daemon/Http/Routes/Approvals.antt =====
-- What the answer to an approval over HTTP says.
use microsoft_agt_rust.Prelude.{ℕ, ◌≡◌, ◌≢◌, refl, true, String, none, some, List, [], ◌∷◌, ◌++◌}
use microsoft_agt_rust.Prelude.Result.{ok}
use microsoft_agt_rust.Prelude.Map
use microsoft_agt_rust.Platform.{Platform}
use microsoft_agt_rust.Identity.Ring.{PrivilegeRing, system}
use microsoft_agt_rust.Identity.Registry.{AgentRegistry}
use microsoft_agt_rust.Rings.Escalation.{
  EscalationManager, EscalationRequest, EscalationEvent, EscalationOutcome, approved, denied,
  decide, not_system, to_event, Sinks, Clocks,
}
use microsoft_agt_rust.Rings.Escalation.Approve.{
  IsApprovable, decide_complete, decide-not_system, approve-decide,
}
use microsoft_agt_rust.Daemon.Http.Routes.{approve_escalation}

module _ (p : Platform) (t : Clocks) (sinks : Sinks) (id : String) (m : EscalationManager)
    (r : EscalationRequest) (log : List EscalationEvent) (pending : Map.get m.pending id ≡ some r)
    (logs : m.audit_log ≡ some log) (writes : sinks.log_written ≡ true) where
  -- A decision is answered with 200, whatever it is.
  approve_escalation-decide :
      (registry : AgentRegistry) (approver_did signature_b64 : String) (signature : List ℕ)
      (outcome : EscalationOutcome)
      → p.decode signature_b64 ≡ ok signature
      → decide p t id r approver_did signature registry m.registry_pubkey ≡ ok outcome
      → let (answer, m') = approve_escalation p t sinks registry id approver_did signature_b64 m in
        (answer ≡ ok 200)
        × (Map.get m'.pending id ≡ none)
        × (m'.audit_log ≡ some (log ++ to_event id r approver_did outcome t.stamped_at ∷ []))
  unfolding approve_escalation
  approve_escalation-decide registry approver_did signature_b64 signature outcome decoded decides =
      let (answers, gone, kept) =
        approve-decide p t sinks id approver_did signature registry m r outcome log pending logs
          writes decides in
      rw (approve_escalation, decoded, answers) (refl, gone, kept)

  -- Two approvals of the same pending request, with signatures that decode, where the audit log is
  -- configured and written: one that meets every condition of an approval, and one by an approver
  -- that is registered outside the System ring. The audit log gets an approval for the one and a
  -- denial for the other; but both are answered with 200, and both take the request away.
  pub approve_escalation_blind :
      (registry registry' : AgentRegistry)
      (approver_did approver_did' signature_b64 signature_b64' : String)
      (signature signature' : List ℕ) (ring : PrivilegeRing)
      → p.decode signature_b64 ≡ ok signature
      → p.decode signature_b64' ≡ ok signature'
      → IsApprovable p t sinks id r approver_did signature registry m
      → registry'.get_ring approver_did' ≡ ok (some ring)
      → ring ≢ system
      → let (answer, m₁) = approve_escalation p t sinks registry id approver_did signature_b64 m in
        let (answer', m₂) =
          approve_escalation p t sinks registry' id approver_did' signature_b64' m in
        ((answer ≡ ok 200)
          × (Map.get m₁.pending id ≡ none)
          × (m₁.audit_log ≡ some (log ++ to_event id r approver_did approved t.stamped_at ∷ [])))
        × ((answer' ≡ ok 200)
            × (Map.get m₂.pending id ≡ none)
            × (m₂.audit_log
                ≡ some (log ++ to_event id r approver_did' (denied not_system) t.stamped_at ∷ [])))
  approve_escalation_blind registry registry' approver_did approver_did' signature_b64
        signature_b64' signature signature' ring decoded decoded' approvable ranked low =
      (
        approve_escalation-decide registry approver_did signature_b64 signature approved decoded
            (decide_complete p t sinks id r approver_did signature registry m approvable),
        approve_escalation-decide registry' approver_did' signature_b64' signature'
            (denied not_system) decoded'
            (decide-not_system p t sinks id approver_did' signature' registry' m r ring ranked low),
      )
