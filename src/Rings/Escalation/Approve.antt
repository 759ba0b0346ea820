-- ===== src/Rings/Escalation/Approve.antt =====
-- Who can have an escalation approved.
use microsoft_agt_rust.Prelude.{
  ℕ, ◌<◌, ◌≡◌, ◌↔◌, ◌≢◌, true, none, [], ◌∷◌, ◌++◌, str_eq_self, String, some, List, arith, inl,
  inr, Bool-cases, Option-cases,
}
use microsoft_agt_rust.Prelude.Result.{ok, Result-cases, >>=-eq-ok, ok_or-eq-ok, ok_or}
use microsoft_agt_rust.Prelude.Map
use microsoft_agt_rust.Platform.{Platform}
use microsoft_agt_rust.Identity.Ring.{PrivilegeRing, system, rank, ring_eq}
use microsoft_agt_rust.Identity.Ring.Order.{ring_eq_sound}
use microsoft_agt_rust.Identity.AgentId.{verify_key}
use microsoft_agt_rust.Identity.Attestation.{SignedAttestation, verify}
use microsoft_agt_rust.Identity.Attestation.Verify.{IsGenuine, verify_iff}
use microsoft_agt_rust.Identity.Registry.{AgentRegistry}
use microsoft_agt_rust.Rings.Escalation.{
  EscalationRequest, EscalationEvent, EscalationOutcome, approved, denied, not_system, take,
  publish, EscalationManager, Sinks, Clocks, approval_payload, decide_attested, decide, approve,
  to_event,
}

module _ (p : Platform) (t : Clocks) (s : Sinks) (event_id : String) (r : EscalationRequest)
    (approver_did : String) (signature : List ℕ) (registry : AgentRegistry)
    (m : EscalationManager) where
  -- What an approval takes: a System-ring approver, an attestation of it that is genuine, a signature
  -- by the attested key over the payload of this very request, and a more privileged ring asked for.
  pub record IsApprovable : Type 0 where
    pub attestation : SignedAttestation
    pub from_system : registry.get_ring approver_did ≡ ok (some system)
    pub attested : registry.get_attestation approver_did ≡ ok (some attestation)
    pub genuine : IsGenuine p t.verified_at attestation m.registry_pubkey
    pub signed :
        verify_key p attestation.claim.public_key_b64
          (approval_payload event_id r.agent_did r.requested_ring)
          signature
        ≡ true
    pub upward : rank r.requested_ring < rank r.current_ring

  attested_sound :
      (a : SignedAttestation)
      → decide_attested p t event_id r signature m.registry_pubkey a ≡ ok approved
      → (verify p t.verified_at a m.registry_pubkey ≡ ok tt)
        × (verify_key p a.claim.public_key_b64
              (approval_payload event_id r.agent_did r.requested_ring)
              signature
            ≡ true)
        × (rank r.requested_ring < rank r.current_ring)
  unfolding decide_attested
  attested_sound a h = elim (Result-cases (verify p t.verified_at a m.registry_pubkey)) [
    | inl (tt, e) ↦ (e, ground (arith, e, h), ground (arith, e, h))
    | inr (_, e) ↦ absurd (ground (arith, e, h))
  ]

  decide_sound :
      decide p t event_id r approver_did signature registry m.registry_pubkey ≡ ok approved
      → IsApprovable
  unfolding decide
  decide_sound h =
      let (ring, e₁, h₁) = >>=-eq-ok (registry.get_ring approver_did) _ h in
      let (approver_ring, e₂, h₂) = >>=-eq-ok (ok_or "Approver DID not in registry" ring) _ h₁ in
      elim (Bool-cases (ring_eq approver_ring system)) [
        | inr no_system ↦ absurd (ground (arith, no_system, h₂))
        | inl is_system ↦
            let h₃ = rw is_system at h₂ in
            let (found, e₄, h₄) = >>=-eq-ok (registry.get_attestation approver_did) _ h₃ in
            let (a, e₅, h₅) = >>=-eq-ok (ok_or "Approver attestation not found" found) _ h₄ in
            let facts = attested_sound a h₅ in
            record {
              attestation = a;
              from_system =
                  cc (e₁, ok_or-eq-ok _ ring e₂, ring_eq_sound approver_ring system is_system);
              attested = cc (e₄, ok_or-eq-ok _ found e₅);
              genuine = (verify_iff p t.verified_at a m.registry_pubkey).0 facts.0;
              signed = facts.1;
              upward = facts.2;
            }
      ]

  pub decide_complete :
      IsApprovable
      → decide p t event_id r approver_did signature registry m.registry_pubkey ≡ ok approved
  unfolding decide decide_attested
  decide_complete g = ground (
    arith,
    g.from_system,
    g.attested,
    (verify_iff p t.verified_at g.attestation m.registry_pubkey).1 g.genuine,
    g.signed,
  )

  -- For a pending request: `approve` returns the event that approves it exactly when the approver is
  -- registered in the System ring, the registry gives an attestation of it that is genuine, the
  -- signature verifies under the attested key over this request's id, agent and ring, and the ring
  -- asked for is more privileged than the current one.
  pub approve_iff :
      Map.get m.pending event_id ≡ some r
      → ((approve p t s event_id approver_did signature registry m).0
          ≡ ok (to_event event_id r approver_did approved t.stamped_at))
        ↔ IsApprovable
  unfolding approve to_event
  approve_iff pending = (
    λ h.
        elim (Result-cases
          (decide p t event_id r approver_did signature registry m.registry_pubkey)) [
            | inl (outcome, e) ↦ decide_sound (ground (arith, pending, e, h))
            | inr (_, e) ↦ absurd (ground (arith, pending, e, h))
          ],
    λ g. ground (arith, pending, decide_complete g),
  )

module _ (p : Platform) (t : Clocks) (s : Sinks) (event_id : String) (approver_did : String)
    (signature : List ℕ) (registry : AgentRegistry) (m : EscalationManager) where
  -- An event that approves stands for a pending request that could be approved.
  pub approve-IsApprovable :
      (event : EscalationEvent)
      → (approve p t s event_id approver_did signature registry m).0 ≡ ok event
      → event.outcome ≡ approved
      → (r : EscalationRequest) × (Map.get m.pending event_id ≡ some r)
        × IsApprovable p t s event_id r approver_did signature registry m
  unfolding approve to_event
  approve-IsApprovable event h was = elim (Option-cases (Map.get m.pending event_id)) [
    | inl missing ↦ absurd (ground (arith, missing, h))
    | inr (r, pending) ↦
        elim (Result-cases
          (decide p t event_id r approver_did signature registry m.registry_pubkey)) [
            | inr (_, e) ↦ absurd (ground (arith, pending, e, h))
            | inl (outcome, e) ↦
                let same : outcome ≡ approved = ground (arith, pending, e, h, was) in
                (
                  r,
                  pending,
                  decide_sound p t s event_id r approver_did signature registry m (cc (e, same)),
                )
          ]
  ]

  -- What a decision on a pending request leaves: its event is the result and stands at the end of the
  -- audit log, and the request is no longer pending.
  pub approve-decide :
      (r : EscalationRequest) (outcome : EscalationOutcome) (log : List EscalationEvent)
      → Map.get m.pending event_id ≡ some r
      → m.audit_log ≡ some log
      → s.log_written ≡ true
      → decide p t event_id r approver_did signature registry m.registry_pubkey ≡ ok outcome
      → let (result, m') = approve p t s event_id approver_did signature registry m in
        let event = to_event event_id r approver_did outcome t.stamped_at in
        (result ≡ ok event)
        × (Map.get m'.pending event_id ≡ none)
        × (m'.audit_log ≡ some (log ++ event ∷ []))
  unfolding approve take publish
  approve-decide r outcome log pending logs writes decides = (
    ground (arith, pending, decides),
    ground
        (arith, pending, decides, Map.get-remove m.pending event_id event_id, str_eq_self event_id),
    ground (arith, pending, decides, logs, writes),
  )

  -- The decision on an approver outside the System ring.
  pub decide-not_system :
      (r : EscalationRequest) (ring : PrivilegeRing)
      → registry.get_ring approver_did ≡ ok (some ring)
      → ring ≢ system
      → decide p t event_id r approver_did signature registry m.registry_pubkey
        ≡ ok (denied not_system)
  unfolding decide
  decide-not_system r ring ranked low = elim (Bool-cases (ring_eq ring system)) [
    | inl e ↦ absurd (low (ring_eq_sound ring system e))
    | inr e ↦ ground (arith, ranked, e)
  ]
