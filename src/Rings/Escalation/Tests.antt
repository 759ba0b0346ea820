-- ===== src/Rings/Escalation/Tests.antt =====
-- The theorems on escalations at a concrete request.
use microsoft_agt_rust.Prelude.{◌≡◌, refl, true, some, List, [], ◌∷◌, ℕ, arith, inl}
use microsoft_agt_rust.Prelude.Result.{ok, err}
use microsoft_agt_rust.Prelude.Map
use microsoft_agt_rust.Platform.Toy.{toy}
use microsoft_agt_rust.Identity.Ring.{standard, trusted}
use microsoft_agt_rust.Fixtures.Agents.{
  key, registry_key, attestation, all_a, attestation-IsGenuine, signed_by_a,
}
use microsoft_agt_rust.Rings.Escalation.{
  EscalationRequest, EscalationManager, Sinks, Clocks, approved, approve, to_event,
  approval_payload,
}
use microsoft_agt_rust.Rings.Escalation.Approve.{approve_iff}
use microsoft_agt_rust.Rings.Escalation.Pending.{approve_once}

abbrev request : EscalationRequest
request = record {
  agent_did = "did:mesh:b2";
  current_ring = standard;
  requested_ring = trusted;
  reason = "deploy";
  timestamp = 5;
}

abbrev manager : EscalationManager
manager = record {
  pending = ("e1", request) ∷ ("e2", request) ∷ [];
  audit_log = some [];
  siem_exporter = some [];
  registry_pubkey = registry_key;
}

abbrev clocks : Clocks
clocks = record { verified_at = 15; stamped_at = 16 }

abbrev sinks : Sinks
sinks = record { log_written = true; exported = true }

-- The approver's signature over the payload of "e1".
abbrev consent : List ℕ
consent = toy.sign key (approval_payload "e1" "did:mesh:b2" trusted)

approve_iff_example :
    (approve toy clocks sinks "e1" "did:mesh:a1" consent all_a manager).0
    ≡ ok (to_event "e1" request "did:mesh:a1" approved 16)
unfolding Map.get
approve_iff_example =
    (approve_iff toy clocks sinks "e1" request "did:mesh:a1" consent all_a manager refl).1 (record {
      attestation = attestation;
      from_system = refl;
      attested = refl;
      genuine = attestation-IsGenuine;
      signed = signed_by_a (approval_payload "e1" "did:mesh:b2" trusted);
      upward = omega arith;
    })

approve_once_example :
    (approve toy clocks sinks "e1" "did:mesh:a1" consent all_a
      (approve toy clocks sinks "e1" "did:mesh:a1" consent all_a manager).1).0
    ≡ err "Escalation request not found"
approve_once_example =
    (approve_once toy clocks sinks "e1" "did:mesh:a1" consent all_a manager 16 17 "no" "no"
      "did:mesh:a1" "e2" consent clocks sinks all_a
      (approve toy clocks sinks "e1" "did:mesh:a1" consent all_a manager).1 (inl refl)).0
