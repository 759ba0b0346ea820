-- ===== src/Rings/Escalation.antt =====
-- crates/core/runtime/src/rings/escalation.rs, with the types of
-- crates/core/mesh/src/identity/escalation.rs. A UUID is its text; the one that `Uuid::new_v4` draws
-- is an argument. The audit log and the exporter are the events that they have been given.
pub mod Approve
pub mod Pending
mod Tests
use Prim.Native.String.{◌++◌ as str_append}
use microsoft_agt_rust.Prelude.{
  ℕ, Bool, true, false, not, String, Option, none, some, List, [], ◌∷◌, ◌++◌, if◌then◌else◌,
}
use microsoft_agt_rust.Prelude.Result.{Result, ok, err, map_err, ok_or, ◌>>=◌, ◌>>◌}
use microsoft_agt_rust.Prelude.Map
use microsoft_agt_rust.Prelude.Map.{HashMap}
use microsoft_agt_rust.Prelude.Text.{utf8}
use microsoft_agt_rust.Platform.{Platform}
use microsoft_agt_rust.Identity.Ring
use microsoft_agt_rust.Identity.Ring.{PrivilegeRing, system, ring_eq, ring_le}
use microsoft_agt_rust.Identity.AgentId.{verify_key}
use microsoft_agt_rust.Identity.Attestation
use microsoft_agt_rust.Identity.Attestation.{SignedAttestation}
use microsoft_agt_rust.Identity.Registry.{AgentRegistry}

pub record EscalationRequest : Type 0 where
  pub agent_did : String
  pub current_ring : PrivilegeRing
  pub requested_ring : PrivilegeRing
  pub reason : String
  pub timestamp : ℕ

pub data EscalationOutcome : Type 0 where
  approved : EscalationOutcome
  denied : String → EscalationOutcome

pub record EscalationEvent : Type 0 where
  pub event_id : String
  pub agent_did : String
  pub approver_did : String
  pub from_ring : PrivilegeRing
  pub to_ring : PrivilegeRing
  pub outcome : EscalationOutcome
  pub reason : String
  pub timestamp : ℕ

abbrev infix_colon : String → String → String
infix_colon a b = str_append a (str_append ":" b)

unfoldable pub approval_payload : String → String → PrivilegeRing → List ℕ
approval_payload event_id agent_did requested_ring =
    utf8 (infix_colon event_id (infix_colon agent_did (Ring.display requested_ring)))

pub record EscalationManager : Type 0 where
  pub pending : HashMap EscalationRequest
  pub audit_log : Option (List EscalationEvent)
  pub siem_exporter : Option (List EscalationEvent)
  pub registry_pubkey : String

-- Whether a write to the audit log, and an export, go through. Their errors are dropped.
pub record Sinks : Type 0 where
  pub log_written : Bool
  pub exported : Bool

add_event : Bool → EscalationEvent → Option (List EscalationEvent) → Option (List EscalationEvent)
add_event written event none = none
add_event written event (some events) = if written then some (events ++ event ∷ []) else some events

-- `log_event` and then `export_to_siem`
pub publish : Sinks → EscalationEvent → EscalationManager → EscalationManager
unfolding add_event
publish s event m = record m {
  audit_log = add_event s.log_written event m.audit_log;
  siem_exporter = add_event s.exported event m.siem_exporter;
}

-- request_escalation
unfoldable pub request_escalation :
    String → EscalationRequest → EscalationManager → String × EscalationManager
request_escalation event_id request m =
    (event_id, record m { pending = Map.insert m.pending event_id request })

unfoldable pub to_event :
    String → EscalationRequest → String → EscalationOutcome → ℕ → EscalationEvent
to_event event_id request approver_did outcome now = record {
  event_id = event_id;
  agent_did = request.agent_did;
  approver_did = approver_did;
  from_ring = request.current_ring;
  to_ring = request.requested_ring;
  outcome = outcome;
  reason = request.reason;
  timestamp = now;
}

-- `pending.remove(&event_id)`
pub take : String → EscalationManager → Option EscalationRequest × EscalationManager
take event_id m = (Map.get m.pending event_id, record m { pending = Map.remove m.pending event_id })

-- The clock readings of one call: in `attestation.verify`, and for the event.
pub record Clocks : Type 0 where
  pub verified_at : ℕ
  pub stamped_at : ℕ

abbrev pub not_system : String
not_system = "Only System-ring agents can approve escalation"

abbrev pub bad_signature : String
bad_signature = "Approval signature invalid"

abbrev pub not_more_privileged : String
not_more_privileged = "Requested ring must be more privileged"

module _ (p : Platform) where
  -- The checks of `approve` behind the lookup of the attestation: its verification, the approver's
  -- signature over the payload, and the direction of the ring change.
  pub decide_attested :
      Clocks
      → String
      → EscalationRequest
      → List ℕ
      → String
      → SignedAttestation
      → Result String EscalationOutcome
  decide_attested t event_id request signature registry_pubkey attestation = do
    map_err (λ e. str_append "Registry attestation verification failed: " (Attestation.display e))
        (Attestation.verify p t.verified_at attestation registry_pubkey)
    let payload = approval_payload event_id request.agent_did request.requested_ring
    ok (
        if not (verify_key p attestation.claim.public_key_b64 payload signature)
        then denied bad_signature
        else if ring_le request.current_ring request.requested_ring
        then denied not_more_privileged
        else approved)

  -- All the checks of `approve`: an outcome, or the error that it returns.
  pub decide :
      Clocks
      → String
      → EscalationRequest
      → String
      → List ℕ
      → AgentRegistry
      → String
      → Result String EscalationOutcome
  unfolding decide_attested
  decide t event_id request approver_did signature registry registry_pubkey = do
    ring ← registry.get_ring approver_did
    approver_ring ← ok_or "Approver DID not in registry" ring
    if not (ring_eq approver_ring system) then ok (denied not_system) else do
      found ← registry.get_attestation approver_did
      attestation ← ok_or "Approver attestation not found" found
      decide_attested t event_id request signature registry_pubkey attestation

  -- EscalationManager::approve
  pub approve :
      Clocks
      → Sinks
      → String
      → String
      → List ℕ
      → AgentRegistry
      → EscalationManager
      → Result String EscalationEvent × EscalationManager
  unfolding take to_event
  approve t s event_id approver_did signature registry m =
      let (request, m') = take event_id m in
      elim request [
        | none ↦ (err "Escalation request not found", m')
        | some r ↦ elim (decide t event_id r approver_did signature registry m.registry_pubkey) [
          | err e ↦ (err e, m')
          | ok outcome ↦ (
            ok (to_event event_id r approver_did outcome t.stamped_at),
            publish s (to_event event_id r approver_did outcome t.stamped_at) m',
          )
        ]
      ]

-- EscalationManager::deny
unfoldable pub deny :
    ℕ
    → Sinks
    → String
    → String
    → String
    → EscalationManager
    → Result String EscalationEvent × EscalationManager
unfolding take to_event
deny now s event_id approver_did cause m =
    let (request, m') = take event_id m in
    elim request [
      | none ↦ (err "Escalation request not found", m')
      | some r ↦ (
        ok (to_event event_id r approver_did (denied cause) now),
        publish s (to_event event_id r approver_did (denied cause) now) m',
      )
    ]

-- pending_requests
abbrev pub pending_requests : EscalationManager → List (String × EscalationRequest)
pending_requests m = m.pending
