-- ===== src/Grpc/Convert/RoundTrips.antt =====
-- What a message carries across the wire.
use Prim.Native.Char.{code}
use Prim.Native.String.append
use microsoft_agt_rust.Prelude.{ap, String, ℕ, ◌≡◌, ◌↔◌, refl, arith, none}
use microsoft_agt_rust.Prelude.Result.{ok}
use microsoft_agt_rust.Identity.Ring.{PrivilegeRing, system, trusted, standard, sandboxed}
use microsoft_agt_rust.Identity.AgentId.{AgentIdentity}
use microsoft_agt_rust.Identity.Attestation.{SignedAttestation}
use microsoft_agt_rust.Audit.{
  DataCategory, personal_data, financial_record, audit_log, system_config, unknown,
}
use microsoft_agt_rust.Rings.Escalation.{EscalationRequest, EscalationOutcome, approved, denied}
use microsoft_agt_rust.Grpc.Convert.{
  Chrono, ChronoLaws, to_proto_ring, from_proto_ring, to_proto_category, from_proto_category,
  to_proto_identity, from_proto_identity, to_proto_attestation, from_proto_attestation,
  outcome_text, to_proto_escalation_request, from_proto_escalation_request,
}

pub from_proto_ring-to_proto_ring : (r : PrivilegeRing) → from_proto_ring (to_proto_ring r) ≡ ok r
unfolding from_proto_ring to_proto_ring
from_proto_ring-to_proto_ring system = refl
from_proto_ring-to_proto_ring trusted = refl
from_proto_ring-to_proto_ring standard = refl
from_proto_ring-to_proto_ring sandboxed = refl

-- A number is read as a ring exactly when it is the number that the ring is written as, so 0, which
-- stands for an unknown ring, is no ring.
pub from_proto_ring_iff :
    (n : ℕ) (r : PrivilegeRing) → (from_proto_ring n ≡ ok r) ↔ (n ≡ to_proto_ring r)
unfolding from_proto_ring to_proto_ring
from_proto_ring_iff n system = (λ h. ground (arith, h), λ h. ground (arith, h))
from_proto_ring_iff n trusted = (λ h. ground (arith, h), λ h. ground (arith, h))
from_proto_ring_iff n standard = (λ h. ground (arith, h), λ h. ground (arith, h))
from_proto_ring_iff n sandboxed = (λ h. ground (arith, h), λ h. ground (arith, h))

pub from_proto_category-to_proto_category :
    (c : DataCategory) → from_proto_category (to_proto_category c) ≡ c
unfolding from_proto_category to_proto_category
from_proto_category-to_proto_category personal_data = refl
from_proto_category-to_proto_category financial_record = refl
from_proto_category-to_proto_category audit_log = refl
from_proto_category-to_proto_category system_config = refl
from_proto_category-to_proto_category unknown = refl

pub from_proto_identity-to_proto_identity :
    (id : AgentIdentity) (ring : PrivilegeRing)
    → from_proto_identity (to_proto_identity id ring)
      ≡ ok (record id {
        status = "active";
        parent_did = none;
        delegation_depth = 0;
        private_key = none;
      })
unfolding from_proto_identity to_proto_identity
from_proto_identity-to_proto_identity id ring = refl

module _ (c : Chrono) (laws : ChronoLaws c) where
  pub from_proto_attestation-to_proto_attestation :
      (a : SignedAttestation) → from_proto_attestation c (to_proto_attestation c a) ≡ ok a
  unfolding from_proto_attestation to_proto_attestation
  from_proto_attestation-to_proto_attestation a = simp (laws.timestamp_opt-timestamp)

  -- An escalation request that is converted to its message and back is the same request.
  pub from_proto_escalation_request-to_proto_escalation_request :
      (r : EscalationRequest)
      → from_proto_escalation_request c (to_proto_escalation_request c r) ≡ ok r
  unfolding from_proto_escalation_request to_proto_escalation_request
  from_proto_escalation_request-to_proto_escalation_request r =
      simp (laws.timestamp_opt-timestamp, from_proto_ring-to_proto_ring)

first_code : String → ℕ
first_code String.[] = 0
first_code (String.◌∷◌ c s) = code c

pub outcome_text-approved : (o : EscalationOutcome) → outcome_text o ≡ "Approved" → o ≡ approved
unfolding first_code
outcome_text-approved approved h = refl
outcome_text-approved (denied cause) h =
    let differ : 68 ≡ 65 = rw append.cons at (ap first_code h) in absurd (omega (arith, differ))
