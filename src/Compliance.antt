-- ===== src/Compliance.antt =====
-- crates/ext/compliance/src/lib.rs: the rules and the verifier; `Log` is the action log.
pub mod Rules
pub mod Log
mod Tests
use Prim.Native.String.{◌++◌}
use microsoft_agt_rust.Prelude.{
  ℕ, ◌+◌, Bool, true, false, not, ◌&&◌, ◌||◌, String, Option, none, some, List, [], ◌∷◌, map, any,
  all, contains, ltb, str_eq, starts_with, if◌then◌else◌,
}
use microsoft_agt_rust.Identity.Ring.{PrivilegeRing}
use microsoft_agt_rust.Audit.{DataCategory, personal_data, financial_record, audit_log, category_eq}

pub record ActionRecord : Type 0 where
  pub action : String
  pub timestamp : ℕ
  pub resource_category : DataCategory

pub record ComplianceInput : Type 0 where
  pub agent_did : String
  pub agent_ring : PrivilegeRing
  pub agent_capabilities : List String
  pub action : String
  pub resource_category : DataCategory
  pub action_history : List ActionRecord
  pub jurisdiction : Option String

pub data ComplianceResult : Type 0 where
  compliant not_applicable : ComplianceResult
  -- rule and reason
  violation : String → String → ComplianceResult

abbrev is_us : Option String → Bool
is_us none = false
is_us (some j) = str_eq j "US"

-- GdprDataExportRule::evaluate
unfoldable pub gdpr : ComplianceInput → ComplianceResult
gdpr input =
    if not (str_eq input.action "data_export")
    then not_applicable
    else if not (category_eq input.resource_category personal_data)
    then not_applicable
    else if is_us input.jurisdiction
    then not_applicable
    else if not (contains input.agent_capabilities "gdpr_data_processor")
    then violation "GDPR-001" "Agent lacks gdpr_data_processor capability for PersonalData export"
    else compliant

-- The test of one past action: `r.timestamp > now - window`, a write, to a sensitive category.
pub is_recent_write : ℕ → ℕ → ActionRecord → Bool
is_recent_write now window r =
    ltb now (r.timestamp + window)
    && (category_eq r.resource_category financial_record
        || category_eq r.resource_category audit_log)
    && (starts_with r.action "write"
        || starts_with r.action "delete"
        || starts_with r.action "update")

-- SoxAuditImmutabilityRule::evaluate at the time `now`; `debug` prints a `Duration`.
unfoldable pub sox : (ℕ → String) → ℕ → ℕ → ComplianceInput → ComplianceResult
unfolding is_recent_write
sox debug now window input =
    if not (category_eq input.resource_category audit_log)
    then not_applicable
    else if not (contains ("read" ∷ "read_audit_log" ∷ []) input.action)
    then not_applicable
    else if any (is_recent_write now window) input.action_history
    then violation "SOX-001" (
        "Agent has recent write history within window ("
        ++ debug window
        ++ "); audit log read denied")
    else compliant

-- The implementations of the trait `ComplianceRule`.
pub data ComplianceRule : Type 0 where
  gdpr_data_export : ComplianceRule
  sox_audit_immutability : ℕ → ComplianceRule

unfoldable pub evaluate_rule :
    (ℕ → String) → ℕ → ComplianceInput → ComplianceRule → ComplianceResult
unfolding gdpr sox
evaluate_rule debug now input gdpr_data_export = gdpr input
evaluate_rule debug now input (sox_audit_immutability window) = sox debug now window input

-- ComplianceVerifier::default_policy
abbrev pub default_policy : List ComplianceRule
default_policy = gdpr_data_export ∷ sox_audit_immutability 86400000000000 ∷ []

-- ComplianceVerifier::evaluate
unfoldable pub evaluate :
    (ℕ → String) → ℕ → List ComplianceRule → ComplianceInput → List ComplianceResult
unfolding evaluate_rule
evaluate debug now rules input = map (evaluate_rule debug now input) rules

abbrev pub is_violation : ComplianceResult → Bool
is_violation compliant = false
is_violation not_applicable = false
is_violation (violation rule reason) = true

-- ComplianceVerifier::is_compliant
unfoldable pub is_compliant : (ℕ → String) → ℕ → List ComplianceRule → ComplianceInput → Bool
unfolding evaluate
is_compliant debug now rules input =
    all (λ r. not (is_violation r)) (evaluate debug now rules input)
