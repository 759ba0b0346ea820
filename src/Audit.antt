-- ===== src/Audit.antt =====
-- crates/core/mesh/src/audit.rs: data categories, the records of the action log, and their hash.
pub mod Names
use Prim.Native.String.{◌++◌}
use microsoft_agt_rust.Prelude.{ℕ, ◌==◌, Bool, String, List, if◌then◌else◌}
use microsoft_agt_rust.Prelude.Result.{Result, ok, err}
use microsoft_agt_rust.Prelude.Text.{codes, lowercase, same}
use microsoft_agt_rust.Platform.{Platform}

pub data DataCategory : Type 0 where
  personal_data financial_record audit_log system_config unknown : DataCategory

-- `#[derive(PartialEq)]` through the position of the variant.
abbrev pub position : DataCategory → ℕ
position personal_data = 0
position financial_record = 1
position audit_log = 2
position system_config = 3
position unknown = 4

abbrev pub category_eq : DataCategory → DataCategory → Bool
category_eq a b = position a == position b

-- Display
unfoldable pub display : DataCategory → String
display personal_data = "PersonalData"
display financial_record = "FinancialRecord"
display audit_log = "AuditLog"
display system_config = "SystemConfig"
display unknown = "Unknown"

matched : List ℕ → String → Result String DataCategory
unfolding same
matched cs s =
    if same cs (codes "personaldata")
    then ok personal_data
    else if same cs (codes "personal_data")
    then ok personal_data
    else if same cs (codes "pii")
    then ok personal_data
    else if same cs (codes "financialrecord")
    then ok financial_record
    else if same cs (codes "financial_record")
    then ok financial_record
    else if same cs (codes "sox")
    then ok financial_record
    else if same cs (codes "auditlog")
    then ok audit_log
    else if same cs (codes "audit_log")
    then ok audit_log
    else if same cs (codes "systemconfig")
    then ok system_config
    else if same cs (codes "system_config")
    then ok system_config
    else if same cs (codes "unknown")
    then ok unknown
    else err ("Unknown data category: " ++ s)

-- FromStr
unfoldable pub from_str : String → Result String DataCategory
unfolding matched
from_str s = matched (lowercase s) s

pub data ActionOutcome : Type 0 where
  permitted : ActionOutcome
  -- rule and reason
  denied : String → String → ActionOutcome
  discovery_event : String → ActionOutcome

pub record ActionLogRecord : Type 0 where
  pub record_id : String
  pub agent_did : String
  pub action : String
  pub resource_category : DataCategory
  pub timestamp : ℕ
  pub outcome : ActionOutcome
  pub prev_hash : String

-- serde's JSON: of the fields of `HashableRecord` in their order, of a whole record on one line, and
-- how a line is read.
pub record AuditJson : Type 0 where
  pub hashable : String → String → String → DataCategory → ℕ → ActionOutcome → List ℕ
  pub to_string : ActionLogRecord → String
  pub from_str : String → Result String ActionLogRecord

pub canonical_bytes : AuditJson → ActionLogRecord → List ℕ
canonical_bytes j r =
    j.hashable r.record_id r.agent_did r.action r.resource_category r.timestamp r.outcome

unfoldable pub compute_hash : Platform → AuditJson → ActionLogRecord → String
unfolding canonical_bytes
compute_hash p j r = p.sha256_hex (canonical_bytes j r)
