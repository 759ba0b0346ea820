-- ===== src/Fixtures/Audit.antt =====
-- Audit records on the wire.
use microsoft_agt_rust.Prelude.{ℕ, zero, suc, ◌≡◌, refl, String, ◌∷◌, ◌++◌}
use microsoft_agt_rust.Prelude.Result.{Result, ok}
use microsoft_agt_rust.Prelude.Text.{utf8}
use microsoft_agt_rust.Audit.{
  DataCategory, personal_data, financial_record, audit_log, system_config, unknown, position,
  ActionOutcome, permitted, denied, discovery_event, ActionLogRecord, AuditJson,
}
use microsoft_agt_rust.Compliance.Log.{AuditJsonLaws}
use microsoft_agt_rust.Fixtures.Wire.{
  write_text, read_text, read_text-write_text, write_number, read_number, read_number-write_number,
}

category_at : ℕ → DataCategory
category_at zero = personal_data
category_at (suc zero) = financial_record
category_at (suc (suc zero)) = audit_log
category_at (suc (suc (suc zero))) = system_config
category_at (suc (suc (suc (suc n)))) = unknown

category_at-position : (c : DataCategory) → category_at (position c) ≡ c
unfolding category_at
category_at-position personal_data = refl
category_at-position financial_record = refl
category_at-position audit_log = refl
category_at-position system_config = refl
category_at-position unknown = refl

-- A tag, and two texts.
tag : ActionOutcome → ℕ
tag permitted = 0
tag (denied rule reason) = 1
tag (discovery_event event) = 2

left : ActionOutcome → String
left permitted = ""
left (denied rule reason) = rule
left (discovery_event event) = event

right : ActionOutcome → String
right permitted = ""
right (denied rule reason) = reason
right (discovery_event event) = ""

outcome_at : ℕ → String → String → ActionOutcome
outcome_at zero a b = permitted
outcome_at (suc zero) a b = denied a b
outcome_at (suc (suc n)) a b = discovery_event a

outcome_at-tag : (o : ActionOutcome) → outcome_at (tag o) (left o) (right o) ≡ o
unfolding outcome_at tag left right
outcome_at-tag permitted = refl
outcome_at-tag (denied rule reason) = refl
outcome_at-tag (discovery_event event) = refl

unfoldable pub to_string : ActionLogRecord → String
unfolding tag left right write_text write_number
to_string r = write_text r.record_id (
    write_text r.agent_did (
      write_text r.action (
        write_number (position r.resource_category) (
          write_number r.timestamp (
            write_number (tag r.outcome) (
              write_text (left r.outcome)
                (write_text (right r.outcome) (write_text r.prev_hash ""))))))))

unfoldable pub from_str : String → Result String ActionLogRecord
unfolding category_at outcome_at read_text read_number
from_str s0 =
    let (record_id, s1) = read_text s0 in
    let (agent_did, s2) = read_text s1 in
    let (action, s3) = read_text s2 in
    let (category, s4) = read_number s3 in
    let (timestamp, s5) = read_number s4 in
    let (kind, s6) = read_number s5 in
    let (a, s7) = read_text s6 in
    let (b, s8) = read_text s7 in
    let (prev_hash, _) = read_text s8 in
    ok (record {
      record_id = record_id;
      agent_did = agent_did;
      action = action;
      resource_category = category_at category;
      timestamp = timestamp;
      outcome = outcome_at kind a b;
      prev_hash = prev_hash;
    })

from_str-to_string : (r : ActionLogRecord) → from_str (to_string r) ≡ ok r
unfolding from_str to_string
from_str-to_string r =
    simp (read_text-write_text, read_number-write_number, category_at-position, outcome_at-tag)

abbrev pub plain_json : AuditJson
plain_json = record {
  hashable = λ id did action category timestamp outcome.
      position category ∷ timestamp ∷ utf8 id ++ utf8 did ++ utf8 action;
  to_string = to_string;
  from_str = from_str;
}

pub plain_laws : AuditJsonLaws plain_json
plain_laws = record { from_str-to_string = from_str-to_string }
