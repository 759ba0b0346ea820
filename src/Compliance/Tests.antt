-- ===== src/Compliance/Tests.antt =====
-- Tests of the rules and the action log, and their theorems at concrete logs.
use microsoft_agt_rust.Prelude.{
  ◌≡◌, ◌≢◌, inl, refl, false, String, Option, some, [], ◌∷◌, map, length, arith, eq_iff,
}
use microsoft_agt_rust.Prelude.Result.{ok, err}
use microsoft_agt_rust.Prelude.Text.{utf8}
use microsoft_agt_rust.Platform.Toy.{toy, toy_encode}
use microsoft_agt_rust.Identity.Ring.{standard}
use microsoft_agt_rust.Audit.{
  personal_data, financial_record, ActionLogRecord, permitted, compute_hash,
}
use microsoft_agt_rust.Compliance.{ComplianceInput, default_policy, is_compliant}
use microsoft_agt_rust.Compliance.Rules.{is_compliant_iff}
use microsoft_agt_rust.Compliance.Log.{
  FileActionLog, missing, all_written, append, open_, verify_chain, genesis,
}
use microsoft_agt_rust.Compliance.Log.Chain.{verify_chain_iff}
use microsoft_agt_rust.Compliance.Log.Relink.{verify_chain_blind}
use microsoft_agt_rust.Compliance.Log.Restart.{
  IsWhole, append_all, append_all-verify_chain, lost_checkpoint,
}
use microsoft_agt_rust.Fixtures.Audit.{plain_json, plain_laws}

abbrev entry : String → String → ActionLogRecord
entry id action = record {
  record_id = id;
  agent_did = "agent-1";
  action = action;
  resource_category = financial_record;
  timestamp = 3;
  outcome = permitted;
  prev_hash = genesis;
}

abbrev fresh : FileActionLog
fresh = record { disk = record { lines = []; checkpoint = missing }; last_hash = genesis }

-- Two records in a chain.
abbrev second : ActionLogRecord
second = record (entry "r2" "read") { prev_hash = compute_hash toy plain_json (entry "r1" "write") }

abbrev export : ComplianceInput
export = record {
  agent_did = "agent-1";
  agent_ring = standard;
  agent_capabilities = [];
  action = "data_export";
  resource_category = personal_data;
  action_history = [];
  jurisdiction = some "EU";
}

eu_not_us : ◌≢◌ {A = Option String} (some "EU") (some "US")
eu_not_us h = ground (arith, h, eq_iff "EU" "US")

is_compliant_iff_example : is_compliant (λ d. "24h") 100 default_policy export ≡ false
is_compliant_iff_example =
    (is_compliant_iff (λ d. "24h") 100 export).1 (inl (refl, refl, eu_not_us, refl))

two_in_chain :
    verify_chain toy plain_json (map plain_json.to_string (entry "r1" "write" ∷ second ∷ []))
    ≡ ok []
two_in_chain =
    (verify_chain_iff toy plain_json plain_laws (entry "r1" "write" ∷ second ∷ [])).1
      (refl, (refl, tt))

verify_chain_blind_example :
    verify_chain toy plain_json
      (map plain_json.to_string (record second { prev_hash = genesis } ∷ []))
    ≡ ok []
verify_chain_blind_example =
    (verify_chain_blind toy plain_json plain_laws [] [] (entry "r1" "write") second
      (entry "r9" "nothing") two_in_chain).0

append_all-verify_chain_example :
    let log =
      append_all toy plain_json (entry "r1" "write" ∷ entry "r2" "read" ∷ []) (open_ fresh.disk) in
    (verify_chain toy plain_json log.lines ≡ ok [])
    × (length log.lines ≡ 2)
    × (open_ log.disk ≡ log)
append_all-verify_chain_example =
    append_all-verify_chain toy plain_json plain_laws (entry "r1" "write" ∷ entry "r2" "read" ∷ [])

fresh-IsWhole : IsWhole toy plain_json fresh []
fresh-IsWhole = record { on_disk = refl; chained = tt; at_end = refl; saved = refl }

hash_differs : genesis ≢ compute_hash toy plain_json (entry "r1" "write")
unfolding compute_hash toy_encode utf8
hash_differs h = cc ((eq_iff genesis (compute_hash toy plain_json (entry "r1" "write"))).1 h)

lost_checkpoint_example :
    let crashed =
      (append toy plain_json
        (record all_written { checkpoint_written = err "disk full" })
        (entry "r1" "write")
        fresh).1 in
    verify_chain toy plain_json
      (append toy plain_json all_written (entry "r2" "read") (open_ crashed.disk)).1.lines
    ≡ ok (
        record {
          index = 1;
          record_id = "r2";
          expected_prev_hash = compute_hash toy plain_json (entry "r1" "write");
          actual_prev_hash = genesis;
        }
        ∷ [])
lost_checkpoint_example =
    lost_checkpoint toy plain_json plain_laws fresh [] (entry "r1" "write") (entry "r2" "read")
      "disk full" fresh-IsWhole hash_differs
