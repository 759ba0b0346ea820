-- ===== src/Compliance/Log.antt =====
-- `FileActionLog` of crates/ext/compliance/src/lib.rs: the log file, its hash chain, its checkpoint.
-- The file is its lines, with what the writer still holds for its next flush. What a failed write
-- leaves is an argument. Locks are never poisoned.
pub mod Chain
pub mod Restart
pub mod Relink
pub mod History
use microsoft_agt_rust.Prelude.{
  ℕ, zero, suc, ◌+◌, ◌≡◌, Bool, true, false, ◌&&◌, not, String, Option, none, some, List, [], ◌∷◌,
  ◌++◌, length, str_eq, leb, if◌then◌else◌,
}
use microsoft_agt_rust.Prelude.Result.{Result, ok, err, ◌>>=◌}
use microsoft_agt_rust.Prelude.Text.{utf8}
use microsoft_agt_rust.Platform.{Platform}
use microsoft_agt_rust.Audit.{
  ActionLogRecord, ActionOutcome, permitted, denied, discovery_event, AuditJson, compute_hash,
}
use microsoft_agt_rust.Compliance.{ActionRecord}

pub record Checkpoint : Type 0 where
  pub last_hash : String
  pub byte_offset : ℕ

-- The checkpoint file: not there, not readable as JSON, or as `append` wrote it.
pub data CheckpointFile : Type 0 where
  missing garbled : CheckpointFile
  written : Checkpoint → CheckpointFile

-- The two files on disk.
pub record Disk : Type 0 where
  pub lines : List String
  pub checkpoint : CheckpointFile

pub record FileActionLog : Type 0 where
  pub disk : Disk
  pub open disk use *
  pub last_hash : String

pub record ChainViolation : Type 0 where
  pub index : ℕ
  pub record_id : String
  pub expected_prev_hash : String
  pub actual_prev_hash : String

abbrev pub genesis : String
genesis = "genesis"

-- What `open` takes from the checkpoint. The offset only moves the read position: the file is opened
-- for appending.
abbrev pub recovered : CheckpointFile → String
recovered missing = genesis
recovered garbled = genesis
recovered (written cp) = cp.last_hash

-- FileActionLog::open
pub open_ : Disk → FileActionLog
open_ d = record { disk = d; last_hash = recovered d.checkpoint }

-- `metadata()?.len()`: every line ends in a newline.
pub file_len : List String → ℕ
file_len [] = 0
file_len (l ∷ ls) = length (utf8 l) + 1 + file_len ls

-- The outcomes of the two writes of `append`, and what each leaves of its file where it fails: the
-- writer can keep the line for a later flush, or have written a part of it, and the checkpoint can be
-- cut short.
pub record AppendIo : Type 0 where
  pub line_written : Result String (Unit {0})
  pub lines_left : List String → List String
  pub checkpoint_written : Result String (Unit {0})
  pub checkpoint_left : CheckpointFile → CheckpointFile

abbrev pub all_written : AppendIo
all_written = record {
  line_written = ok tt;
  lines_left = λ lines. lines;
  checkpoint_written = ok tt;
  checkpoint_left = λ cp. cp;
}

module _ (p : Platform) (j : AuditJson) where
  -- FileActionLog::append
  pub append : AppendIo → ActionLogRecord → FileActionLog → Result String (Unit {0}) × FileActionLog
  append io r log =
      let linked = record r { prev_hash = log.last_hash } in
      let hash = compute_hash p j linked in
      let lines = log.lines ++ j.to_string linked ∷ [] in
      let cp : Checkpoint = record { last_hash = hash; byte_offset = file_len lines } in
      elim io.line_written [
        | err e ↦ (err e, record log { disk = record log.disk { lines = io.lines_left log.lines } })
        | ok _ ↦ elim io.checkpoint_written [
          | err e ↦ (
            err e,
            record {
              disk = record { lines = lines; checkpoint = io.checkpoint_left log.checkpoint };
              last_hash = hash;
            },
          )
          | ok _ ↦ (
            ok tt,
            record { disk = record { lines = lines; checkpoint = written cp }; last_hash = hash },
          )
        ]
      ]

  -- The body of the loop of `verify_chain`: the violations of one record.
  pub check : ℕ → String → ActionLogRecord → List ChainViolation
  check index expected r =
      if str_eq r.prev_hash expected
      then []
      else record {
        index = index;
        record_id = r.record_id;
        expected_prev_hash = expected;
        actual_prev_hash = r.prev_hash;
      }
        ∷ []

  pub verify_from : ℕ → String → List String → Result String (List ChainViolation)
  unfolding check
  verify_from index expected [] = ok []
  verify_from index expected (line ∷ lines) = elim (j.from_str line) [
    | err e ↦ err e
    | ok r ↦ do
      rest ← verify_from (suc index) (compute_hash p j r) lines
      ok (check index expected r ++ rest)
  ]

  -- FileActionLog::verify_chain
  pub verify_chain : List String → Result String (List ChainViolation)
  unfolding verify_from
  verify_chain lines = verify_from 0 genesis lines

abbrev pub is_permitted : ActionOutcome → Bool
is_permitted permitted = true
is_permitted (denied rule reason) = false
is_permitted (discovery_event e) = false

abbrev pub to_action : ActionLogRecord → ActionRecord
to_action r = record {
  action = r.action;
  timestamp = r.timestamp;
  resource_category = r.resource_category;
}

module _ (j : AuditJson) where
  -- FileActionLog::load_history
  pub load_history : String → List String → Result String (List ActionRecord)
  load_history did [] = ok []
  load_history did (line ∷ lines) = elim (j.from_str line) [
    | err e ↦ err e
    | ok r ↦ do
      rest ← load_history did lines
      ok (if str_eq r.agent_did did && is_permitted r.outcome then to_action r ∷ rest else rest)
  ]

  -- FileActionLog::replay_since
  pub replay_since : ℕ → List String → Result String (List ActionLogRecord)
  replay_since since [] = ok []
  replay_since since (line ∷ lines) = elim (j.from_str line) [
    | err e ↦ err e
    | ok r ↦ do
      rest ← replay_since since lines
      ok (if leb since r.timestamp then r ∷ rest else rest)
  ]

-- serde reads back the record that it wrote.
pub record AuditJsonLaws (j : AuditJson) : Type 0 where
  pub from_str-to_string : (r : ActionLogRecord) → j.from_str (j.to_string r) ≡ ok r
