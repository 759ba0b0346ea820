-- ===== src/Compliance/Log/History.antt =====
-- What `load_history` and `replay_since` read from the log.
use microsoft_agt_rust.Prelude.{
  ℕ, ◌≡◌, refl, ◌&&◌, String, List, [], ◌∷◌, ◌++◌, map, filter, arith, str_eq, leb, if◌then◌else◌,
  inl, inr,
}
use microsoft_agt_rust.Prelude.Result.{ok, ◌>>=◌, Result-cases}
use microsoft_agt_rust.Platform.{Platform}
use microsoft_agt_rust.Audit.{ActionLogRecord, AuditJson, compute_hash}
use microsoft_agt_rust.Compliance.{ActionRecord}
use microsoft_agt_rust.Compliance.Log.{
  FileActionLog, AppendIo, AuditJsonLaws, all_written, append, load_history, replay_since,
  is_permitted, to_action,
}

module _ (j : AuditJson) (laws : AuditJsonLaws j) where
  -- On a log of records as they are written, the history of an agent is exactly its permitted actions,
  -- and a replay exactly the records from the given time on, both in the order of the log.
  pub load_history-to_string :
      (did : String) (since : ℕ) (rs : List ActionLogRecord)
      → (load_history j did (map j.to_string rs)
          ≡ ok (map to_action (filter (λ r. str_eq r.agent_did did && is_permitted r.outcome) rs)))
        × (replay_since j since (map j.to_string rs) ≡ ok (filter (λ r. leb since r.timestamp) rs))
  unfolding load_history replay_since
  load_history-to_string did since [] = (refl, refl)
  load_history-to_string did since (r ∷ rs) =
      let ih = load_history-to_string did since rs in
      (
        ground (arith, laws.from_str-to_string r, ih.0),
        ground (arith, laws.from_str-to_string r, ih.1),
      )

  -- What a record adds to the history of an agent.
  abbrev pub history_of : String → ActionLogRecord → List ActionRecord
  history_of did r =
      if str_eq r.agent_did did && is_permitted r.outcome then to_action r ∷ [] else []

  -- What a record adds to a replay.
  abbrev pub replayed_of : ℕ → ActionLogRecord → List ActionLogRecord
  replayed_of since r = if leb since r.timestamp then r ∷ [] else []

  pub load_history-snoc :
      (did : String) (lines : List String) (r : ActionLogRecord)
      → load_history j did (lines ++ j.to_string r ∷ [])
        ≡ (load_history j did lines >>= λ h. ok (h ++ history_of did r))
  unfolding load_history
  load_history-snoc did [] r = ground (arith, laws.from_str-to_string r)
  load_history-snoc did (l ∷ lines) r = elim (Result-cases (j.from_str l)) [
    | inr (_, e) ↦ ground (arith, e)
    | inl (x, e) ↦ elim (Result-cases (load_history j did lines)) [
      | inr (_, q) ↦ ground (arith, e, q, load_history-snoc did lines r)
      | inl (y, q) ↦ ground (arith, e, q, load_history-snoc did lines r)
    ]
  ]

  -- A record whose writes succeed adds to what `load_history` reads exactly its own action, at the
  -- end, and only for the agent that it names and only if it was permitted; a log that cannot be read
  -- before cannot be read afterwards.
  pub load_history-append :
      (p : Platform) (did : String) (r : ActionLogRecord) (log : FileActionLog)
      → load_history j did (append p j all_written r log).1.lines
        ≡ (load_history j did log.lines >>= λ h. ok (h ++ history_of did r))
  unfolding append
  load_history-append p did r log =
      load_history-snoc did log.lines (record r { prev_hash = log.last_hash })

  replay_since-snoc :
      (since : ℕ) (lines : List String) (r : ActionLogRecord)
      → replay_since j since (lines ++ j.to_string r ∷ [])
        ≡ (replay_since j since lines >>= λ rs. ok (rs ++ replayed_of since r))
  unfolding replay_since
  replay_since-snoc since [] r = ground (arith, laws.from_str-to_string r)
  replay_since-snoc since (l ∷ lines) r = elim (Result-cases (j.from_str l)) [
    | inr (_, e) ↦ ground (arith, e)
    | inl (x, e) ↦ elim (Result-cases (replay_since j since lines)) [
      | inr (_, q) ↦ ground (arith, e, q, replay_since-snoc since lines r)
      | inl (y, q) ↦ ground (arith, e, q, replay_since-snoc since lines r)
    ]
  ]

  -- The same of a replay: the record is added, as it was linked, if it is not before the given time.
  pub replay_since-append :
      (p : Platform) (since : ℕ) (r : ActionLogRecord) (log : FileActionLog)
      → replay_since j since (append p j all_written r log).1.lines ≡ (
          replay_since j since log.lines >>= λ rs.
          ok (rs ++ replayed_of since (record r { prev_hash = log.last_hash })))
  unfolding append
  replay_since-append p since r log =
      replay_since-snoc since log.lines (record r { prev_hash = log.last_hash })

-- An append that succeeds has put the record, linked to the last hash, at the end of the file, and
-- remembers its hash.
pub append-ok :
    (p : Platform) (j : AuditJson) (io : AppendIo) (r : ActionLogRecord) (log : FileActionLog)
    → (append p j io r log).0 ≡ ok tt
    → let linked = record r { prev_hash = log.last_hash } in
      ((append p j io r log).1.lines ≡ log.lines ++ j.to_string linked ∷ [])
      × ((append p j io r log).1.last_hash ≡ compute_hash p j linked)
unfolding append
append-ok p j io r log h = ground (arith, h)

pub append-all_written :
    (p : Platform) (j : AuditJson) (r : ActionLogRecord) (log : FileActionLog)
    → (append p j all_written r log).0 ≡ ok tt
unfolding append
append-all_written p j r log = refl
