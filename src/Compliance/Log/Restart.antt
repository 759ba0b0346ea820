-- ===== src/Compliance/Log/Restart.antt =====
-- The log across appends and restarts, with and without its checkpoint.
use mathlib.Core.List.{map-append, append_assoc}
use microsoft_agt_rust.Prelude.{
  ◌≡◌, ◌≢◌, refl, sym, ap, ◌∙◌, String, List, [], ◌∷◌, ◌++◌, map, arith, eq_iff, ◌+◌, length,
  length-append, length-map,
}
use microsoft_agt_rust.Prelude.Result.{ok, err}
use microsoft_agt_rust.Platform.{Platform}
use microsoft_agt_rust.Audit.{ActionLogRecord, AuditJson, compute_hash}
use microsoft_agt_rust.Compliance.Log.{
  FileActionLog, all_written, AuditJsonLaws, append, check, verify_chain, genesis, open_, recovered,
  missing,
}
use microsoft_agt_rust.Compliance.Log.Chain.{
  IsChain, final_hash, IsChain-append, final_hash-append, violations, violations_complete,
  violations-append, verify_from-to_string, verify_chain_iff,
}

module _ (p : Platform) (j : AuditJson) where
  -- The record as `append` writes it.
  abbrev linked : FileActionLog → ActionLogRecord → ActionLogRecord
  linked log r = record r { prev_hash = log.last_hash }

  -- A log whose file holds the records `rs` in a whole chain, and whose checkpoint is up to date.
  pub record IsWhole (log : FileActionLog) (rs : List ActionLogRecord) : Type 0 where
    pub on_disk : log.lines ≡ map j.to_string rs
    pub chained : IsChain p j genesis rs
    pub at_end : log.last_hash ≡ final_hash p j genesis rs
    pub saved : recovered log.checkpoint ≡ log.last_hash

  append-IsWhole :
      (log : FileActionLog) (rs : List ActionLogRecord) (r : ActionLogRecord)
      → IsWhole log rs
      → IsWhole (append p j all_written r log).1 (rs ++ linked log r ∷ [])
  unfolding append
  append-IsWhole log rs r w = record {
    on_disk = rw w.on_disk (sym (map-append j.to_string rs (linked log r ∷ [])));
    chained = IsChain-append p j rs (linked log r ∷ []) genesis w.chained (w.at_end, tt);
    at_end = sym (final_hash-append p j rs (linked log r ∷ []) genesis);
    saved = refl;
  }

  -- Appends whose writes all succeed.
  pub append_all : List ActionLogRecord → FileActionLog → FileActionLog
  append_all [] log = log
  append_all (r ∷ rs) log = append_all rs (append p j all_written r log).1

  append_all-IsWhole :
      (new : List ActionLogRecord) (log : FileActionLog) (rs : List ActionLogRecord)
      → IsWhole log rs
      → (ss : List ActionLogRecord) × IsWhole (append_all new log) ss
        × (length ss ≡ length rs + length new)
  unfolding append_all
  append_all-IsWhole [] log rs w = (rs, w, omega arith)
  append_all-IsWhole (r ∷ new) log rs w =
      let (ss, v, n) =
        append_all-IsWhole new (append p j all_written r log).1 (rs ++ linked log r ∷ [])
          (append-IsWhole log rs r w) in
      (ss, v, omega (arith, n, length-append rs (linked log r ∷ [])))

  reopened :
      (log : FileActionLog) (rs : List ActionLogRecord) → IsWhole log rs → open_ log.disk ≡ log
  unfolding open_
  reopened log rs w = λ i. record { disk = log.disk; last_hash = w.saved i }

  -- Records appended to a fresh log, all writes succeeding, leave a file of that many lines in which
  -- `verify_chain` finds no violation, and opening the files again gives the same log.
  pub append_all-verify_chain :
      AuditJsonLaws j
      → (new : List ActionLogRecord)
      → let log = append_all new (open_ (record { lines = []; checkpoint = missing })) in
        (verify_chain p j log.lines ≡ ok [])
        × (length log.lines ≡ length new)
        × (open_ log.disk ≡ log)
  unfolding open_
  append_all-verify_chain laws new =
      let fresh = open_ (record { lines = []; checkpoint = missing }) in
      let (ss, w, n) =
        append_all-IsWhole new fresh []
          (record { on_disk = refl; chained = tt; at_end = refl; saved = refl }) in
      (
        rw w.on_disk ((verify_chain_iff p j laws ss).1 w.chained),
        rw w.on_disk (omega (arith, n, length-map j.to_string ss)),
        reopened _ ss w,
      )

  two_lines : (xs : List String) (a b : String) → (xs ++ a ∷ []) ++ b ∷ [] ≡ xs ++ a ∷ b ∷ []
  two_lines xs a b = append_assoc xs (a ∷ []) (b ∷ [])

  -- Two records at the end of a chain that both name the hash before the first of them.
  two_violations :
      (rs : List ActionLogRecord) (r s : ActionLogRecord)
      → IsChain p j genesis rs
      → r.prev_hash ≡ final_hash p j genesis rs
      → s.prev_hash ≡ r.prev_hash
      → r.prev_hash ≢ compute_hash p j r
      → violations p j 0 genesis (rs ++ r ∷ s ∷ [])
        ≡ record {
          index = length rs + 1;
          record_id = s.record_id;
          expected_prev_hash = compute_hash p j r;
          actual_prev_hash = r.prev_hash;
        }
          ∷ []
  unfolding violations check
  two_violations rs r s chain e f fresh =
      rw
        (
          violations-append p j rs (r ∷ s ∷ []) 0 genesis,
          violations_complete p j rs 0 genesis chain,
        )
        (ground (
          arith,
          eq_iff r.prev_hash (final_hash p j genesis rs),
          eq_iff s.prev_hash (compute_hash p j r),
        ))

  -- Where a record reaches the file but the checkpoint file stays as it was, and the log is opened
  -- again, the next append makes one violation: that record names the hash that the lost checkpoint
  -- should have replaced (if the two hashes differ). Nothing repairs the log or refuses the append.
  pub lost_checkpoint :
      AuditJsonLaws j
      → (log : FileActionLog) (rs : List ActionLogRecord) (r s : ActionLogRecord) (e : String)
      → IsWhole log rs
      → log.last_hash ≢ compute_hash p j (linked log r)
      → let crashed = (append p j (record all_written { checkpoint_written = err e }) r log).1 in
        let log' = (append p j all_written s (open_ crashed.disk)).1 in
        verify_chain p j log'.lines
        ≡ ok (
            record {
              index = length rs + 1;
              record_id = s.record_id;
              expected_prev_hash = compute_hash p j (linked log r);
              actual_prev_hash = log.last_hash;
            }
            ∷ [])
  unfolding append open_ verify_chain
  lost_checkpoint laws log rs r s e w fresh =
      let r' = linked log r in
      let s' = record s { prev_hash = log.last_hash } in
      rw
        (
          w.saved,
          w.on_disk,
          two_lines (map j.to_string rs) _ _,
          ← map-append j.to_string rs (r' ∷ s' ∷ []),
        )
        (verify_from-to_string p j laws (rs ++ r' ∷ s' ∷ []) 0 genesis
          ∙ ap ok (two_violations rs r' s' w.chained w.at_end refl fresh))
