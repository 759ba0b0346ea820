-- ===== src/Compliance/Log/Relink.antt =====
-- What `verify_chain` cannot see: the hash of a record does not cover its own `prev_hash`.
use microsoft_agt_rust.Prelude.{◌≡◌, refl, List, [], ◌∷◌, ◌++◌, map, String}
use microsoft_agt_rust.Prelude.Result.{ok}
use microsoft_agt_rust.Platform.{Platform}
use microsoft_agt_rust.Audit.{ActionLogRecord, AuditJson, compute_hash}
use microsoft_agt_rust.Compliance.Log.{AuditJsonLaws, verify_chain, genesis}
use microsoft_agt_rust.Compliance.Log.Chain.{IsChain, final_hash, IsChain-append, verify_chain_iff}

module _ (p : Platform) (j : AuditJson) where
  IsChain-split :
      (rs ss : List ActionLogRecord) (expected : String)
      → IsChain p j expected (rs ++ ss)
      → IsChain p j expected rs × IsChain p j (final_hash p j expected rs) ss
  IsChain-split [] ss expected h = (tt, h)
  IsChain-split (r ∷ rs) ss expected h =
      let rest = IsChain-split rs ss (compute_hash p j r) h.1 in ((h.0, rest.0), rest.1)

  -- In a log in which `verify_chain` finds nothing, any record that has one after it can be taken out,
  -- or be replaced by any other record, so that `verify_chain` still finds nothing: of the records
  -- behind it only the `prev_hash` of the very next one is edited.
  pub verify_chain_blind :
      AuditJsonLaws j
      → (rs ss : List ActionLogRecord) (r s forged : ActionLogRecord)
      → verify_chain p j (map j.to_string (rs ++ r ∷ s ∷ ss)) ≡ ok []
      → (verify_chain p j (map j.to_string (rs ++ record s { prev_hash = r.prev_hash } ∷ ss))
          ≡ ok [])
        × (verify_chain p j (
              map j.to_string (
                rs
                ++ record forged { prev_hash = r.prev_hash }
                  ∷ record s { prev_hash = compute_hash p j forged }
                  ∷ ss))
            ≡ ok [])
  unfolding compute_hash
  verify_chain_blind laws rs ss r s forged h =
      let parts = IsChain-split rs (r ∷ s ∷ ss) genesis ((verify_chain_iff p j laws _).0 h) in
      (
        (verify_chain_iff p j laws _).1
            (IsChain-append p j rs _ genesis parts.0 (parts.1.0, parts.1.1.1)),
        (verify_chain_iff p j laws _).1
            (IsChain-append p j rs _ genesis parts.0 (parts.1.0, (refl, parts.1.1.1))),
      )
