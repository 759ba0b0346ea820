-- ===== src/Compliance/Log/Chain.antt =====
-- What `verify_chain` finds, and that appending keeps the chain whole.
use mathlib.Core.List.{append_assoc}
use microsoft_agt_rust.Prelude.{
  ℕ, suc, ◌≡◌, ◌↔◌, refl, ap, String, List, [], ◌∷◌, ◌++◌, map, arith, str_eq, eq_iff, Bool-cases,
  inl, inr, ◌+◌, length,
}
use microsoft_agt_rust.Prelude.Result.{ok}
use microsoft_agt_rust.Platform.{Platform}
use microsoft_agt_rust.Audit.{ActionLogRecord, AuditJson, compute_hash}
use microsoft_agt_rust.Compliance.Log.{
  ChainViolation, AuditJsonLaws, check, verify_from, verify_chain, genesis,
}

module _ (p : Platform) (j : AuditJson) where
  -- Each record names the hash of the record before it, the first one `expected`.
  abbrev pub IsChain : String → List ActionLogRecord → Type 0
  IsChain expected [] = Unit {0}
  IsChain expected (r ∷ rs) = (r.prev_hash ≡ expected) × IsChain (compute_hash p j r) rs

  -- The hash that the next record has to name.
  abbrev pub final_hash : String → List ActionLogRecord → String
  final_hash expected [] = expected
  final_hash expected (r ∷ rs) = final_hash (compute_hash p j r) rs

  pub IsChain-append :
      (rs ss : List ActionLogRecord) (expected : String)
      → IsChain expected rs
      → IsChain (final_hash expected rs) ss
      → IsChain expected (rs ++ ss)
  IsChain-append [] ss expected h k = k
  IsChain-append (r ∷ rs) ss expected h k = (h.0, IsChain-append rs ss (compute_hash p j r) h.1 k)

  pub final_hash-append :
      (rs ss : List ActionLogRecord) (expected : String)
      → final_hash expected (rs ++ ss) ≡ final_hash (final_hash expected rs) ss
  final_hash-append [] ss expected = refl
  final_hash-append (r ∷ rs) ss expected = final_hash-append rs ss (compute_hash p j r)

  -- The violations that stand in a list of records.
  unfoldable pub violations : ℕ → String → List ActionLogRecord → List ChainViolation
  unfolding check
  violations index expected [] = []
  violations index expected (r ∷ rs) =
      check p j index expected r ++ violations (suc index) (compute_hash p j r) rs

  pub violations-append :
      (rs ss : List ActionLogRecord) (index : ℕ) (expected : String)
      → violations index expected (rs ++ ss)
        ≡ violations index expected rs ++ violations (index + length rs) (final_hash expected rs) ss
  unfolding violations
  violations-append [] ss index expected = ap (λ n. violations n expected ss) (omega arith)
  violations-append (r ∷ rs) ss index expected =
      let shift : suc index + length rs ≡ index + suc (length rs) = omega arith in
      rw (violations-append rs ss, append_assoc, shift)

  violations_sound :
      (rs : List ActionLogRecord) (index : ℕ) (expected : String)
      → violations index expected rs ≡ []
      → IsChain expected rs
  unfolding violations
  violations_sound [] index expected h = tt
  violations_sound (r ∷ rs) index expected h = elim (Bool-cases (str_eq r.prev_hash expected)) [
    | inl e ↦ (
      (eq_iff r.prev_hash expected).0 e,
      violations_sound rs (suc index) (compute_hash p j r) (rw e at h),
    )
    | inr e ↦ absurd (ground (arith, e, h))
  ]

  pub violations_complete :
      (rs : List ActionLogRecord) (index : ℕ) (expected : String)
      → IsChain expected rs
      → violations index expected rs ≡ []
  unfolding violations
  violations_complete [] index expected h = refl
  violations_complete (r ∷ rs) index expected h = ground (
    arith,
    h.0,
    eq_iff r.prev_hash expected,
    violations_complete rs (suc index) (compute_hash p j r) h.1,
  )

  module _ (laws : AuditJsonLaws j) where
    pub verify_from-to_string :
        (rs : List ActionLogRecord) (index : ℕ) (expected : String)
        → verify_from p j index expected (map j.to_string rs) ≡ ok (violations index expected rs)
    unfolding verify_from violations
    verify_from-to_string [] index expected = refl
    verify_from-to_string (r ∷ rs) index expected = ground (
      arith,
      laws.from_str-to_string r,
      verify_from-to_string rs (suc index) (compute_hash p j r),
    )

    -- On a log of records as they are written, `verify_chain` succeeds with no violation exactly when
    -- every record names the hash of the record before it, and the first one "genesis".
    pub verify_chain_iff :
        (rs : List ActionLogRecord)
        → (verify_chain p j (map j.to_string rs) ≡ ok []) ↔ IsChain genesis rs
    unfolding verify_chain
    verify_chain_iff rs = (
      λ h. violations_sound rs 0 genesis (ground (arith, verify_from-to_string rs 0 genesis, h)),
      λ h. ground (arith, verify_from-to_string rs 0 genesis, violations_complete rs 0 genesis h),
    )
