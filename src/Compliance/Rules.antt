-- ===== src/Compliance/Rules.antt =====
-- What the default policy forbids.
use microsoft_agt_rust.Prelude.{
  ℕ, ◌+◌, ◌*◌, ◌<◌, List, [], ◌∷◌, ◌≡◌, ◌≢◌, ◌↔◌, ◌⊎◌, inl, inr, refl, true, false, ◌||◌,
  starts_with, Bool, String, Option, none, some, any, contains, arith, str_eq, ap, eq_iff,
  str_eq_self, Bool-cases,
}
use text.Mathlib.TextBridge.{IsPrefix}
use text.Mathlib.TextEquality.{starts_with_iff}
use microsoft_agt_rust.Audit.{personal_data, financial_record, audit_log}
use microsoft_agt_rust.Compliance.{
  ActionRecord, ComplianceInput, gdpr, sox, is_recent_write, is_compliant, default_policy,
  is_violation, is_us,
}

-- The exports that the GDPR rule forbids.
abbrev pub IsUnlawfulExport : ComplianceInput → Type 0
IsUnlawfulExport i =
    (i.action ≡ "data_export")
    × (i.resource_category ≡ personal_data)
    × (i.jurisdiction ≢ some "US")
    × (contains i.agent_capabilities "gdpr_data_processor" ≡ false)

-- A past action that writes, deletes or updates a financial or an audit record, after the time
-- `now` less 24 hours.
abbrev pub IsRecentChange : ℕ → ActionRecord → Type 0
IsRecentChange now r =
    (now < r.timestamp + 24 * 3600 * 1000000000)
    × ((r.resource_category ≡ financial_record) ⊎ (r.resource_category ≡ audit_log))
    × (IsPrefix "write" r.action ⊎ (IsPrefix "delete" r.action ⊎ IsPrefix "update" r.action))

-- Some record of a history is a recent change.
pub data HasRecentChange (now : ℕ) : List ActionRecord → Type 0 where
  here :
      {r : ActionRecord} {rs : List ActionRecord}
      → IsRecentChange now r
      → HasRecentChange now (r ∷ rs)
  there :
      {r : ActionRecord} {rs : List ActionRecord}
      → HasRecentChange now rs
      → HasRecentChange now (r ∷ rs)

-- The reads that the SOX rule forbids.
abbrev pub IsTaintedRead : ℕ → ComplianceInput → Type 0
IsTaintedRead now i =
    (i.resource_category ≡ audit_log)
    × ((i.action ≡ "read") ⊎ (i.action ≡ "read_audit_log"))
    × HasRecentChange now i.action_history

abbrev changes : String → Bool
changes action =
    starts_with action "write" || starts_with action "delete" || starts_with action "update"

changes_sound :
    (action : String)
    → changes action ≡ true
    → IsPrefix "write" action ⊎ (IsPrefix "delete" action ⊎ IsPrefix "update" action)
changes_sound action h = elim (Bool-cases (starts_with action "write")) [
  | inl w ↦ inl ((starts_with_iff action "write").0 w)
  | inr w ↦ elim (Bool-cases (starts_with action "delete")) [
    | inl d ↦ inr (inl ((starts_with_iff action "delete").0 d))
    | inr d ↦ inr (inr ((starts_with_iff action "update").0 (ground (arith, h, w, d))))
  ]
]

changes_complete :
    (action : String)
    → IsPrefix "write" action ⊎ (IsPrefix "delete" action ⊎ IsPrefix "update" action)
    → changes action ≡ true
changes_complete action (inl w) = ground (arith, (starts_with_iff action "write").1 w)
changes_complete action (inr (inl d)) = ground (arith, (starts_with_iff action "delete").1 d)
changes_complete action (inr (inr u)) = ground (arith, (starts_with_iff action "update").1 u)

is_recent_write_sound :
    (now : ℕ) (r : ActionRecord)
    → is_recent_write now 86400000000000 r ≡ true
    → IsRecentChange now r
unfolding is_recent_write
is_recent_write_sound now r h =
    (ground (arith, h), ground (arith, h), changes_sound r.action (ground (arith, h)))

is_recent_write_complete :
    (now : ℕ) (r : ActionRecord)
    → IsRecentChange now r
    → is_recent_write now 86400000000000 r ≡ true
unfolding is_recent_write
is_recent_write_complete now r h = ground (arith, h.0, h.1, changes_complete r.action h.2)

any_sound :
    (now : ℕ) (rs : List ActionRecord)
    → any (is_recent_write now 86400000000000) rs ≡ true
    → HasRecentChange now rs
any_sound now [] h = absurd (ground (arith, h))
any_sound now (r ∷ rs) h = elim (Bool-cases (is_recent_write now 86400000000000 r)) [
  | inl e ↦ here (is_recent_write_sound now r e)
  | inr e ↦ there (any_sound now rs (ground (arith, e, h)))
]

any_complete :
    (now : ℕ) (rs : List ActionRecord)
    → HasRecentChange now rs
    → any (is_recent_write now 86400000000000) rs ≡ true
any_complete now [] h = elim h [ ]
any_complete now (r ∷ rs) (here h) = ground (arith, is_recent_write_complete now r h)
any_complete now (r ∷ rs) (there h) = ground (arith, any_complete now rs h)

gdpr_sound : (i : ComplianceInput) → is_violation (gdpr i) ≡ true → IsUnlawfulExport i
unfolding gdpr
gdpr_sound i h = (
  ground (arith, eq_iff i.action "data_export"),
  ground (arith),
  λ us. ground (arith, us, str_eq_self "US"),
  ground (arith),
)

is_us-false : (j : Option String) → j ≢ some "US" → is_us j ≡ false
is_us-false none h = refl
is_us-false (some s) h = elim (Bool-cases (str_eq s "US")) [
  | inl e ↦ absurd (h (ap some ((eq_iff s "US").0 e)))
  | inr e ↦ e
]

gdpr_complete : (i : ComplianceInput) → IsUnlawfulExport i → is_violation (gdpr i) ≡ true
unfolding gdpr
gdpr_complete i h = ground (
  arith,
  h,
  str_eq_self "data_export",
  eq_iff i.action "data_export",
  is_us-false i.jurisdiction h.2,
)

module _ (debug : ℕ → String) (now : ℕ) (i : ComplianceInput) where
  sox_sound : is_violation (sox debug now 86400000000000 i) ≡ true → IsTaintedRead now i
  unfolding sox
  sox_sound h = (
    ground (arith),
    ground (arith, eq_iff "read" i.action, eq_iff "read_audit_log" i.action),
    any_sound now i.action_history (ground arith),
  )

  sox_complete : IsTaintedRead now i → is_violation (sox debug now 86400000000000 i) ≡ true
  unfolding sox
  sox_complete h = ground (
    arith,
    h.0,
    h.1,
    any_complete now i.action_history h.2,
    eq_iff "read" i.action,
    eq_iff "read_audit_log" i.action,
  )

  -- Under the default policy a request is found not compliant exactly when it exports personal data
  -- outside the jurisdiction "US" without the capability for it, or reads the audit log while its
  -- history holds an action on financial or audit records, of a name that starts with "write",
  -- "delete" or "update", of less than 24 hours ago.
  pub is_compliant_iff :
      (is_compliant debug now default_policy i ≡ false) ↔ (IsUnlawfulExport i ⊎ IsTaintedRead now i)
  unfolding is_compliant
  is_compliant_iff = (
    λ h. elim (Bool-cases (is_violation (gdpr i))) [
      | inl g ↦ inl (gdpr_sound i g)
      | inr g ↦ inr (sox_sound (ground (arith, g, h)))
    ],
    λ h. elim h [
      | inl g ↦ ground (arith, gdpr_complete i g)
      | inr s ↦ ground (arith, sox_complete s)
    ],
  )
