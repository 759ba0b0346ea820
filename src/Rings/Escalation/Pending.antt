-- ===== src/Rings/Escalation/Pending.antt =====
-- What becomes of a pending request, and of the audit log.
use microsoft_agt_rust.Prelude.{
  ℕ, ◌≡◌, ◌⊎◌, true, String, none, some, List, [], ◌∷◌, ◌++◌, arith, Option-cases, inl, inr, str_eq,
  str_eq_self, if◌then◌else◌,
}
use microsoft_agt_rust.Prelude.Result.{ok, err, Result-cases}
use microsoft_agt_rust.Prelude.Map
use microsoft_agt_rust.Prelude.Map.{get-insert, get-remove}
use microsoft_agt_rust.Platform.{Platform}
use microsoft_agt_rust.Identity.Registry.{AgentRegistry}
use microsoft_agt_rust.Rings.Escalation.{
  EscalationEvent, EscalationManager, Sinks, Clocks, decide, approve, deny, take, publish,
}

-- A denial takes away the request that it names, and no other.
pub pending-deny :
    (s : Sinks) (id approver_did : String) (m : EscalationManager) (now : ℕ) (cause other : String)
    → Map.get (deny now s id approver_did cause m).1.pending other
      ≡ (if str_eq id other then none else Map.get m.pending other)
unfolding deny take publish
pending-deny s id approver_did m now cause other = elim (Option-cases (Map.get m.pending id)) [
  | inl e ↦ ground (arith, e, get-remove m.pending id other)
  | inr (r, e) ↦ ground (arith, e, get-remove m.pending id other)
]

module _ (p : Platform) (t : Clocks) (s : Sinks) (id approver_did : String) (signature : List ℕ)
    (registry : AgentRegistry) (m : EscalationManager) where
  approve-missing :
      Map.get m.pending id ≡ none
      → (approve p t s id approver_did signature registry m).0 ≡ err "Escalation request not found"
  unfolding approve take
  approve-missing e = ground (arith, e)

  deny-missing :
      (now : ℕ) (cause : String)
      → Map.get m.pending id ≡ none
      → (deny now s id approver_did cause m).0 ≡ err "Escalation request not found"
  unfolding deny take
  deny-missing now cause e = ground (arith, e)

  pending-approve :
      (other : String)
      → Map.get (approve p t s id approver_did signature registry m).1.pending other
        ≡ (if str_eq id other then none else Map.get m.pending other)
  unfolding approve take publish
  pending-approve other = elim (Option-cases (Map.get m.pending id)) [
    | inl e ↦ ground (arith, e, get-remove m.pending id other)
    | inr (r, e) ↦
        elim (Result-cases (decide p t id r approver_did signature registry m.registry_pubkey)) [
          | inl (_, q) ↦ ground (arith, e, q, get-remove m.pending id other)
          | inr (_, q) ↦ ground (arith, e, q, get-remove m.pending id other)
        ]
  ]

  -- Where `approve` fails with an error the request is gone all the same: it is no longer pending, and
  -- neither the audit log nor the exporter has been given an event for it.
  pub approve-err :
      (e : String)
      → (approve p t s id approver_did signature registry m).0 ≡ err e
      → let m' = (approve p t s id approver_did signature registry m).1 in
        (Map.get m'.pending id ≡ none)
        × (m'.audit_log ≡ m.audit_log)
        × (m'.siem_exporter ≡ m.siem_exporter)
  unfolding approve take publish
  approve-err e h = elim (Option-cases (Map.get m.pending id)) [
    | inl q ↦ ground (arith, q, get-remove m.pending id id, str_eq_self id)
    | inr (r, q) ↦
        elim (Result-cases (decide p t id r approver_did signature registry m.registry_pubkey)) [
          | inl (_, d) ↦ absurd (ground (arith, q, d, h))
          | inr (_, d) ↦ ground (arith, q, d, get-remove m.pending id id, str_eq_self id)
        ]
  ]

  -- Every event that `approve` returns, of a denial or an approval, is put at the end of the audit log
  -- and handed to the exporter, where these are configured and the writes go through.
  pub approve-ok :
      (e : EscalationEvent) (log exports : List EscalationEvent)
      → (approve p t s id approver_did signature registry m).0 ≡ ok e
      → m.audit_log ≡ some log
      → m.siem_exporter ≡ some exports
      → s.log_written ≡ true
      → s.exported ≡ true
      → let m' = (approve p t s id approver_did signature registry m).1 in
        (m'.audit_log ≡ some (log ++ e ∷ [])) × (m'.siem_exporter ≡ some (exports ++ e ∷ []))
  unfolding approve take publish
  approve-ok e log exports h a x w v = elim (Option-cases (Map.get m.pending id)) [
    | inl q ↦ absurd (ground (arith, q, h))
    | inr (r, q) ↦
        elim (Result-cases (decide p t id r approver_did signature registry m.registry_pubkey)) [
          | inl (_, d) ↦ ground (arith, q, d, h, a, x, w, v)
          | inr (_, d) ↦ absurd (ground (arith, q, d, h))
        ]
  ]

module _ (p : Platform) (t : Clocks) (s : Sinks) (id approver_did : String) (signature : List ℕ)
    (registry : AgentRegistry) (m : EscalationManager) where
  gone :
      (now : ℕ) (cause other : String) (m' : EscalationManager)
      → (m' ≡ (approve p t s id approver_did signature registry m).1)
        ⊎ (m' ≡ (deny now s id approver_did cause m).1)
      → Map.get m'.pending other ≡ (if str_eq id other then none else Map.get m.pending other)
  gone now cause other m' (inl e) =
      rw e (pending-approve p t s id approver_did signature registry m other)
  gone now cause other m' (inr e) = rw e (pending-deny s id approver_did m now cause other)

  -- A request is decided at most once: after `approve` or `deny`, whatever the result, any further
  -- `approve` or `deny` of the same id on the manager that is left fails with "Escalation request not
  -- found", and no other pending request has changed.
  pub approve_once :
      (now later : ℕ) (cause cause' approver' other : String) (signature' : List ℕ) (t' : Clocks)
      (s' : Sinks) (registry' : AgentRegistry) (m' : EscalationManager)
      → (m' ≡ (approve p t s id approver_did signature registry m).1)
        ⊎ (m' ≡ (deny now s id approver_did cause m).1)
      → ((approve p t' s' id approver' signature' registry' m').0
          ≡ err "Escalation request not found")
        × ((deny later s' id approver' cause' m').0 ≡ err "Escalation request not found")
        × (Map.get m'.pending other ≡ (if str_eq id other then none else Map.get m.pending other))
  approve_once now later cause cause' approver' other signature' t' s' registry' m' h =
      let none_left : Map.get m'.pending id ≡ none = rw (gone now cause id m' h, str_eq_self id) in
      (
        approve-missing p t' s' id approver' signature' registry' m' none_left,
        deny-missing p t' s' id approver' signature' registry' m' later cause' none_left,
        gone now cause other m' h,
      )
