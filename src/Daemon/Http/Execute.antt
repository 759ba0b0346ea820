-- ===== src/Daemon/Http/Execute.antt =====
-- What `execute_action` permits and records.
use microsoft_agt_rust.Prelude.{
  ap, sym, ◌∙◌, ◌≡◌, ◌≢◌, refl, Bool, ◌&&◌, str_eq, str_eq_self, false, [], ◌∷◌, ◌++◌,
  if◌then◌else◌, String, Option, none, some, List, arith, inl, inr, Bool-cases,
}
use microsoft_agt_rust.Prelude.Result.{
  ok, map_err, ok_or, Result-cases, >>=-eq-ok, ok_or-eq-ok, map_err-eq-ok,
}
use microsoft_agt_rust.Identity.Ring.{PrivilegeRing}
use microsoft_agt_rust.Audit.{ActionLogRecord, personal_data, compute_hash}
use microsoft_agt_rust.Compliance.{
  ComplianceInput, evaluate, is_compliant, ActionRecord, default_policy,
}
use microsoft_agt_rust.Compliance.Rules.{is_compliant_iff}
use microsoft_agt_rust.Compliance.Log.{append, is_permitted, to_action, load_history, AuditJsonLaws}
use microsoft_agt_rust.Compliance.Log.History.{append-ok, load_history-snoc}
use microsoft_agt_rust.Daemon.Http.{
  ServerState, Setup, HttpCall, ExecuteRequest, ExecuteResponse, context, outcome_of, input_of,
  log_and_respond, execute_action, denial, first_violation,
}

denial-is_permitted : (v : Option (String × String)) → is_permitted (denial v) ≡ false
unfolding denial
denial-is_permitted none = refl
denial-is_permitted (some (rule, reason)) = refl

remembers :
    (did : String) (history : List ActionRecord) (entry : ActionLogRecord) (fine : Bool)
    → entry.agent_did ≡ did
    → is_permitted entry.outcome ≡ fine
    → history
        ++ (if str_eq entry.agent_did did && is_permitted entry.outcome
            then to_action entry ∷ []
            else [])
      ≡ history ++ (if fine then to_action entry ∷ [] else [])
remembers did history entry fine e t = rw (e, str_eq_self did, t) refl

module _ (u : Setup) (c : HttpCall) (req : ExecuteRequest) where
  outcome_of-is_permitted :
      (input : ComplianceInput)
      → is_permitted (outcome_of u c req input) ≡ is_compliant u.debug c.checked_at u.rules input
  unfolding outcome_of
  outcome_of-is_permitted input =
      elim (Bool-cases (is_compliant u.debug c.checked_at u.rules input)) [
        | inl e ↦ ground (arith, e)
        | inr e ↦ ground (
          arith,
          e,
          denial-is_permitted (first_violation (evaluate u.debug c.evaluated_at u.rules input)),
        )
      ]

  -- The record that the handler makes.
  abbrev pub logged : String → ComplianceInput → ActionLogRecord
  logged did input = record {
    record_id = c.record_id;
    agent_did = did;
    action = req.action;
    resource_category = req.resource_category;
    timestamp = c.stamped_at;
    outcome = outcome_of u c req input;
    prev_hash = "";
  }

  -- What an answered request leaves in the log: one record at its end, linked to the last hash, of the
  -- agent in the header and the action asked for. The history of the agent, as it is read from the log
  -- before and afterwards, gains the action if it was answered with success, and nothing otherwise.
  pub record IsRecorded (s s' : ServerState) (r : ExecuteResponse) : Type 0 where
    pub did : String
    pub ring : PrivilegeRing
    pub history : List ActionRecord
    pub entry : ActionLogRecord
    pub caller : c.did_header ≡ some did
    pub registered : c.registry.get_ring did ≡ ok (some ring)
    pub of_caller : entry.agent_did ≡ did
    pub of_action : entry.action ≡ req.action
    pub linked : entry.prev_hash ≡ s.action_log.last_hash
    pub judged :
        r.success ≡ is_compliant u.debug c.checked_at u.rules (input_of did ring req history)
    pub truthful : is_permitted entry.outcome ≡ r.success
    pub appended : s'.action_log.lines ≡ s.action_log.lines ++ u.audit_json.to_string entry ∷ []
    pub chained : s'.action_log.last_hash ≡ compute_hash u.platform u.audit_json entry
    pub known : load_history u.audit_json did s.action_log.lines ≡ ok history
    pub remembered :
        load_history u.audit_json did s'.action_log.lines
        ≡ ok (history ++ (if r.success then to_action entry ∷ [] else []))

  context-ok :
      (s : ServerState) (did : String) (ring : PrivilegeRing) (history : List ActionRecord)
      → context u c req s ≡ ok (did, ring, history)
      → (c.did_header ≡ some did)
        × (c.registry.get_ring did ≡ ok (some ring))
        × (load_history u.audit_json did s.action_log.lines ≡ ok history)
  unfolding context
  context-ok s did ring history e =
      let (named, e₁, h₁) = >>=-eq-ok (ok_or (401, "Missing X-AGT-Agent-DID") c.did_header) _ e in
      let (found, e₂, h₂) = >>=-eq-ok (map_err _ (c.registry.get_ring named)) _ h₁ in
      let (level, e₃, h₃) = >>=-eq-ok (ok_or (401, "Agent not registered") found) _ h₂ in
      let (past, e₄, h₄) =
        >>=-eq-ok (map_err _ (load_history u.audit_json named s.action_log.lines)) _ h₃ in
      let same : named ≡ did = ground (arith, h₄) in
      let same_ring : level ≡ ring = ground (arith, h₄) in
      let same_past : past ≡ history = ground (arith, h₄) in
      (
        cc (ok_or-eq-ok _ c.did_header e₁, same),
        cc (
          map_err-eq-ok _ (c.registry.get_ring named) e₂,
          ok_or-eq-ok _ found e₃,
          same,
          same_ring,
        ),
        cc (
          map_err-eq-ok _ (load_history u.audit_json named s.action_log.lines) e₄,
          same,
          same_past,
        ),
      )

  -- Where serde reads back the records that it writes: a request to execute an action that is
  -- answered with a verdict has been recorded. Exactly one record is added to the log, of the
  -- caller and the action and linked to the last hash; its outcome is Permitted exactly if the
  -- answer says success, which is whether the request is compliant given the agent's history; and
  -- the history that is read for the agent's next request has gained the action exactly in that
  -- case.
  pub execute_action-IsRecorded :
      AuditJsonLaws u.audit_json
      → (s : ServerState) (r : ExecuteResponse) → (execute_action u c req s).0 ≡ ok r
      → IsRecorded s (execute_action u c req s).1 r
  unfolding execute_action log_and_respond
  execute_action-IsRecorded laws s r h = elim (Result-cases (context u c req s)) [
    | inr (_, e) ↦ absurd (ground (arith, e, h))
    | inl ((did, ring, history), e) ↦
        let input = input_of did ring req history in
        let (caller, registered, known) = context-ok s did ring history e in
        elim (Result-cases
          (append u.platform u.audit_json c.log_io (logged did input) s.action_log).0) [
            | inr (_, w) ↦ absurd (ground (arith, e, w, h))
            | inl (_, w) ↦
                let entry = record (logged did input) { prev_hash = s.action_log.last_hash } in
                let (added, hashed) =
                  append-ok u.platform u.audit_json c.log_io (logged did input) s.action_log w in
                let fine : r.success ≡ is_compliant u.debug c.checked_at u.rules input =
                  ground (arith, e, w, h) in
                let outcome = outcome_of-is_permitted input in
                let same : (execute_action u c req s).1.action_log
                    ≡ (append u.platform u.audit_json c.log_io (logged did input) s.action_log).1 =
                  ground (arith, e, w) in
                let lines = ap (λ l. l.lines) same ∙ added in
                record {
                  did = did;
                  ring = ring;
                  history = history;
                  entry = entry;
                  caller = caller;
                  registered = registered;
                  of_caller = refl;
                  of_action = refl;
                  linked = refl;
                  judged = fine;
                  truthful = outcome ∙ sym fine;
                  appended = lines;
                  chained = ap (λ l. l.last_hash) same ∙ hashed;
                  known = known;
                  remembered =
                      rw
                        (
                          lines,
                          load_history-snoc u.audit_json laws did s.action_log.lines entry,
                          known,
                        )
                        (ap ok (remembers did history entry r.success refl (outcome ∙ sym fine)));
                }
          ]
  ]

  -- Under the default rules an export of personal data outside the jurisdiction "US" is never
  -- permitted, whatever the agent: the handler passes on no capabilities, so no agent has the one that
  -- the rule asks for.
  pub execute_action-export :
      (s : ServerState) (did : String) (ring : PrivilegeRing) (history : List ActionRecord)
      → context u c req s ≡ ok (did, ring, history)
      → u.rules ≡ default_policy
      → req.action ≡ "data_export"
      → req.resource_category ≡ personal_data
      → req.jurisdiction ≢ some "US"
      → (r : ExecuteResponse) → (execute_action u c req s).0 ≡ ok r
      → r.success ≡ false
  unfolding execute_action log_and_respond
  execute_action-export s did ring history e rules a k jur r h =
      let input = input_of did ring req history in
      let unlawful : is_compliant u.debug c.checked_at u.rules input ≡ false =
        rw rules ((is_compliant_iff u.debug c.checked_at input).1 (inl (a, k, jur, refl))) in
      elim (Result-cases
        (append u.platform u.audit_json c.log_io (logged did input) s.action_log).0) [
          | inl (_, w) ↦ ground (arith, e, w, h, unlawful)
          | inr (_, w) ↦ absurd (ground (arith, e, w, h))
        ]
