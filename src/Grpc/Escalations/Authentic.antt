-- ===== src/Grpc/Escalations/Authentic.antt =====
-- What the calls of the escalation service do, and for whom.
use microsoft_agt_rust.Prelude.{
  none, str_eq, if◌then◌else◌, ◌↔◌, ℕ, ◌≡◌, ◌≢◌, refl, String, some, List, arith, inl, inr,
  Option-cases, str_eq_self,
}
use microsoft_agt_rust.Prelude.Result.{ok, err, Result-cases}
use microsoft_agt_rust.Prelude.Map
use microsoft_agt_rust.Rings.Escalation
use microsoft_agt_rust.Rings.Escalation.{
  EscalationRequest, EscalationEvent, EscalationOutcome, approved, denied, Sinks, Clocks, to_event,
  decide,
}
use microsoft_agt_rust.Rings.Escalation.Approve.{IsApprovable, approve-IsApprovable}
use microsoft_agt_rust.Rings.Escalation.Pending.{pending-deny}
use microsoft_agt_rust.Grpc.Proto.{
  Status, ProtoEscalationRequest, ProtoEscalationEvent, ApproveRequest, DenyRequest,
  SetPolicyRequest,
}
use microsoft_agt_rust.Grpc.Convert.{to_proto_escalation_event, from_proto_escalation_request}
use microsoft_agt_rust.Grpc.Convert.RoundTrips.{outcome_text-approved}
use microsoft_agt_rust.Grpc.Call.{Call, authenticate}
use microsoft_agt_rust.Grpc.Call.Authentic.{IsAuthenticCall, authenticate_iff}
use microsoft_agt_rust.Grpc.Escalations.{
  EscalationService, Setup, request_escalation, approve, deny, set_policy,
}

-- The calls that write.
pub data Rpc : Type 0 where
  requests : String → ProtoEscalationRequest → Rpc
  approves : Clocks → Sinks → ApproveRequest → Rpc
  denies : ℕ → Sinks → DenyRequest → Rpc
  sets_policy : SetPolicyRequest → Rpc

module _ {S : Type 0} (u : Setup S) where
  -- The message of a call, as it is signed.
  unfoldable pub body_of : Rpc → List ℕ
  body_of (requests event_id inner) = u.prost.escalation_request inner
  body_of (approves t sinks inner) = u.prost.approve_request inner
  body_of (denies now sinks inner) = u.prost.deny_request inner
  body_of (sets_policy inner) = u.prost.set_policy_request inner

  -- The service behind a call.
  unfoldable pub serve : Call → Rpc → EscalationService S → EscalationService S
  serve call (requests event_id inner) s = (request_escalation u call event_id inner s).1
  serve call (approves t sinks inner) s = (approve u call t sinks inner s).1
  serve call (denies now sinks inner) s = (deny u call now sinks inner s).1
  serve call (sets_policy inner) s = (set_policy u call inner s).1

  serve_refused :
      (call : Call) (r : Rpc) (s : EscalationService S) (e : Status)
      → authenticate u.platform u.registry_pubkey call (body_of r) ≡ err e
      → serve call r s ≡ s
  unfolding serve body_of request_escalation approve deny set_policy
  serve_refused call (requests event_id inner) s e h = rw (serve, request_escalation, h) refl
  serve_refused call (approves t sinks inner) s e h = rw (serve, approve, h) refl
  serve_refused call (denies now sinks inner) s e h = rw (serve, deny, h) refl
  serve_refused call (sets_policy inner) s e h = rw (serve, set_policy, h) refl

  -- A call to the escalation service that changes its pending requests, its records of events or the
  -- stored policies is authentic: it names an agent and carries that agent's signature over the message.
  pub serve-IsAuthenticCall :
      (call : Call) (r : Rpc) (s : EscalationService S)
      → serve call r s ≢ s
      → (did : String) × IsAuthenticCall u.platform u.registry_pubkey call (body_of r) did
  serve-IsAuthenticCall call r s changes =
      elim (Result-cases (authenticate u.platform u.registry_pubkey call (body_of r))) [
        | inl (did, e) ↦
            (did, (authenticate_iff u.platform u.registry_pubkey call (body_of r) did).0 e)
        | inr (e, h) ↦ absurd (changes (serve_refused call r s e h))
      ]

  -- An authentic request is kept under the identifier that is drawn.
  pub request_escalation-authentic :
      (call : Call) (event_id : String) (inner : ProtoEscalationRequest) (r : EscalationRequest)
      (did : String) (s : EscalationService S)
      → authenticate u.platform u.registry_pubkey call (u.prost.escalation_request inner) ≡ ok did
      → from_proto_escalation_request u.chrono inner ≡ ok r
      → ((request_escalation u call event_id inner s).0 ≡ ok event_id)
        × (Map.get (request_escalation u call event_id inner s).1.manager.pending event_id ≡ some r)
  unfolding request_escalation Escalation.request_escalation
  request_escalation-authentic call event_id inner r did s passes reads =
      rw (request_escalation, passes, reads, Escalation.request_escalation)
        (
          refl,
          ground
              (arith, Map.get-insert s.manager.pending event_id r event_id, str_eq_self event_id),
        )

  -- A denial: the answer is the event that denies the request, with the approver that the message
  -- names, and the request and no other is no longer pending.
  pub record IsDenied (call : Call) (now : ℕ) (sinks : Sinks) (inner : DenyRequest)
      (s : EscalationService S) (request_id : String) (r : EscalationRequest) : Type 0 where
    pub answered :
        (deny u call now sinks inner s).0
        ≡ ok (
            to_proto_escalation_event u.chrono
              (to_event request_id r inner.approver_did (denied inner.cause) now))
    pub gone :
        (other : String)
        → Map.get (deny u call now sinks inner s).1.manager.pending other
          ≡ (if str_eq request_id other then none else Map.get s.manager.pending other)

  deny-authentic :
      (call : Call) (now : ℕ) (sinks : Sinks) (inner : DenyRequest) (s : EscalationService S)
      (did request_id : String) (r : EscalationRequest)
      → u.parse_str inner.request_id ≡ some request_id
      → Map.get s.manager.pending request_id ≡ some r
      → authenticate u.platform u.registry_pubkey call (u.prost.deny_request inner) ≡ ok did
      → IsDenied call now sinks inner s request_id r
  unfolding deny Escalation.deny
  deny-authentic call now sinks inner s did request_id r parsed pending passes = record {
    answered = rw (deny, passes, parsed, Escalation.deny, pending) refl;
    gone = λ other.
        rw (deny, passes, parsed)
          (pending-deny sinks request_id inner.approver_did s.manager now inner.cause other);
  }

  -- A message that names a pending request denies it (the answer is the event of the denial, by the
  -- approver that the message names, and the request and no other stops being pending) exactly when
  -- the call is authentic for some agent: nothing is asked of that agent's ring, nor that it is the
  -- approver that the message names.
  pub deny_by_anyone :
      (call : Call) (now : ℕ) (sinks : Sinks) (inner : DenyRequest) (s : EscalationService S)
      (request_id : String) (r : EscalationRequest)
      → u.parse_str inner.request_id ≡ some request_id
      → Map.get s.manager.pending request_id ≡ some r
      → IsDenied call now sinks inner s request_id r ↔ (
          (did : String) × IsAuthenticCall u.platform u.registry_pubkey call
            (u.prost.deny_request inner)
            did)
  unfolding deny
  deny_by_anyone call now sinks inner s request_id r parsed pending =
      let body = u.prost.deny_request inner in
      (
        λ d. elim (Result-cases (authenticate u.platform u.registry_pubkey call body)) [
          | inl (did, e) ↦ (did, (authenticate_iff u.platform u.registry_pubkey call body did).0 e)
          | inr (_, e) ↦ absurd (ground (arith, e, d.answered))
        ],
        λ g.
            deny-authentic call now sinks inner s g.0 request_id r parsed pending
              ((authenticate_iff u.platform u.registry_pubkey call body g.0).1 g.1),
      )

  -- An approval that went through: the request, its identifier and the approver's signature, as the
  -- message gives them.
  pub record IsApprovedBy (call : Call) (t : Clocks) (sinks : Sinks) (inner : ApproveRequest)
      (s : EscalationService S) : Type 0 where
    pub request_id : String
    pub signature : List ℕ
    pub request : EscalationRequest
    pub parsed : u.parse_str inner.request_id ≡ some request_id
    pub decoded : u.platform.decode inner.signature_b64 ≡ ok signature
    pub pending : Map.get s.manager.pending request_id ≡ some request
    pub approvable :
        IsApprovable u.platform t sinks request_id request inner.approver_did signature call.later
          s.manager

  -- An answer of `approve` whose outcome is the text "Approved" means that the message's identifier is
  -- that of a pending request, and that its signature is one of a System-ring approver over this very
  -- request, under the key of a genuine attestation, for a ring more privileged than the current one.
  pub approve_sound :
      (call : Call) (t : Clocks) (sinks : Sinks) (inner : ApproveRequest) (s : EscalationService S)
      (e : ProtoEscalationEvent)
      → (approve u call t sinks inner s).0 ≡ ok e
      → e.outcome ≡ "Approved"
      → IsApprovedBy call t sinks inner s
  unfolding approve to_proto_escalation_event
  approve_sound call t sinks inner s e h said =
      elim (Result-cases
        (authenticate u.platform u.registry_pubkey call (u.prost.approve_request inner))) [
          | inr (_, q) ↦ absurd (ground (arith, q, h))
          | inl (_, q) ↦ elim (Option-cases (u.parse_str inner.request_id)) [
            | inl bad ↦ absurd (ground (arith, q, bad, h))
            | inr (id, parsed) ↦ elim (Result-cases (u.platform.decode inner.signature_b64)) [
              | inr (_, bad) ↦ absurd (ground (arith, q, parsed, bad, h))
              | inl (signature, decoded) ↦
                  elim (Result-cases
                    (Escalation.approve u.platform t sinks id inner.approver_did signature
                      call.later s.manager).0) [
                        | inr (_, bad) ↦ absurd (ground (arith, q, parsed, decoded, bad, h))
                        | inl (event, went) ↦
                            let sent : to_proto_escalation_event u.chrono event ≡ e =
                              ground (arith, q, parsed, decoded, went, h) in
                            let approves = outcome_text-approved event.outcome (cc (sent, said)) in
                            let (r, pending, approvable) =
                              approve-IsApprovable u.platform t sinks id inner.approver_did
                                signature call.later s.manager event went approves in
                            record {
                              request_id = id;
                              signature = signature;
                              request = r;
                              parsed = parsed;
                              decoded = decoded;
                              pending = pending;
                              approvable = approvable;
                            }
                      ]
            ]
          ]
        ]
