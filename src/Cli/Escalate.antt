-- ===== src/Cli/Escalate.antt =====
-- The `escalate` commands. `signing_key` is what `load_key` gave; the connection is made before.
pub mod Payload
pub mod Request
use Prim.Native.String.{◌++◌ as str_append}
use microsoft_agt_rust.Prelude.{ℕ, String, Option, some, List, [], ◌∷◌, map}
use microsoft_agt_rust.Prelude.Result.{Result, ok, err, map_err, ◌>>=◌, ◌>>◌}
use microsoft_agt_rust.Prelude.Text.{utf8}
use microsoft_agt_rust.Platform.{Platform}
use microsoft_agt_rust.Identity.Ring.{PrivilegeRing, standard, trusted}
use microsoft_agt_rust.Grpc.Proto.{
  Status, ProtoEscalationRequest, ProtoEscalationEvent, ApproveRequest, DenyRequest, Prost,
}
use microsoft_agt_rust.Grpc.Convert.{Chrono, to_proto_ring, to_proto_timestamp}
use microsoft_agt_rust.Grpc.Call.{Metadata}
use microsoft_agt_rust.Clients.Remote.{Channel, signed_by}

-- The message of `escalate request`; the current ring is a mock.
unfoldable pub request_message :
    Chrono → ℕ → String → PrivilegeRing → String → ProtoEscalationRequest
request_message c now did to_ring reason = record {
  agent_did = did;
  current_ring = to_proto_ring standard;
  requested_ring = to_proto_ring to_ring;
  reason = reason;
  timestamp = some (to_proto_timestamp c now);
}

-- What `escalate approve` signs: a fixed agent, and the number of the Trusted ring as text.
unfoldable pub approve_payload : String → List ℕ
approve_payload id = utf8 (str_append id (str_append ":target-agent:" "2"))

-- The message of `escalate approve`, with the signature filled in.
unfoldable pub approve_message : Platform → List ℕ → String → String → ApproveRequest
unfolding approve_payload
approve_message p signing_key id approver_did = record {
  request_id = id;
  approver_did = approver_did;
  signature_b64 = p.encode (p.sign signing_key (approve_payload id));
}

module _ (p : Platform) (x : Prost) (c : Chrono) (ch : Channel)
    (signing_key : Result String (List ℕ)) where
  -- The signed metadata of a message, once there is a connection and a key.
  pub prepared : String → List ℕ → Result String Metadata
  prepared did body_bytes = do ch.connected; key ← signing_key; signed_by p ch key did body_bytes

  module _ {T : Type 0} where
    -- escalate request
    pub request :
        (Metadata → ProtoEscalationRequest → T → Result Status String × T)
        → ℕ
        → String
        → PrivilegeRing
        → String
        → T
        → Result String String × T
    unfolding prepared request_message
    request request_escalation now did to_ring reason t =
        let req = request_message c now did to_ring reason in
        elim (prepared did (x.escalation_request req)) [
          | err e ↦ (err e, t)
          | ok m ↦
              let (answer, t') = request_escalation m req t in
              (
                (map_err ch.show answer >>= λ request_id.
                    ok (str_append "Escalation requested. Request ID: " request_id)),
                t',
              )
        ]

    -- `escalate approve`, which makes its message once it has the key.
    pub approve :
        (Metadata → ApproveRequest → T → Result Status ProtoEscalationEvent × T)
        → String
        → String
        → T
        → Result String String × T
    unfolding approve_message
    approve approve_rpc id approver_did t =
        let sent : Result String (Metadata × ApproveRequest) = (do
          ch.connected
          key ← signing_key
          let req = approve_message p key id approver_did
          m ← signed_by p ch key approver_did (x.approve_request req)
          ok (m, req)) in
        elim sent [
          | err e ↦ (err e, t)
          | ok (m, req) ↦
              let (answer, t') = approve_rpc m req t in
              (
                (map_err ch.show answer >>= λ e. ok (str_append "Escalation Approved: " e.outcome)),
                t',
              )
        ]

    -- escalate deny
    pub deny :
        (Metadata → DenyRequest → T → Result Status ProtoEscalationEvent × T)
        → String
        → String
        → String
        → T
        → Result String String × T
    unfolding prepared
    deny deny_rpc id approver_did cause t =
        let req : DenyRequest = record {
          request_id = id;
          approver_did = approver_did;
          cause = cause;
        } in
        elim (prepared approver_did (x.deny_request req)) [
          | err e ↦ (err e, t)
          | ok m ↦
              let (answer, t') = deny_rpc m req t in
              (
                (map_err ch.show answer >>= λ e. ok (str_append "Escalation Denied: " e.outcome)),
                t',
              )
        ]

  -- The lines of `escalate list`. `debug` is how the number of a ring is printed.
  pub list_lines : (ℕ → String) → List ProtoEscalationRequest → List String
  list_lines debug [] = "No pending escalation requests." ∷ []
  list_lines debug (r ∷ rs) =
      map
        (λ q. str_append q.agent_did (
          str_append ": requests " (
            str_append (debug q.requested_ring)
              (str_append " (Reason: " (str_append q.reason ")")))))
        (r ∷ rs)

  -- escalate list
  pub list_ :
      (ℕ → String)
      → (Metadata → Result Status (List ProtoEscalationRequest))
      → String
      → Result String (List String)
  unfolding prepared list_lines
  list_ debug list_pending did = do
    m ← prepared did x.list_pending_request
    pending ← map_err ch.show (list_pending m)
    ok (list_lines debug pending)
