-- ===== src/Daemon/Gateway/Authorized.antt =====
-- Only authentic requests reach the upstream server or change the gateway's state.
use microsoft_agt_rust.Prelude.{ℕ, ◌≡◌, ◌≢◌, String, some, List, inl, inr}
use microsoft_agt_rust.Prelude.Result.{
  ok, Result-cases, >>=-eq-ok, ok_or-eq-ok, map_err-eq-ok, map_err, ok_or,
}
use microsoft_agt_rust.Daemon.Auth.{verify_request_signature}
use microsoft_agt_rust.Daemon.Auth.Requests.{IsAuthentic, verify_request_signature_iff}
use microsoft_agt_rust.Daemon.Gateway.{
  GatewayCall, GatewayState, Setup, JsonRpcRequest, authenticate, mcp_proxy_handler,
}

-- A request whose headers name a DID and carry a signature that is authentic over the body.
pub record IsSigned (u : Setup) (c : GatewayCall) : Type 0 where
  pub did : String
  pub signature_b64 : String
  pub signature : List ℕ
  pub names : c.did_header ≡ some did
  pub carries : c.signature_header ≡ some signature_b64
  pub decodes : u.platform.decode signature_b64 ≡ ok signature
  pub authentic :
      IsAuthentic u.platform c.verified_at did signature c.body c.registry u.registry_pubkey

module _ (u : Setup) (c : GatewayCall) where
  authenticate-IsSigned : (who : String × JsonRpcRequest) → authenticate u c ≡ ok who → IsSigned u c
  unfolding authenticate
  authenticate-IsSigned who h =
      let (did, e₁, h₁) = >>=-eq-ok (ok_or (401, "Missing X-AGT-Agent-DID") c.did_header) _ h in
      let (signature_b64, e₂, h₂) =
        >>=-eq-ok (ok_or (401, "Missing X-AGT-Signature") c.signature_header) _ h₁ in
      let (signature, e₃, h₃) = >>=-eq-ok (map_err _ (u.platform.decode signature_b64)) _ h₂ in
      let (_, e₄, _) =
        >>=-eq-ok
          (map_err (λ e. (401, e))
            (verify_request_signature u.platform c.verified_at did signature c.body c.registry
              u.registry_pubkey))
          _ h₃ in
      record {
        did = did;
        signature_b64 = signature_b64;
        signature = signature;
        names = ok_or-eq-ok _ _ e₁;
        carries = ok_or-eq-ok _ _ e₂;
        decodes = map_err-eq-ok _ (u.platform.decode signature_b64) e₃;
        authentic = (verify_request_signature_iff _ _ _ _ _ _ _).0 (map_err-eq-ok _ _ e₄);
      }

  -- A request that changes anything (what was sent upstream, the action log, the times of the last
  -- requests, the escalations) carries a DID and an authentic signature over its body.
  pub mcp_proxy_handler-IsSigned :
      (s : GatewayState) → (mcp_proxy_handler u c s).1 ≢ s → IsSigned u c
  unfolding mcp_proxy_handler
  mcp_proxy_handler-IsSigned s changed = elim (Result-cases (authenticate u c)) [
    | inl (who, e) ↦ authenticate-IsSigned who e
    | inr (_, e) ↦ absurd (changed (rw (e, mcp_proxy_handler)))
  ]
