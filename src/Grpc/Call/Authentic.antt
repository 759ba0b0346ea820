-- ===== src/Grpc/Call/Authentic.antt =====
-- Which calls are authentic.
use microsoft_agt_rust.Prelude.{ℕ, ◌≡◌, ◌↔◌, String, some, List, arith, inl, inr, refl}
use microsoft_agt_rust.Prelude.Result.{ok, Result-cases}
use microsoft_agt_rust.Platform.{Platform, PlatformLaws}
use microsoft_agt_rust.Identity.AgentId.Signatures.{verify_key-sign}
use microsoft_agt_rust.Identity.Attestation.{SignedAttestation}
use microsoft_agt_rust.Identity.Attestation.Verify.{IsGenuine}
use microsoft_agt_rust.Daemon.Auth.{verify_request_signature}
use microsoft_agt_rust.Daemon.Auth.Requests.{IsAuthentic, verify_request_signature_iff}
use microsoft_agt_rust.Grpc.Call.{Metadata, Call, extract_grpc_auth, authenticate}

module _ (p : Platform) (pubkey : String) (call : Call) (body : List ℕ) (did : String) where
  -- A call whose metadata names the agent `did` and has its signature over the message.
  pub record IsAuthenticCall : Type 0 where
    pub signature : List ℕ
    pub extracted : extract_grpc_auth p call.metadata ≡ ok (did, signature)
    pub authentic : IsAuthentic p call.now did signature body call.registry pubkey

  authenticate_sound : authenticate p pubkey call body ≡ ok did → IsAuthenticCall
  unfolding authenticate
  authenticate_sound h = elim (Result-cases (extract_grpc_auth p call.metadata)) [
    | inr (_, e) ↦ absurd (ground (arith, e, h))
    | inl ((named, signature), e) ↦
        elim (Result-cases
          (verify_request_signature p call.now named signature body call.registry pubkey)) [
            | inr (_, bad) ↦ absurd (ground (arith, e, bad, h))
            | inl (_, good) ↦
                let same : named ≡ did = ground (arith, e, good, h) in
                record {
                  signature = signature;
                  extracted = cc (e, same);
                  authentic =
                      (verify_request_signature_iff p call.now did signature body call.registry
                          pubkey).0
                        (cc (good, same));
                }
          ]
  ]

  authenticate_complete : IsAuthenticCall → authenticate p pubkey call body ≡ ok did
  unfolding authenticate
  authenticate_complete g =
      let passes =
        (verify_request_signature_iff p call.now did g.signature body call.registry pubkey).1
          g.authentic in
      ground (arith, g.extracted, passes)

  -- A call is taken for the agent `did` exactly when its metadata names that DID and carries, in base64,
  -- a signature over the message that verifies under the key of a genuine attestation of the DID.
  pub authenticate_iff : (authenticate p pubkey call body ≡ ok did) ↔ IsAuthenticCall
  authenticate_iff = (authenticate_sound, authenticate_complete)

-- What a client with the signing key `k` sends.
abbrev pub signed_metadata : Platform → String → List ℕ → List ℕ → Metadata
signed_metadata p did k body = record {
  agent_did = some (ok did);
  signature = some (ok (p.encode (p.sign k body)));
}

-- The agent `did` with the signing key `k`, as a call finds it in the registry.
pub record IsKnown (p : Platform) (pubkey : String) (call : Call) (did : String) (k : List ℕ)
    : Type 0 where
  pub attestation : SignedAttestation
  pub attested : call.registry.get_attestation did ≡ ok (some attestation)
  pub genuine : IsGenuine p call.now attestation pubkey
  pub holds_key : attestation.claim.public_key_b64 ≡ p.encode (p.public_key k)

pub IsKnown-metadata :
    (p : Platform) (pubkey : String) (call : Call) (did : String) (k : List ℕ) (m : Metadata)
    → IsKnown p pubkey call did k
    → IsKnown p pubkey (record call { metadata = m }) did k
IsKnown-metadata p pubkey call did k m known = record {
  attestation = known.attestation;
  attested = known.attested;
  genuine = known.genuine;
  holds_key = known.holds_key;
}

-- Its signed calls are authentic.
pub authenticate-signed_metadata :
    (p : Platform)
    → PlatformLaws p
    → (pubkey : String) (call : Call) (body : List ℕ) (did : String) (k : List ℕ)
    → call.metadata ≡ signed_metadata p did k body
    → IsKnown p pubkey call did k
    → authenticate p pubkey call body ≡ ok did
unfolding extract_grpc_auth
authenticate-signed_metadata p laws pubkey call body did k sent known =
    authenticate_complete p pubkey call body did (record {
      signature = p.sign k body;
      extracted = rw (sent, laws.decode-encode (p.sign k body)) refl;
      authentic = record {
        attestation = known.attestation;
        attested = known.attested;
        genuine = known.genuine;
        signed = rw known.holds_key (verify_key-sign p laws k body);
      };
    })
