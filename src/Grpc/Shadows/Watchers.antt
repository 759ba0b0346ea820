-- ===== src/Grpc/Shadows/Watchers.antt =====
-- Who can watch the shadow agents.
use microsoft_agt_rust.Prelude.{
  ℕ, ◌≡◌, String, Option, none, some, List, arith, inl, inr, Bool-cases,
}
use microsoft_agt_rust.Prelude.Result.{Result, ok, Result-cases, >>=-eq-ok}
use microsoft_agt_rust.Platform.{Platform}
use microsoft_agt_rust.Identity.Ring.{system, ring_eq}
use microsoft_agt_rust.Identity.Ring.Order.{ring_eq_sound}
use microsoft_agt_rust.Audit.{AuditJson}
use microsoft_agt_rust.Discovery.{DiscoveryEvent}
use microsoft_agt_rust.Daemon.Auth.{verify_request_signature}
use microsoft_agt_rust.Daemon.Auth.Requests.{IsAuthentic, verify_request_signature_iff}
use microsoft_agt_rust.Grpc.Proto.{ShadowAlert, Timestamp, Prost}
use microsoft_agt_rust.Grpc.Convert.{Chrono}
use microsoft_agt_rust.Grpc.Call.{Call, extract_grpc_auth}
use microsoft_agt_rust.Grpc.Shadows.{EventJson, watched_from, watch_shadows}

module _ (c : Chrono) (j : EventJson) (p : Platform) (x : Prost) (pubkey : String) (call : Call)
    (started_at : ℕ) (ts : Option Timestamp) where
  -- An agent of the System ring whose signature over the message the metadata carries.
  pub record IsWatcher : Type 0 where
    pub did : String
    pub signature : List ℕ
    pub extracted : extract_grpc_auth p call.metadata ≡ ok (did, signature)
    pub from_system : call.registry.get_ring did ≡ ok (some system)
    pub authentic :
        IsAuthentic p call.now did signature (x.watch_shadows_request ts) call.registry pubkey

  watched_from-IsWatcher :
      (since : ℕ) → watched_from c j p x pubkey call started_at ts ≡ ok since → IsWatcher
  unfolding watched_from
  watched_from-IsWatcher since h = elim (Result-cases (extract_grpc_auth p call.metadata)) [
    | inr (_, e) ↦ absurd (ground (arith, e, h))
    | inl ((did, signature), e) ↦ elim (Result-cases (call.registry.get_ring did)) [
      | inr (_, q) ↦ absurd (ground (arith, e, q, h))
      | inl (none, q) ↦ absurd (ground (arith, e, q, h))
      | inl (some ring, q) ↦ elim (Bool-cases (ring_eq ring system)) [
        | inr bad ↦ absurd (ground (arith, e, q, bad, h))
        | inl is_system ↦
            elim (Result-cases (
              verify_request_signature p call.now did signature (x.watch_shadows_request ts)
                call.registry pubkey)) [
                  | inr (_, bad) ↦ absurd (ground (arith, e, q, is_system, bad, h))
                  | inl (_, good) ↦ record {
                    did = did;
                    signature = signature;
                    extracted = e;
                    from_system = cc (q, ring_eq_sound ring system is_system);
                    authentic =
                        (verify_request_signature_iff p call.now did signature
                            (x.watch_shadows_request ts) call.registry pubkey).0
                          good;
                  }
                ]
      ]
    ]
  ]

  -- Only an authentic call of an agent that is registered in the System ring is answered with alerts.
  pub watch_shadows-IsWatcher :
      (a : AuditJson) (live : List (Result String DiscoveryEvent)) (lines : List String)
      (alerts : List ShadowAlert)
      → watch_shadows c j p a x pubkey call started_at ts live lines ≡ ok alerts
      → IsWatcher
  unfolding watch_shadows
  watch_shadows-IsWatcher a live lines alerts h =
      let (since, e, _) = >>=-eq-ok (watched_from c j p x pubkey call started_at ts) _ h in
      watched_from-IsWatcher since e
