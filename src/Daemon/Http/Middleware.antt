-- ===== src/Daemon/Http/Middleware.antt =====
-- Which requests pass the authentication layer, and what an unregistered caller leaves behind.
use microsoft_agt_rust.Prelude.{
  ℕ, ◌≡◌, ◌↔◌, false, String, none, some, List, [], ◌∷◌, ◌++◌, arith, inl, inr, ap,
}
use microsoft_agt_rust.Prelude.Result.{ok, err, Result-cases}
use microsoft_agt_rust.Prelude.Map
use microsoft_agt_rust.Prelude.Text.{has_colon}
use microsoft_agt_rust.Identity.AgentId
use microsoft_agt_rust.Identity.AgentId.{AgentDid}
use microsoft_agt_rust.Discovery.{DiscoveredAgent, shadow, passive, report_presence}
use microsoft_agt_rust.Discovery.Shadows.{report_presence-new}
use microsoft_agt_rust.Daemon.Auth.{verify_request_signature, parse_did, not_registered}
use microsoft_agt_rust.Daemon.Auth.Dids.{parse_did-display}
use microsoft_agt_rust.Daemon.Auth.Requests.{IsAuthentic, verify_request_signature_iff}
use microsoft_agt_rust.Daemon.Http.{
  ServerState, Setup, HttpCall, presented, report_stranger, auth_middleware,
}

module _ (u : Setup) (c : HttpCall) (s : ServerState) (did : String) (signature body : List ℕ)
    (heads : presented u c ≡ ok (did, signature, body)) where
  abbrev IsPresentedAuthentic : Type 0
  IsPresentedAuthentic =
      IsAuthentic u.platform c.verified_at did signature body c.registry u.registry_pubkey

  goes_on_sound : (auth_middleware u c s).0 ≡ ok tt → IsPresentedAuthentic
  unfolding auth_middleware
  goes_on_sound h =
      elim (Result-cases (
        verify_request_signature u.platform c.verified_at did signature body c.registry
          u.registry_pubkey)) [
            | inl (_, e) ↦ (verify_request_signature_iff _ _ _ _ _ _ _).0 e
            | inr (_, e) ↦ absurd (ground (arith, heads, e, h))
          ]

  goes_on_complete : IsPresentedAuthentic → auth_middleware u c s ≡ (ok tt, s)
  unfolding auth_middleware
  goes_on_complete g = ground (arith, heads, (verify_request_signature_iff _ _ _ _ _ _ _).1 g)

  -- A request whose headers carry a DID and a signature and whose body can be read goes on to its
  -- handler exactly when it is authentic; and it goes on with the state unchanged exactly then.
  pub auth_middleware_iff :
      (((auth_middleware u c s).0 ≡ ok tt)
        ↔ IsAuthentic u.platform c.verified_at did signature body c.registry u.registry_pubkey)
      × ((auth_middleware u c s ≡ (ok tt, s))
          ↔ IsAuthentic u.platform c.verified_at did signature body c.registry u.registry_pubkey)
  auth_middleware_iff = (
    (goes_on_sound, λ g. ap (λ x. x.0) (goes_on_complete g)),
    (λ h. goes_on_sound (ap (λ x. x.0) h), goes_on_complete),
  )

  unknown_agent :
      c.registry.get_attestation did ≡ ok none
      → verify_request_signature u.platform c.verified_at did signature body c.registry
          u.registry_pubkey
        ≡ err not_registered
  unfolding verify_request_signature
  unknown_agent none_found = ground (arith, none_found)

  -- A caller that the registry does not know is answered with 401. If its DID is of the method "mesh"
  -- with an id that holds no colon, and discovery has not seen it, discovery holds it afterwards as
  -- unregistered and passively seen, and has sent a shadow event for it.
  pub auth_middleware-shadow :
      (id : String)
      → has_colon id ≡ false
      → did ≡ AgentId.display (record { method = "mesh"; unique_id = id })
      → c.registry.get_attestation did ≡ ok none
      → Map.get s.discovery_manager.agents did ≡ none
      → let s' = (auth_middleware u c s).1 in
        let a : DiscoveredAgent = record {
          did = record { method = "mesh"; unique_id = id };
          name = "unknown";
          first_seen = c.seen.first;
          last_seen = c.seen.updated;
          transport_address = c.peer_addr;
          is_registered = false;
          source = passive;
        } in
        ((auth_middleware u c s).0 ≡ err (401, not_registered))
        × (Map.get s'.discovery_manager.agents did ≡ some a)
        × (s'.discovery_manager.events ≡ s.discovery_manager.events ++ shadow a ∷ [])
  unfolding auth_middleware report_stranger
  auth_middleware-shadow id plain spelled none_found unseen =
      let agent : AgentDid = record { method = "mesh"; unique_id = id } in
      let parsed : parse_did did ≡ ok agent = rw spelled (parse_did-display id plain) in
      let new =
        report_presence-new c.seen agent "unknown" c.peer_addr passive s.discovery_manager
          (rw spelled at unseen) in
      (
        ground (arith, heads, unknown_agent none_found),
        ground (
          arith,
          heads,
          unknown_agent none_found,
          parsed,
          new.0,
          ap
              (Map.get
                (report_presence c.seen agent "unknown" c.peer_addr passive
                  s.discovery_manager).agents)
              spelled,
        ),
        ground (arith, heads, unknown_agent none_found, parsed, new.1),
      )
