-- ===== src/Daemon/Http/Routes/Shadows.antt =====
-- Who can list the shadow agents.
use microsoft_agt_rust.Prelude.{
  ◌≡◌, ◌↔◌, String, Option, none, some, List, arith, inl, inr, Bool-cases, Option-cases,
}
use microsoft_agt_rust.Prelude.Result.{ok, Result-cases}
use microsoft_agt_rust.Identity.Ring.{system, ring_eq}
use microsoft_agt_rust.Identity.Ring.Order.{ring_eq_sound}
use microsoft_agt_rust.Identity.Registry.{AgentRegistry}
use microsoft_agt_rust.Discovery.{DiscoveryManager, DiscoveredAgent, detect_shadow_agents}
use microsoft_agt_rust.Daemon.Http.Routes.{list_shadows}

module _ (registry : AgentRegistry) (header : Option String) (m : DiscoveryManager)
    (agents : List DiscoveredAgent) where
  -- The agent in the header is of the System ring, and `agents` are those that are not registered.
  pub record IsSystemView : Type 0 where
    pub did : String
    pub named : header ≡ some did
    pub from_system : registry.get_ring did ≡ ok (some system)
    pub listed : agents ≡ detect_shadow_agents m

  list_shadows_sound : list_shadows registry header m ≡ ok agents → IsSystemView
  unfolding list_shadows
  list_shadows_sound h = elim (Option-cases header) [
    | inl e ↦ absurd (ground (arith, e, h))
    | inr (did, e) ↦ elim (Result-cases (registry.get_ring did)) [
      | inr (_, q) ↦ absurd (ground (arith, e, q, h))
      | inl (none, q) ↦ absurd (ground (arith, e, q, h))
      | inl (some ring, q) ↦ elim (Bool-cases (ring_eq ring system)) [
        | inr bad ↦ absurd (ground (arith, e, q, bad, h))
        | inl is_system ↦ record {
          did = did;
          named = e;
          from_system = cc (q, ring_eq_sound ring system is_system);
          listed = ground (arith, e, q, is_system, h);
        }
      ]
    ]
  ]

  list_shadows_complete : IsSystemView → list_shadows registry header m ≡ ok agents
  unfolding list_shadows
  list_shadows_complete v = ground (arith, v.named, v.from_system, v.listed)

  -- `list_shadows` answers with a list of agents exactly when the agent in the header is registered in
  -- the System ring, and then the list is that of the agents that are not registered.
  pub list_shadows_iff : (list_shadows registry header m ≡ ok agents) ↔ IsSystemView
  list_shadows_iff = (list_shadows_sound, list_shadows_complete)
