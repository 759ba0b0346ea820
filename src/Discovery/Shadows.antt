-- ===== src/Discovery/Shadows.antt =====
-- Which agents are shadows, and what is told about them.
use microsoft_agt_rust.Prelude.{
  ◌≡◌, refl, false, not, ◌&&◌, String, none, some, [], ◌∷◌, ◌++◌, arith, str_eq_self, if◌then◌else◌,
}
use microsoft_agt_rust.Prelude.Map
use microsoft_agt_rust.Prelude.Map.{get-insert}
use microsoft_agt_rust.Identity.AgentId
use microsoft_agt_rust.Identity.AgentId.{AgentDid}
use microsoft_agt_rust.Discovery.{
  DiscoverySource, active, passive, DiscoveredAgent, presence, shadow, DiscoveryManager, Seen,
  report, report_presence, refresh, first_entry, is_active,
}

-- A new entry has the source of its report, so it is not upgraded.
not_upgraded : (source : DiscoverySource) → (is_active source && not (is_active source)) ≡ false
not_upgraded active = refl
not_upgraded passive = refl

module _ (t : Seen) (did : AgentDid) (name address : String) (source : DiscoverySource)
    (m : DiscoveryManager) where
  -- A report of an agent that is known keeps its DID, the time when it was first seen and whether it
  -- is registered, and takes over the address and the time. The entry is active afterwards if it was
  -- or if the report is; only the report that upgrades it renames it, and only that report is sent as
  -- an event: of a presence if the agent is registered, of a shadow otherwise.
  pub report_presence-known :
      (a : DiscoveredAgent)
      → Map.get m.agents (AgentId.display did) ≡ some a
      → let m' = report_presence t did name address source m in
        let upgrade = is_active source && not (is_active a.source) in
        let a' : DiscoveredAgent = record {
          did = a.did;
          name = if upgrade then name else a.name;
          first_seen = a.first_seen;
          last_seen = t.updated;
          transport_address = address;
          is_registered = a.is_registered;
          source = if is_active source then active else a.source;
        } in
        (Map.get m'.agents (AgentId.display did) ≡ some a')
        × (m'.events ≡ (
            if upgrade
            then m.events ++ (if a.is_registered then presence a' else shadow a') ∷ []
            else m.events))
  unfolding report_presence report refresh
  report_presence-known a q =
      let key = AgentId.display did in
      ground
        (arith, q, get-insert m.agents key (refresh t name address source a) key, str_eq_self key)

  -- A first report makes an unregistered entry, and sends one shadow event for it.
  pub report_presence-new :
      Map.get m.agents (AgentId.display did) ≡ none
      → let m' = report_presence t did name address source m in
        let a : DiscoveredAgent = record {
          did = did;
          name = name;
          first_seen = t.first;
          last_seen = t.updated;
          transport_address = address;
          is_registered = false;
          source = source;
        } in
        (Map.get m'.agents (AgentId.display did) ≡ some a) × (m'.events ≡ m.events ++ shadow a ∷ [])
  unfolding report_presence report refresh first_entry
  report_presence-new q =
      let key = AgentId.display did in
      let entry = refresh t name address source (first_entry t did name address source) in
      ground (arith, q, get-insert m.agents key entry key, str_eq_self key, not_upgraded source)
