-- ===== src/Discovery.antt =====
-- crates/ext/discovery/src/lib.rs. `event_tx` is the list of the events sent so far, in order; every
-- `Utc::now()` is an argument. The log lines are not modelled.
pub mod Shadows
pub mod Announced
mod Tests
use microsoft_agt_rust.Prelude.{
  ℕ, Bool, true, false, not, ◌&&◌, ◌||◌, String, Option, none, some, List, [], ◌∷◌, ◌++◌, filter,
  map, if◌then◌else◌,
}
use microsoft_agt_rust.Prelude.Map
use microsoft_agt_rust.Prelude.Map.{HashMap}
use microsoft_agt_rust.Identity.AgentId
use microsoft_agt_rust.Identity.AgentId.{AgentDid}

pub data DiscoverySource : Type 0 where
  active passive : DiscoverySource

abbrev pub is_active : DiscoverySource → Bool
is_active active = true
is_active passive = false

pub record DiscoveredAgent : Type 0 where
  pub did : AgentDid
  pub name : String
  pub first_seen : ℕ
  pub last_seen : ℕ
  pub transport_address : String
  pub is_registered : Bool
  pub source : DiscoverySource

pub data DiscoveryEvent : Type 0 where
  presence shadow : DiscoveredAgent → DiscoveryEvent

pub record DiscoveryManager : Type 0 where
  pub agents : HashMap DiscoveredAgent
  pub events : List DiscoveryEvent

abbrev pub new : DiscoveryManager
new = record { agents = []; events = [] }

-- The readings of the clock in one `report_presence`: two for an entry that is made, one for any.
pub record Seen : Type 0 where
  pub first : ℕ
  pub made : ℕ
  pub updated : ℕ

-- The entry that `or_insert_with` makes.
first_entry : Seen → AgentDid → String → String → DiscoverySource → DiscoveredAgent
first_entry t did name address source = record {
  did = did;
  name = name;
  first_seen = t.first;
  last_seen = t.made;
  transport_address = address;
  is_registered = false;
  source = source;
}

-- The upgrade from Passive to Active: whether it takes place.
abbrev pub upgrades : DiscoverySource → DiscoveredAgent → Bool
upgrades source entry = is_active source && not (is_active entry.source)

-- The writes to the entry.
refresh : Seen → String → String → DiscoverySource → DiscoveredAgent → DiscoveredAgent
refresh t name address source entry =
    let touched = record entry { last_seen = t.updated; transport_address = address } in
    if upgrades source entry then record touched { source = active; name = name } else touched

abbrev pub event_of : DiscoveredAgent → DiscoveryEvent
event_of entry = if entry.is_registered then presence entry else shadow entry

-- The rest of `report_presence` once the entry is there.
pub report :
    Seen
    → String
    → String
    → String
    → DiscoverySource
    → Bool
    → DiscoveredAgent
    → DiscoveryManager
    → DiscoveryManager
unfolding refresh
report t key name address source is_new entry m =
    let updated = refresh t name address source entry in
    record {
      agents = Map.insert m.agents key updated;
      events =
          if is_new || upgrades source entry then m.events ++ event_of updated ∷ [] else m.events;
    }

-- DiscoveryManager::report_presence
pub report_presence :
    Seen → AgentDid → String → String → DiscoverySource → DiscoveryManager → DiscoveryManager
unfolding report first_entry
report_presence t did name address source m =
    let key = AgentId.display did in
    elim (Map.get m.agents key) [
      | none ↦ report t key name address source true (first_entry t did name address source) m
      | some entry ↦ report t key name address source false entry m
    ]

-- DiscoveryManager::register_agent
pub register_agent : String → DiscoveryManager → DiscoveryManager
register_agent did m = elim (Map.get m.agents did) [
  | none ↦ m
  | some agent ↦ record {
    agents = Map.insert m.agents did (record agent { is_registered = true });
    events = m.events ++ presence (record agent { is_registered = true }) ∷ [];
  }
]

-- DiscoveryManager::detect_shadow_agents
pub detect_shadow_agents : DiscoveryManager → List DiscoveredAgent
detect_shadow_agents m = filter (λ a. not a.is_registered) (Map.values m.agents)
