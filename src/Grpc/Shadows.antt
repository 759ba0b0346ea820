-- ===== src/Grpc/Shadows.antt =====
-- `DiscoveryServiceImpl` of crates/daemon/src/grpc/discovery.rs, and the worker of
-- crates/daemon/src/lib.rs that writes shadow events to the action log, from which they are replayed.
pub mod Replay
pub mod Watchers
mod Tests
use microsoft_agt_rust.Prelude.{
  ℕ, Bool, true, String, Option, none, some, List, [], ◌∷◌, ◌++◌, map, not, if◌then◌else◌,
}
use microsoft_agt_rust.Prelude.Result.{Result, ok, err, map_err, ok_or, ensure, ◌>>=◌, ◌>>◌}
use microsoft_agt_rust.Platform.{Platform}
use microsoft_agt_rust.Identity.Ring.{system, ring_eq}
use microsoft_agt_rust.Identity.AgentId
use microsoft_agt_rust.Audit.{
  ActionLogRecord, ActionOutcome, discovery_event, permitted, denied, unknown, AuditJson,
}
use microsoft_agt_rust.Compliance.Log.{FileActionLog, AppendIo, append, replay_since}
use microsoft_agt_rust.Discovery
use microsoft_agt_rust.Discovery.{
  DiscoveredAgent, DiscoveryEvent, presence, shadow, DiscoveryManager, Seen, active,
}
use microsoft_agt_rust.Daemon.Auth.{parse_did, verify_request_signature}
use microsoft_agt_rust.Grpc.Proto.{
  Status, status, unauthenticated, invalid_argument, internal, permission_denied, Timestamp,
  PresenceReport, ShadowAlert, Prost,
}
use microsoft_agt_rust.Grpc.Convert.{Chrono, to_proto_did, to_proto_timestamp, from_proto_timestamp}
use microsoft_agt_rust.Grpc.Call.{Call, authenticate, extract_grpc_auth}

-- serde's JSON of an event, and how a text is read as one.
pub record EventJson : Type 0 where
  pub to_string : DiscoveryEvent → String
  pub from_str : String → Result String DiscoveryEvent

-- One turn of the worker: what `recv` gives, `none` for its error, and what the append meets.
pub record Turn : Type 0 where
  pub received : Option DiscoveryEvent
  pub record_id : String
  pub stamped_at : ℕ
  pub log_io : AppendIo

module _ (p : Platform) (a : AuditJson) (j : EventJson) where
  -- The record of a shadow event.
  abbrev pub alert_record : Turn → DiscoveredAgent → ActionLogRecord
  alert_record t agent = record {
    record_id = t.record_id;
    agent_did = AgentId.display agent.did;
    action = "discovery_alert";
    resource_category = unknown;
    timestamp = t.stamped_at;
    outcome = discovery_event (j.to_string (shadow agent));
    prev_hash = "";
  }

  -- The body of the worker's loop. The result of the append is dropped.
  pub bridge_event : Turn → DiscoveryEvent → FileActionLog → FileActionLog
  bridge_event t (presence agent) log = log
  bridge_event t (shadow agent) log = (append p a t.log_io (alert_record t agent) log).1

  -- The worker's loop, which ends at the first error of `recv`.
  pub bridge : List Turn → FileActionLog → FileActionLog
  unfolding bridge_event
  bridge [] log = log
  bridge (t ∷ turns) log = elim t.received [
    | none ↦ log
    | some event ↦ bridge turns (bridge_event t event log)
  ]

module _ (c : Chrono) (j : EventJson) where
  abbrev pub alert_of : DiscoveredAgent → ShadowAlert
  alert_of agent = record {
    did = some (to_proto_did agent.did);
    name = agent.name;
    detected_at = some (to_proto_timestamp c agent.last_seen);
    transport_address = agent.transport_address;
  }

  -- The alert of one event that is read or received, if it is a shadow.
  abbrev pub alert_for : Result String DiscoveryEvent → List ShadowAlert
  alert_for (err e) = []
  alert_for (ok (presence agent)) = []
  alert_for (ok (shadow agent)) = alert_of agent ∷ []

  abbrev pub alert_in : ActionOutcome → List ShadowAlert
  alert_in permitted = []
  alert_in (denied rule reason) = []
  alert_in (discovery_event event_json) = alert_for (j.from_str event_json)

  -- The loop over the replayed records.
  unfoldable pub initial_alerts : List ActionLogRecord → List ShadowAlert
  initial_alerts [] = []
  initial_alerts (r ∷ rs) = alert_in r.outcome ++ initial_alerts rs

  -- The alerts of the live stream.
  unfoldable pub live_alerts : List (Result String DiscoveryEvent) → List ShadowAlert
  live_alerts [] = []
  live_alerts (e ∷ es) = alert_for e ++ live_alerts es

  abbrev pub replayed : Result String (List ActionLogRecord) → List ShadowAlert
  replayed (err e) = []
  replayed (ok records) = initial_alerts records

  abbrev pub since_of : ℕ → Option Timestamp → Result Status ℕ
  since_of now none = ok now
  since_of now (some ts) = from_proto_timestamp c ts

  -- The checks of `watch_shadows`, up to the time from which it replays.
  pub watched_from : Platform → Prost → String → Call → ℕ → Option Timestamp → Result Status ℕ
  watched_from p x registry_pubkey call started_at since_timestamp = do
    auth ← extract_grpc_auth p call.metadata
    found ← map_err (status internal) (call.registry.get_ring auth.0)
    ring ← ok_or (status unauthenticated "Agent not registered") found
    ensure (ring_eq ring system)
        (status permission_denied "Only System-ring agents can watch shadows")
    map_err (status unauthenticated) (
        verify_request_signature p call.now auth.0 auth.1 (x.watch_shadows_request since_timestamp)
          call.registry registry_pubkey)
    since_of started_at since_timestamp

  -- `watch_shadows`: the alerts replayed from the log, and then those of the events that are received
  -- while the stream lasts.
  pub watch_shadows :
      Platform
      → AuditJson
      → Prost
      → String
      → Call
      → ℕ
      → Option Timestamp
      → List (Result String DiscoveryEvent)
      → List String
      → Result Status (List ShadowAlert)
  unfolding watched_from
  watch_shadows p a x registry_pubkey call started_at since_timestamp live lines = do
    since ← watched_from p x registry_pubkey call started_at since_timestamp
    ok (replayed (replay_since a since lines) ++ live_alerts live)

-- report_presence
pub report_presence :
    Platform
    → Prost
    → String
    → Call
    → Seen
    → PresenceReport
    → DiscoveryManager
    → Result Status Bool × DiscoveryManager
report_presence p x registry_pubkey call seen inner m =
    let checked = (do
      did_str ← authenticate p registry_pubkey call (x.presence_report inner)
      map_err (status invalid_argument) (parse_did did_str)) in
    elim checked [
      | err e ↦ (err e, m)
      | ok did ↦ (ok true, Discovery.report_presence seen did inner.name inner.address active m)
    ]
