-- ===== src/Grpc/Shadows/Tests.antt =====
-- The theorems on shadow agents at a concrete stream.
use microsoft_agt_rust.Prelude.{
  ℕ, zero, suc, ◌≡◌, refl, Bool, true, false, none, some, String, List, [], ◌∷◌, ◌++◌, arith,
}
use microsoft_agt_rust.Prelude.Result.{Result, ok}
use microsoft_agt_rust.Platform.Toy.{toy, toy_laws}
use microsoft_agt_rust.Compliance.Log.{FileActionLog, missing, all_written}
use microsoft_agt_rust.Compliance.Log.History.{load_history-to_string}
use microsoft_agt_rust.Discovery.{
  DiscoveredAgent, DiscoveryEvent, presence, shadow, DiscoverySource, active, passive,
}
use microsoft_agt_rust.Fixtures.Agents.{
  key, registry_key, attestation, all_a, attestation-IsGenuine, signed_by_a,
}
use microsoft_agt_rust.Fixtures.Audit.{plain_json, plain_laws}
use microsoft_agt_rust.Fixtures.Wire.{
  write_text, read_text, read_text-write_text, write_number, read_number, read_number-write_number,
}
use microsoft_agt_rust.Fixtures.Calls.{plain_prost, plain_chrono, a1, call_over}
use microsoft_agt_rust.Daemon.Auth.{verify_request_signature}
use microsoft_agt_rust.Daemon.Auth.Requests.{verify_request_signature_iff}
use microsoft_agt_rust.Grpc.Call.{extract_grpc_auth}
use microsoft_agt_rust.Grpc.Shadows.{
  EventJson, Turn, bridge, initial_alerts, live_alerts, watched_from, watch_shadows,
}
use microsoft_agt_rust.Grpc.Shadows.Replay.{EventJsonLaws, due, watch_shadows-bridge}
use microsoft_agt_rust.Grpc.Shadows.Watchers.{IsWatcher, watch_shadows-IsWatcher}

bit : Bool → ℕ
bit false = 0
bit true = 1

bit_of : ℕ → Bool
bit_of zero = false
bit_of (suc n) = true

bit_of-bit : (b : Bool) → bit_of (bit b) ≡ b
unfolding bit bit_of
bit_of-bit false = refl
bit_of-bit true = refl

source_bit : DiscoverySource → ℕ
source_bit active = 0
source_bit passive = 1

source_of : ℕ → DiscoverySource
source_of zero = active
source_of (suc n) = passive

source_of-source_bit : (s : DiscoverySource) → source_of (source_bit s) ≡ s
unfolding source_of source_bit
source_of-source_bit active = refl
source_of-source_bit passive = refl

write_agent : DiscoveredAgent → String
unfolding bit source_bit
write_agent a = write_text a.did.method (
    write_text a.did.unique_id (
      write_text a.name (
        write_number a.first_seen (
          write_number a.last_seen (
            write_text a.transport_address
              (write_number (bit a.is_registered) (write_number (source_bit a.source) "")))))))

read_agent : String → DiscoveredAgent
unfolding bit_of source_of
read_agent s0 =
    let (method, s1) = read_text s0 in
    let (unique_id, s2) = read_text s1 in
    let (name, s3) = read_text s2 in
    let (first_seen, s4) = read_number s3 in
    let (last_seen, s5) = read_number s4 in
    let (address, s6) = read_text s5 in
    let (registered, s7) = read_number s6 in
    let (source, _) = read_number s7 in
    record {
      did = record { method = method; unique_id = unique_id };
      name = name;
      first_seen = first_seen;
      last_seen = last_seen;
      transport_address = address;
      is_registered = bit_of registered;
      source = source_of source;
    }

read_agent-write_agent : (a : DiscoveredAgent) → read_agent (write_agent a) ≡ a
unfolding read_agent write_agent
read_agent-write_agent a =
    simp (read_text-write_text, read_number-write_number, bit_of-bit, source_of-source_bit)

to_string : DiscoveryEvent → String
to_string (presence a) = write_number 0 (write_agent a)
to_string (shadow a) = write_number 1 (write_agent a)

event_at : ℕ → DiscoveredAgent → DiscoveryEvent
event_at zero a = presence a
event_at (suc n) a = shadow a

from_str : String → Result String DiscoveryEvent
unfolding event_at
from_str s0 = let (kind, s1) = read_number s0 in ok (event_at kind (read_agent s1))

from_str-to_string : (e : DiscoveryEvent) → from_str (to_string e) ≡ ok e
unfolding from_str to_string event_at
from_str-to_string (presence a) = simp (read_number-write_number, read_agent-write_agent)
from_str-to_string (shadow a) = simp (read_number-write_number, read_agent-write_agent)

abbrev plain_events : EventJson
plain_events = record { to_string = to_string; from_str = from_str }

plain_event_laws : EventJsonLaws plain_events
plain_event_laws = record { from_str-to_string = from_str-to_string }

abbrev stranger : DiscoveredAgent
stranger = record {
  did = record { method = "mesh"; unique_id = "z9" };
  name = "unknown";
  first_seen = 30;
  last_seen = 31;
  transport_address = "10.0.0.9:41";
  is_registered = false;
  source = passive;
}

-- A shadow event, a presence event, and an error at which the worker ends.
abbrev turns : List Turn
turns =
    record {
      received = some (shadow stranger);
      record_id = "r1";
      stamped_at = 40;
      log_io = all_written;
    }
    ∷ record {
      received = some (presence stranger);
      record_id = "r2";
      stamped_at = 41;
      log_io = all_written;
    }
    ∷ record { received = none; record_id = "r3"; stamped_at = 42; log_io = all_written }
    ∷ []

abbrev empty_log : FileActionLog
empty_log = record { disk = record { lines = []; checkpoint = missing }; last_hash = "genesis" }

abbrev signature : List ℕ
signature = toy.sign key []

extracted : extract_grpc_auth toy (call_over []).metadata ≡ ok (a1, signature)
unfolding extract_grpc_auth
extracted = ground (arith, toy_laws.decode-encode signature)

passes : verify_request_signature toy 15 a1 signature [] all_a registry_key ≡ ok tt
passes = (verify_request_signature_iff toy 15 a1 signature [] all_a registry_key).1 (record {
  attestation = attestation;
  attested = refl;
  genuine = attestation-IsGenuine;
  signed = signed_by_a [];
})

opens :
    watched_from plain_chrono plain_events toy plain_prost registry_key (call_over []) 20 none
    ≡ ok 20
unfolding watched_from
opens = ground (arith, extracted, passes)

watch_shadows-bridge_example :
    watch_shadows plain_chrono plain_events toy plain_json plain_prost registry_key
      (call_over [])
      20
      none
      []
      (bridge toy plain_json plain_events turns empty_log).lines
    ≡ ok (([] ++ due plain_chrono plain_events turns) ++ [])
unfolding initial_alerts live_alerts
watch_shadows-bridge_example =
    watch_shadows-bridge toy plain_json plain_events plain_chrono plain_laws plain_event_laws
      plain_prost registry_key (call_over []) 20 20 none [] turns empty_log [] opens
      ((refl, refl), ((refl, refl), ((refl, refl), tt)))
      (load_history-to_string plain_json plain_laws "" 20 []).1

watch_shadows-IsWatcher_example :
    IsWatcher plain_chrono plain_events toy plain_prost registry_key (call_over []) 20 none
watch_shadows-IsWatcher_example =
    watch_shadows-IsWatcher plain_chrono plain_events toy plain_prost registry_key (call_over []) 20
      none plain_json [] (bridge toy plain_json plain_events turns empty_log).lines
      (([] ++ due plain_chrono plain_events turns) ++ []) watch_shadows-bridge_example
