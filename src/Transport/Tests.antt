-- ===== src/Transport/Tests.antt =====
-- The states of a transport in a concrete series of calls.
use microsoft_agt_rust.Prelude.{false, List, [], ◌∷◌}
use microsoft_agt_rust.Prelude.Result.{ok, err}
use microsoft_agt_rust.Transport.{TransportConfig, Call, connects, disconnects, sends, new, run}
use microsoft_agt_rust.Transport.States.{IsSound, run-new-IsSound}

abbrev config : TransportConfig
config = record {
  host = "localhost";
  port = 9000;
  use_tls = false;
  timeout_seconds = 30;
  max_retries = 3;
  retry_delay_seconds = 1;
  metadata = [];
}

abbrev calls : List Call
calls =
    connects (err "refused")
    ∷ connects (ok tt)
    ∷ sends (ok tt) "1"
    ∷ disconnects (err "reset")
    ∷ disconnects (ok tt)
    ∷ []

run-new-IsSound_example : IsSound config (run (new config) calls)
run-new-IsSound_example = run-new-IsSound config calls
