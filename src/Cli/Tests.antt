-- ===== src/Cli/Tests.antt =====
-- The theorems on the command line at concrete commands.
use Prim.Native.String.{◌++◌}
use microsoft_agt_rust.Prelude.{◌≡◌, ◌≢◌, some, [], arith}
use microsoft_agt_rust.Prelude.Result.{ok}
use microsoft_agt_rust.Prelude.Map
use microsoft_agt_rust.Platform.Toy.{toy, toy_laws}
use microsoft_agt_rust.Identity.Ring.{trusted}
use microsoft_agt_rust.Rings.Escalation.{approval_payload}
use microsoft_agt_rust.Fixtures.Agents.{key}
use microsoft_agt_rust.Fixtures.Calls.{
  plain_prost, plain_chrono, plain_times, setup, a1, call_over, call_over-IsKnown, service,
  open_channel, open_channel-IsOpen,
}
use microsoft_agt_rust.Cli.Escalate.{approve_payload, request}
use microsoft_agt_rust.Cli.Escalate.Payload.{approve_payload-approval_payload}
use microsoft_agt_rust.Cli.Escalate.Request.{asked, request_at, request-pending}

approve_payload-approval_payload_example :
    approve_payload "e1" ≢ approval_payload "e1" "target-agent" trusted
approve_payload-approval_payload_example =
    approve_payload-approval_payload "e1" "e1" "target-agent" trusted

request-pending_example :
    let (printed, s') =
      request toy plain_prost plain_chrono open_channel
        (ok key)
        (request_at setup open_channel (call_over []) "e7" toy_laws plain_times)
        9
        a1
        trusted
        "deploy"
        service in
    (printed ≡ ok ("Escalation requested. Request ID: " ++ "e7"))
    × (Map.get s'.manager.pending "e7" ≡ some (asked 9 a1 trusted "deploy"))
request-pending_example =
    request-pending setup open_channel (call_over []) "e7" toy_laws plain_times key 9 a1 "deploy"
      trusted service open_channel-IsOpen (omega arith) (call_over-IsKnown [])
