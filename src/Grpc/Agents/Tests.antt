-- ===== src/Grpc/Agents/Tests.antt =====
-- The theorem on registrations at a concrete call.
use microsoft_agt_rust.Prelude.{ℕ, ◌≡◌, true, some, List}
use microsoft_agt_rust.Prelude.Result.{ok}
use microsoft_agt_rust.Platform.Toy.{toy}
use microsoft_agt_rust.Identity.Ring.{system}
use microsoft_agt_rust.Identity.Registry.{get_ring}
use microsoft_agt_rust.Fixtures.Agents.{registry_key, agent_a, empty_memory}
use microsoft_agt_rust.Fixtures.Calls.{plain_prost, a1, call_over, authenticate-call_over}
use microsoft_agt_rust.Grpc.Agents.{register}
use microsoft_agt_rust.Grpc.Agents.Register.{in_memory, asks, register_by_anyone}

abbrev body : List ℕ
body = plain_prost.register_request (asks agent_a system)

register_by_anyone_example :
    let (answer, m') =
      register toy plain_prost registry_key
        (call_over body)
        in_memory
        (asks agent_a system)
        empty_memory in
    (answer ≡ ok true) × (get_ring m' "did:mesh:a1" ≡ ok (some system))
register_by_anyone_example =
    register_by_anyone toy plain_prost registry_key (call_over body) a1 agent_a system empty_memory
      (authenticate-call_over body)
