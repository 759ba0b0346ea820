-- ===== src/Clients/Remote/Tests.antt =====
-- The round trip of a policy at a concrete call.
use microsoft_agt_rust.Prelude.{◌≡◌, refl, some, [], arith}
use microsoft_agt_rust.Prelude.Result.{ok}
use microsoft_agt_rust.Platform.Toy.{toy, toy_laws}
use microsoft_agt_rust.Fixtures.Agents.{key}
use microsoft_agt_rust.Fixtures.Policies.{
  plain_policies, plain_policy_laws, policy_not_empty, strict,
}
use microsoft_agt_rust.Fixtures.Calls.{
  plain_prost, setup, a1, call_over, call_over-IsKnown, service, open_channel, open_channel-IsOpen,
}
use microsoft_agt_rust.Clients.Remote.{NetworkPolicyStore, save_policy, load_policy}
use microsoft_agt_rust.Clients.Remote.RoundTrip.{set_at, get_at, load_policy-save_policy}

abbrev client : NetworkPolicyStore
client = record { agent_did = a1; signing_key = key }

load_policy-save_policy_example :
    let (saved, s') =
      save_policy toy plain_prost plain_policies open_channel
        (set_at setup open_channel client (call_over []))
        "did:mesh:b2"
        strict
        client
        service in
    (saved ≡ ok tt)
    × (load_policy toy plain_prost plain_policies open_channel
          (get_at setup open_channel client (call_over []))
          "did:mesh:b2"
          client
          s'
        ≡ ok (some strict))
load_policy-save_policy_example =
    load_policy-save_policy setup open_channel client (call_over []) (call_over []) toy_laws
      plain_policy_laws policy_not_empty refl (omega arith) "did:mesh:b2" strict service
      open_channel-IsOpen (call_over-IsKnown []) (call_over-IsKnown [])
