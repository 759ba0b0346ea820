-- ===== src/Discovery/Tests.antt =====
-- The theorems on discovery at concrete reports.
use microsoft_agt_rust.Prelude.{[], ◌∷◌}
use microsoft_agt_rust.Identity.AgentId.{AgentDid}
use microsoft_agt_rust.Discovery.{Seen, active, passive, new}
use microsoft_agt_rust.Discovery.Announced.{
  reports, registers, run, IsAnnounced, run-new-IsAnnounced,
}

abbrev agent : AgentDid
agent = record { method = "mesh"; unique_id = "s1" }

abbrev early : Seen
early = record { first = 1; made = 2; updated = 3 }

run-new-IsAnnounced_example : IsAnnounced (
    run new (
      reports early agent "unknown" "10.0.0.1" passive
      ∷ registers "did:mesh:s1"
      ∷ reports early agent "shop" "10.0.0.1" active
      ∷ []))
run-new-IsAnnounced_example = run-new-IsAnnounced (
    reports early agent "unknown" "10.0.0.1" passive
    ∷ registers "did:mesh:s1"
    ∷ reports early agent "shop" "10.0.0.1" active
    ∷ [])
