-- ===== src/Rings/Enforcer.antt =====
-- crates/core/runtime/src/rings/enforcer.rs. The two log lines that it writes are not modelled.
use microsoft_agt_rust.Prelude.{Bool, String}
use microsoft_agt_rust.Identity.Ring.{PrivilegeRing, ring_le}

-- Enforcer::can_execute
unfoldable pub can_execute : String → PrivilegeRing → PrivilegeRing → String → Bool
can_execute agent_did agent_ring required_ring action = ring_le agent_ring required_ring
