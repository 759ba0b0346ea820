-- ===== src/Rings.antt =====
-- crates/core/runtime/src/rings.
pub mod Enforcer
pub mod Escalation
