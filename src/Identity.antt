-- ===== src/Identity.antt =====
-- crates/core/mesh/src/identity: rings, identities, attestations, the registries.
pub mod Ring
pub mod AgentId
pub mod Attestation
pub mod Registry
pub mod KeyStore
mod Tests
