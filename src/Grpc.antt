-- ===== src/Grpc.antt =====
-- crates/daemon/src/grpc: the conversions, the metadata of a call, and the three services.
pub mod Proto
pub mod Convert
pub mod Call
pub mod Escalations
pub mod Agents
pub mod Shadows
