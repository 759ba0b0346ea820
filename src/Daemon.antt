-- ===== src/Daemon.antt =====
-- crates/daemon/src: request authentication, the HTTP handlers, and the MCP gateway.
pub mod Auth
pub mod Http
pub mod Gateway
