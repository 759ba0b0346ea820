-- ===== src/Lib.antt =====
-- Agent Governance Technology (AGT): identities of agents, the rings of privilege, the action log, the
-- compliance rules, and the daemon that enforces them. The Rust code is under crates/.
--
-- How the parts work together: an agent has a DID and a key. A registry attests the key and knows the
-- agent's ring. Every request to the daemon names a DID and carries a signature over its body, which
-- is checked against the attested key. The daemon's HTTP routes evaluate an action under the compliance
-- rules and append the outcome to the action log, a file of records linked by hashes. Its gateway
-- stands in front of an MCP server: it limits the rate of tool calls, asks the policy enforcer and the
-- compliance rules, and forwards what they allow. An agent that lacks a ring asks for an escalation,
-- which an agent of the System ring approves with a signature. Unknown callers are reported to
-- discovery as shadow agents, which a worker copies to the action log and a gRPC stream reports.
-- Agents reach the daemon through clients, over HTTP for attestations, keys and policies, and over
-- gRPC for policies and escalations; the command line is such a client too. A circuit breaker guards
-- calls to other services, a manager of credentials issues bearer tokens, a scorer keeps risk scores
-- of agents, namespaces group them, and a stateless kernel checks actions against its own policies.
--
-- Files and the code that they model:
--   Identity/Ring, AgentId     crates/core/mesh/src/identity/agent_id.rs, rotation.rs
--   Identity/Attestation       crates/core/mesh/src/identity/attestation.rs
--   Identity/Registry          crates/core/mesh/src/identity/registry.rs (trait, memory, file)
--   Identity/KeyStore          crates/core/mesh/src/identity/keystore.rs, and create and load of
--                              agent_id.rs
--   Audit                      crates/core/mesh/src/audit.rs
--   Compliance, its Log        crates/ext/compliance/src/lib.rs (rules and verifier; FileActionLog)
--   Rings/Enforcer             crates/core/runtime/src/rings/enforcer.rs
--   Rings/Escalation           crates/core/runtime/src/rings/escalation.rs, and the types of
--                              crates/core/mesh/src/identity/escalation.rs
--   Mcp                        crates/ext/mcp-governance/src/lib.rs
--   Mcp/Store, Directory       crates/ext/mcp-governance/src/store.rs (memory and file)
--   Discovery                  crates/ext/discovery/src/lib.rs
--   Credentials                crates/core/mesh/src/identity/credentials.rs
--   Risk                       crates/core/mesh/src/identity/risk.rs
--   Namespace                  crates/core/mesh/src/governance/namespace.rs
--   Transport                  crates/core/mesh/src/transport/base.rs, websocket.rs
--   Kernel                     crates/core/os/src/lib.rs
--   CircuitBreaker             crates/core/sre/src/circuit_breaker.rs
--   Clients, Registry, Keys    crates/core/mesh/src/identity/registry_http.rs, keystore_http.rs
--   Clients/Policies, Remote   crates/ext/mcp-governance/src/store.rs (HTTP and gRPC)
--   Daemon/Auth, Grpc/Call     crates/daemon/src/grpc/auth.rs
--   Daemon/Http, its Routes    crates/daemon/src/lib.rs
--   Daemon/Gateway             crates/daemon/src/gateway.rs (mcp_proxy_handler)
--   Grpc/Convert               crates/daemon/src/grpc/convert.rs
--   Grpc/Escalations           crates/daemon/src/grpc/escalation.rs
--   Grpc/Agents                crates/daemon/src/grpc/registry.rs
--   Grpc/Shadows               crates/daemon/src/grpc/discovery.rs, and the worker of lib.rs
--   Cli                        crates/cli/src/main.rs (escalate, daemon, gateway, log verify)
-- Prelude holds what they share (results, lists, hash maps, texts); Platform what they take from
-- base64, ed25519, SHA-256 and serde, as parameters with their documented laws, and so a component
-- what it alone takes from a library (floating point, encryption, prost, chrono); Fixtures concrete
-- instances of these parameters, for tests. The modules below a component hold its theorems, and its
-- Tests concrete runs.
--
-- Functions keep the names of the source. A method that writes through a lock takes the state and
-- returns the new one; a handler takes as a record what it reads from outside in one request (headers,
-- clock readings, fresh UUIDs, results of writes, answers of other servers). A `Result` is one, and `?`
-- its bind. Times are nanoseconds; a `u32` that can overflow wraps. Every loop of the source runs over
-- a list, and is a recursion on it, so that no fuel is used anywhere. What a failed write leaves of the
-- action log's two files is an argument of `append`; the log's lines are those on disk with those that
-- its writer holds for the next flush.
--
-- Not modelled: sockets, TLS and the routing of requests, the generation of certificates, log lines,
-- poisoned locks (no holder of a lock panics), the parser of the command line, and of its commands
-- run, status, discovery and policy; the exporter that sends events over HTTP; the life cycle of
-- agents, of which the source has one method and no transition; the record of a delegation; and the
-- saga orchestrator, a stub in the source.
pub mod Prelude
pub mod CircuitBreaker
pub mod Platform
pub mod Identity
pub mod Audit
pub mod Compliance
pub mod Rings
pub mod Mcp
pub mod Discovery
pub mod Credentials
pub mod Daemon
pub mod Cli
pub mod Clients
pub mod Directory
pub mod Grpc
pub mod Kernel
pub mod Namespace
pub mod Risk
pub mod Transport
pub mod Fixtures
