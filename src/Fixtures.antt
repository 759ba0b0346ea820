-- ===== src/Fixtures.antt =====
-- Concrete values for what the program takes from its libraries, for tests.
pub mod Wire
pub mod Audit
pub mod Registry
pub mod Agents
pub mod Policies
pub mod Calls
