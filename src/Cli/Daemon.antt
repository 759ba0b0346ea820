-- ===== src/Cli/Daemon.antt =====
-- The state that the commands `daemon` and `gateway` start a server from, and `log verify`. The random
-- bytes of `generate_signing_key` and the environment's variables are arguments.
pub mod Placeholder
use Prim.Native.String.{◌++◌ as str_append}
use mathlib.Core.Option.{get_or}
use microsoft_agt_rust.Prelude.{
  ℕ, Bool, false, String, Option, none, some, List, [], ◌∷◌, map, length, if◌then◌else◌,
}
use microsoft_agt_rust.Prelude.Result.{Result, ok, err, ◌>>=◌}
use microsoft_agt_rust.Platform.{Platform}
use microsoft_agt_rust.Audit.{AuditJson}
use microsoft_agt_rust.Compliance.Log.{Disk, FileActionLog, ChainViolation, open_, verify_chain}
use microsoft_agt_rust.Identity.Registry
use microsoft_agt_rust.Identity.Registry.{MemoryAgentRegistry, FileAgentRegistry, RecordJson}
use microsoft_agt_rust.Identity.KeyStore.{MemoryKeyStore}
use microsoft_agt_rust.Mcp.Store.{MemoryPolicyStore}
use microsoft_agt_rust.Rings.Escalation.{EscalationManager}
use microsoft_agt_rust.Discovery
use microsoft_agt_rust.Discovery.{DiscoveryManager}

-- The parts of `ServerState`, over the state `R` of its registry.
pub record ServerState (R : Type 0) : Type 0 where
  pub registry : R
  pub key_store : MemoryKeyStore
  pub policy_store : MemoryPolicyStore
  pub escalation_manager : EscalationManager
  pub discovery_manager : DiscoveryManager
  pub action_log : FileActionLog
  pub registry_pubkey : String

-- The servers' state around a registry. Whether there is an audit log and an exporter is given.
abbrev pub started : {R : Type 0} → R → Disk → Bool → Bool → String → ServerState R
started registry log audit siem registry_pubkey = record {
  registry = registry;
  key_store = record { keys = [] };
  policy_store = record { policies = [] };
  escalation_manager = record {
    pending = [];
    audit_log = if audit then some [] else none;
    siem_exporter = if siem then some [] else none;
    registry_pubkey = registry_pubkey;
  };
  discovery_manager = Discovery.new;
  action_log = open_ log;
  registry_pubkey = registry_pubkey;
}

-- The variables AGT_REGISTRY_PUBKEY and AGT_REGISTRY_DID.
pub record Env : Type 0 where
  pub registry_pubkey : Option String
  pub registry_did : Option String

-- `daemon` without a file for its registry.
pub daemon : Env → List ℕ → Disk → Bool → Bool → ServerState MemoryAgentRegistry
daemon env bytes log audit siem =
    started (Registry.new bytes (get_or env.registry_did "did:mesh:registry")) log audit siem
      (get_or env.registry_pubkey "placeholder-replace-me")

-- `daemon` with the file of its registry, of the given lines.
pub daemon_with_file :
    RecordJson
    → List String
    → Env
    → List ℕ
    → Disk
    → Bool
    → Bool
    → Result String (ServerState FileAgentRegistry)
daemon_with_file j lines env bytes log audit siem = do
  registry ← Registry.open_ j lines bytes (get_or env.registry_did "did:mesh:registry")
  ok (started registry log audit siem (get_or env.registry_pubkey "placeholder-replace-me"))

-- gateway
pub gateway : Env → List ℕ → Disk → ServerState MemoryAgentRegistry
gateway env bytes log =
    started (Registry.new bytes "did:mesh:registry") log false false
      (get_or env.registry_pubkey "placeholder")

-- What `log verify` prints of one violation. `show` is how a number is displayed.
pub violation_line : (ℕ → String) → ChainViolation → String
violation_line show v = str_append "    Violation at index " (
    str_append (show v.index)
      (str_append ": Record " (str_append v.record_id " has unexpected prev_hash")))

-- The lines and the exit code.
pub verified : (ℕ → String) → List ChainViolation → List String × ℕ
verified show [] = ("  ✓ Chain intact" ∷ [], 0)
verified show (v ∷ vs) = (
  str_append "  ✗ Chain compromised: " (str_append (show (length (v ∷ vs))) " violations detected")
      ∷ map (violation_line show) (v ∷ vs),
  1,
)

-- log verify
pub log_verify : Platform → AuditJson → (ℕ → String) → Disk → Result String (List String × ℕ)
unfolding verified
log_verify p j show disk =
    verify_chain p j (open_ disk).lines >>= λ violations. ok (verified show violations)
