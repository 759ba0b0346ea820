-- ===== src/Mcp/Store.antt =====
-- crates/ext/mcp-governance/src/store.rs: the policies in memory and in files. A lock is never
-- poisoned.
pub mod Files
mod Tests
use microsoft_agt_rust.Prelude.{Bool, true, false, ◌&&◌, String, Option, none, some, List, [], ◌∷◌}
use microsoft_agt_rust.Prelude.Result.{Result, ok, err, ◌>>=◌}
use microsoft_agt_rust.Prelude.Map
use microsoft_agt_rust.Prelude.Map.{HashMap}
use microsoft_agt_rust.Prelude.Text.{utf8}
use microsoft_agt_rust.Platform.{Platform}
use microsoft_agt_rust.Directory.{Directory, SaveIo, file_stem, read, replace, discard}
use microsoft_agt_rust.Mcp.{McpPolicy}

-- serde's JSON of a policy, and how it is read.
pub record PolicyJson : Type 0 where
  pub to_string : McpPolicy → String
  pub from_str : String → Result String McpPolicy

-- The trait `PolicyStore` over a state `S`, as far as the servers call it.
pub record PolicyStore (S : Type 0) : Type 0 where
  pub save_policy : String → McpPolicy → S → Result String (Unit {0}) × S
  pub load_policy : String → S → Result String (Option McpPolicy)

pub record MemoryPolicyStore : Type 0 where
  pub policies : HashMap McpPolicy

unfoldable pub save_policy : String → McpPolicy → MemoryPolicyStore → MemoryPolicyStore
save_policy agent_did policy s = record { policies = Map.insert s.policies agent_did policy }

unfoldable pub load_policy : String → MemoryPolicyStore → Result String (Option McpPolicy)
load_policy agent_did s = ok (Map.get s.policies agent_did)

pub delete_policy : String → MemoryPolicyStore → MemoryPolicyStore
delete_policy agent_did s = record { policies = Map.remove s.policies agent_did }

pub list_policies : MemoryPolicyStore → Result String (HashMap McpPolicy)
list_policies s = ok s.policies

-- The store in memory behind the trait.
unfoldable pub as_trait : PolicyStore MemoryPolicyStore
as_trait = record {
  save_policy = λ did policy s. (ok tt, save_policy did policy s);
  load_policy = load_policy;
}

pub record FilePolicyStore : Type 0 where
  pub base_dir : Directory

-- FilePolicyStore::save_policy
pub save_policy_file :
    Platform
    → PolicyJson
    → SaveIo
    → String
    → McpPolicy
    → FilePolicyStore
    → Result String (Unit {0}) × FilePolicyStore
save_policy_file p j io agent_did policy s =
    let (result, dir) = replace io (file_stem p agent_did) (j.to_string policy) s.base_dir in
    (result, record { base_dir = dir })

-- FilePolicyStore::load_policy
pub load_policy_file :
    Platform → PolicyJson → String → FilePolicyStore → Result String (Option McpPolicy)
load_policy_file p j agent_did s = elim (read (file_stem p agent_did) s.base_dir) [
  | none ↦ ok none
  | some text ↦ j.from_str text >>= λ policy. ok (some policy)
]

-- `FilePolicyStore::delete_policy`; `io` is the outcome of `fs::remove_file`.
pub delete_policy_file :
    Platform
    → Result String (Unit {0})
    → String
    → FilePolicyStore
    → Result String (Unit {0}) × FilePolicyStore
delete_policy_file p io agent_did s =
    let (result, dir) = discard io (file_stem p agent_did) s.base_dir in
    (result, record { base_dir = dir })

-- The loop of `FilePolicyStore::list_policies`: files that are no policies are passed over.
pub list_files : PolicyJson → HashMap String → HashMap McpPolicy → HashMap McpPolicy
list_files j [] policies = policies
list_files j ((stem, text) ∷ files) policies = elim (j.from_str text) [
  | err _ ↦ list_files j files policies
  | ok policy ↦ list_files j files (Map.insert policies stem policy)
]

pub list_policies_file : PolicyJson → FilePolicyStore → Result String (HashMap McpPolicy)
unfolding list_files
list_policies_file j s = ok (list_files j s.base_dir.json [])
