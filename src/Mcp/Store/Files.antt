-- ===== src/Mcp/Store/Files.antt =====
-- The store in files answers as the one in memory does.
use microsoft_agt_rust.Prelude.{◌≡◌, String, List, [], ◌∷◌, All, arith, eq_iff, if◌then◌else◌}
use microsoft_agt_rust.Prelude.Result.{Result, ok}
use microsoft_agt_rust.Prelude.Map.{get-insert, get-remove}
use microsoft_agt_rust.Platform.{Platform}
use microsoft_agt_rust.Directory.{
  SaveIo, is_ok, saved, file_stem, IsDistinct, read-replace, read-discard,
}
use microsoft_agt_rust.Mcp.{McpPolicy}
use microsoft_agt_rust.Mcp.Store.{
  PolicyJson, MemoryPolicyStore, FilePolicyStore, save_policy, load_policy, delete_policy,
  save_policy_file, load_policy_file, delete_policy_file,
}

-- serde reads back the policy that it wrote.
pub record PolicyJsonLaws (j : PolicyJson) : Type 0 where
  pub from_str-to_string : (policy : McpPolicy) → j.from_str (j.to_string policy) ≡ ok policy

-- The calls that write, with what becomes of their writes.
pub data Write : Type 0 where
  saves : SaveIo → String → McpPolicy → Write
  deletes : Result String (Unit {0}) → String → Write

abbrev pub subject : Write → String
subject (saves io did policy) = did
subject (deletes io did) = did

-- A call on the store in files.
pub write_file : Platform → PolicyJson → FilePolicyStore → Write → FilePolicyStore
write_file p j s (saves io did policy) = (save_policy_file p j io did policy s).1
write_file p j s (deletes io did) = (delete_policy_file p io did s).1

-- The same call on the store in memory, if all its writes go through.
pub write_memory : MemoryPolicyStore → Write → MemoryPolicyStore
write_memory s (saves io did policy) = if saved io then save_policy did policy s else s
write_memory s (deletes io did) = if is_ok io then delete_policy did s else s

pub all_files : Platform → PolicyJson → FilePolicyStore → List Write → FilePolicyStore
unfolding write_file
all_files p j s [] = s
all_files p j s (w ∷ ws) = all_files p j (write_file p j s w) ws

pub all_memory : MemoryPolicyStore → List Write → MemoryPolicyStore
unfolding write_memory
all_memory s [] = s
all_memory s (w ∷ ws) = all_memory (write_memory s w) ws

module _ (p : Platform) (j : PolicyJson) (laws : PolicyJsonLaws j) (did : String) where
  write-agrees :
      (w : Write) (f : FilePolicyStore) (m : MemoryPolicyStore)
      → IsDistinct p did (subject w)
      → load_policy_file p j did f ≡ load_policy did m
      → load_policy_file p j did (write_file p j f w) ≡ load_policy did (write_memory m w)
  unfolding write_file write_memory load_policy_file load_policy save_policy_file save_policy
      delete_policy_file delete_policy
  write-agrees (saves io other policy) f m d h = ground (
    arith,
    h,
    d,
    eq_iff other did,
    eq_iff (file_stem p other) (file_stem p did),
    laws.from_str-to_string policy,
    read-replace io (file_stem p other) (j.to_string policy) (file_stem p did) f.base_dir,
    get-insert m.policies other policy did,
  )
  write-agrees (deletes io other) f m d h = ground (
    arith,
    h,
    d,
    eq_iff other did,
    eq_iff (file_stem p other) (file_stem p did),
    read-discard io (file_stem p other) (file_stem p did) f.base_dir,
    get-remove m.policies other did,
  )

  -- After any saves and deletions of two stores that answer alike for a DID, some of whose writes may
  -- fail on the way, the store in files answers for that DID as the one in memory does that has had the
  -- calls whose writes went through, if no other DID of the calls has the same hash.
  pub all_files-all_memory :
      (ws : List Write) (f : FilePolicyStore) (m : MemoryPolicyStore)
      → All (λ w. IsDistinct p did (subject w)) ws
      → load_policy_file p j did f ≡ load_policy did m
      → load_policy_file p j did (all_files p j f ws) ≡ load_policy did (all_memory m ws)
  unfolding all_files all_memory
  all_files-all_memory [] f m d h = h
  all_files-all_memory (w ∷ ws) f m d h =
      all_files-all_memory ws (write_file p j f w) (write_memory m w) d.1 (write-agrees w f m d.0 h)
