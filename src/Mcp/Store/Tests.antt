-- ===== src/Mcp/Store/Tests.antt =====
-- The theorem on the two policy stores at a concrete run, with policies in a plain format.
use microsoft_agt_rust.Prelude.{◌≡◌, refl, List, [], ◌∷◌, eq_iff}
use microsoft_agt_rust.Prelude.Result.{ok, err}
use microsoft_agt_rust.Prelude.Map
use microsoft_agt_rust.Prelude.Text.{utf8}
use microsoft_agt_rust.Platform.Toy.{toy, toy_encode}
use microsoft_agt_rust.Fixtures.Policies.{plain_policies, plain_policy_laws, strict}
use microsoft_agt_rust.Directory.{empty_dir, IsDistinct}
use microsoft_agt_rust.Mcp.Store.{FilePolicyStore, MemoryPolicyStore, load_policy, load_policy_file}
use microsoft_agt_rust.Mcp.Store.Files.{
  Write, saves, deletes, all_files, all_memory, all_files-all_memory,
}

-- A save, one that fails at the rename, and a deletion of another agent's policy.
abbrev writes : List Write
writes =
    saves (record { written = ok tt; renamed = ok tt }) "a" strict
    ∷ saves (record { written = ok tt; renamed = err "busy" }) "a"
        (record strict { denylist = "read" ∷ [] })
    ∷ deletes (ok tt) "b"
    ∷ []

abbrev no_files : FilePolicyStore
no_files = record { base_dir = empty_dir }

abbrev no_policies : MemoryPolicyStore
no_policies = record { policies = [] }

distinct : IsDistinct toy "a" "b"
unfolding utf8 toy_encode
distinct h = cc ((eq_iff (toy_encode (utf8 "b")) (toy_encode (utf8 "a"))).1 h)

no_answers : load_policy_file toy plain_policies "a" no_files ≡ load_policy "a" no_policies
unfolding load_policy_file load_policy Map.get
no_answers = refl

all_files-all_memory_example :
    load_policy_file toy plain_policies "a" (all_files toy plain_policies no_files writes)
    ≡ load_policy "a" (all_memory no_policies writes)
all_files-all_memory_example =
    all_files-all_memory toy plain_policies plain_policy_laws "a" writes no_files no_policies
      ((λ h. refl), ((λ h. refl), (distinct, tt))) no_answers
