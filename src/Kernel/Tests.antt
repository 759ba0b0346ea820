-- ===== src/Kernel/Tests.antt =====
-- The theorems on the kernel at concrete calls.
use microsoft_agt_rust.Prelude.{ℕ, ◌≡◌, refl, none, some, List, [], ◌∷◌, arith}
use microsoft_agt_rust.Prelude.Result.{ok}
use microsoft_agt_rust.Prelude.Map
use microsoft_agt_rust.Mcp.Json
use microsoft_agt_rust.Kernel.{
  ExecutionContext, MemoryBackend, StatelessKernel, as_trait, execute, load_state, ExecutionResult,
}
use microsoft_agt_rust.Kernel.Memory.{
  Call, gets, sets, deletes, Spec, memory_answers, spec_answers, memory_answers-spec_answers,
}
use microsoft_agt_rust.Kernel.Policies.{IsBlocked, here, execute-IsBlocked_iff}

abbrev empty : MemoryBackend
empty = record { store = [] }

abbrev nothing : Spec
nothing = λ key. none

-- A value that lives for a second, read in time and too late, and set again for ever.
abbrev calls : List (ℕ × Call)
calls =
    (10, sets "a" [] (some 1))
    ∷ (20, gets "a")
    ∷ (2000000000, gets "a")
    ∷ (2000000001, sets "a" [] none)
    ∷ (3000000000, gets "a")
    ∷ (3000000001, deletes "a")
    ∷ []

memory_answers-spec_answers_example : memory_answers calls empty ≡ spec_answers calls nothing
unfolding Map.get
memory_answers-spec_answers_example =
    memory_answers-spec_answers 0 calls empty nothing
      (omega arith, (omega arith, (omega arith, (omega arith, (omega arith, (omega arith, tt))))))
      (λ now key later. refl)

-- A policy that blocks one action.
abbrev kernel : StatelessKernel
kernel = record {
  policies =
      (
        "safe",
        Json.object (
            Json.field "blocked_actions" (Json.array (Json.cons (Json.string "drop") Json.nil))
              Json.end),
      )
      ∷ [];
}

abbrev context : ExecutionContext
context = record {
  agent_id = "a1";
  policies = "safe" ∷ [];
  history = [];
  state_ref = none;
  metadata = [];
}

loads : (load_state (as_trait 1 2) none empty).0 ≡ ok []
unfolding load_state
loads = refl

drop_IsBlocked : IsBlocked kernel "drop" ("safe" ∷ [])
unfolding Json.get Map.get
drop_IsBlocked = record {
  name = "safe";
  policy = _;
  items = _;
  named = refl;
  known = refl;
  blocked_actions = refl;
  listed = here refl;
}

execute-IsBlocked_iff_example :
    (r : ExecutionResult) × ((execute (as_trait 1 2) kernel "drop" [] context empty).0 ≡ ok r)
    × (r.signal ≡ some "SIGKILL")
execute-IsBlocked_iff_example =
    (execute-IsBlocked_iff (as_trait 1 2) kernel "drop" [] context empty [] loads).0.1
      drop_IsBlocked
