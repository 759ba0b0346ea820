-- ===== src/Namespace/Tests.antt =====
-- The theorems on namespaces at a concrete manager.
use microsoft_agt_rust.Prelude.{◌≡◌, refl, true, String, none, some, List, [], ◌∷◌}
use microsoft_agt_rust.Prelude.Map
use microsoft_agt_rust.Namespace.{
  new, can_communicate, Call, creates, adds, run, step, create_namespace, add_member, last_with,
}
use microsoft_agt_rust.Namespace.Members.{Holds, run-new-can_communicate}
use microsoft_agt_rust.Namespace.Parents.{AllRooted, run-new-AllRooted}

-- Two namespaces, one below the other, and two members of the lower one.
abbrev calls : List Call
calls =
    creates "prod" "production" none
    ∷ creates "web" "front end" (some "prod")
    ∷ adds "web" "a"
    ∷ adds "web" "b"
    ∷ creates "lost" "" (some "nowhere")
    ∷ []

can : can_communicate "a" "b" (run new calls) ≡ true
unfolding can_communicate run step create_namespace add_member last_with Map.get Map.insert
can = refl

run-new-can_communicate_example :
    (name : String) × Holds (run new calls).namespaces name "a"
    × Holds (run new calls).namespaces name "b"
run-new-can_communicate_example = run-new-can_communicate calls "a" "b" can

run-new-AllRooted_example : AllRooted (run new calls).namespaces
run-new-AllRooted_example = run-new-AllRooted calls
