-- ===== src/Namespace.antt =====
-- crates/core/mesh/src/governance/namespace.rs. A `HashSet` of members is a list without order.
pub mod Members
pub mod Parents
mod Tests
use Prim.Native.String.{◌++◌ as str_append}
use microsoft_agt_rust.Prelude.{
  Bool, true, false, ◌&&◌, ◌||◌, String, Option, none, some, List, [], ◌∷◌, any, contains, str_eq,
  if◌then◌else◌,
}
use microsoft_agt_rust.Prelude.Result.{Result, ok, err}
use microsoft_agt_rust.Prelude.Map
use microsoft_agt_rust.Prelude.Map.{HashMap}

pub record AgentNamespace : Type 0 where
  pub name : String
  pub description : String
  pub parent : Option String
  pub members : List String

pub record NamespaceRule : Type 0 where
  pub source_namespace : String
  pub target_namespace : String
  pub allowed : Bool

pub record NamespaceManager : Type 0 where
  pub namespaces : HashMap AgentNamespace
  pub rules : List NamespaceRule

-- NamespaceManager::new
abbrev pub new : NamespaceManager
new = record { namespaces = []; rules = [] }

-- Whether the parent that is named is not there.
abbrev pub orphaned : HashMap AgentNamespace → Option String → Bool
orphaned namespaces none = false
orphaned namespaces (some p) = if Map.contains_key namespaces p then false else true

abbrev named : Option String → String
named none = ""
named (some p) = p

-- NamespaceManager::create_namespace
pub create_namespace :
    String → String → Option String → NamespaceManager → Result String (Unit {0}) × NamespaceManager
create_namespace name description parent m =
    if Map.contains_key m.namespaces name
    then (err (str_append "Namespace already exists: " name), m)
    else if orphaned m.namespaces parent
    then (err (str_append "Parent namespace does not exist: " (named parent)), m)
    else (
      ok tt,
      record m {
        namespaces =
            Map.insert m.namespaces name
              (record { name = name; description = description; parent = parent; members = [] });
      },
    )

-- `HashSet::insert`
abbrev pub set_insert : String → List String → List String
set_insert did members = if contains members did then members else did ∷ members

-- NamespaceManager::add_member
pub add_member : String → String → NamespaceManager → Result String (Unit {0}) × NamespaceManager
add_member namespace_name agent_did m = elim (Map.get m.namespaces namespace_name) [
  | none ↦ (err "Namespace not found", m)
  | some ns ↦ (
    ok tt,
    record m {
      namespaces =
          Map.insert m.namespaces namespace_name
            (record ns { members = set_insert agent_did ns.members });
    },
  )
]

-- The loop over the namespaces, in the map's order: the last one that holds the agent.
pub last_with : String → HashMap AgentNamespace → Option String → Option String
last_with did [] found = found
last_with did ((name, ns) ∷ rest) found =
    last_with did rest (if contains ns.members did then some name else found)

pub permits : List NamespaceRule → String → String → Bool
permits rules f t =
    any (λ r. str_eq r.source_namespace f && str_eq r.target_namespace t && r.allowed) rules

-- NamespaceManager::can_communicate
pub can_communicate : String → String → NamespaceManager → Bool
unfolding permits last_with
can_communicate from_did to_did m = elim (last_with from_did m.namespaces none) [
  | none ↦ false
  | some f ↦ elim (last_with to_did m.namespaces none) [
    | none ↦ false
    | some t ↦ str_eq f t || permits m.rules f t
  ]
]

-- The calls that change the manager; no method writes a rule.
pub data Call : Type 0 where
  creates : String → String → Option String → Call
  adds : String → String → Call

pub step : NamespaceManager → Call → NamespaceManager
step m (creates name description parent) = (create_namespace name description parent m).1
step m (adds name did) = (add_member name did m).1

pub run : NamespaceManager → List Call → NamespaceManager
unfolding step
run m [] = m
run m (c ∷ cs) = run (step m c) cs
