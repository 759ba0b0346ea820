-- ===== src/Namespace/Parents.antt =====
-- The parents of namespaces.
use microsoft_agt_rust.Prelude.{
  ◌≡◌, inl, inr, refl, sym, subst, ◌∙◌, ◌⊎◌, String, Option, none, some, List, [], ◌∷◌, str_eq,
  eq_iff, arith, Bool-cases, Option-cases,
}
use microsoft_agt_rust.Prelude.Map
use microsoft_agt_rust.Prelude.Map.{HashMap, get-insert}
use microsoft_agt_rust.Namespace.{
  AgentNamespace, NamespaceManager, new, set_insert, create_namespace, add_member, Call, creates,
  adds, step, run,
}

-- The walk from a namespace to its parent, to that one's parent and so on ends at one without a parent.
pub data IsRooted (m : HashMap AgentNamespace) : String → Type 0 where
  root :
      {name : String} (ns : AgentNamespace)
      → Map.get m name ≡ some ns
      → ns.parent ≡ none
      → IsRooted m name
  child :
      {name : String} (ns : AgentNamespace) (p : String)
      → Map.get m name ≡ some ns
      → ns.parent ≡ some p
      → IsRooted m p
      → IsRooted m name

abbrev pub AllRooted : HashMap AgentNamespace → Type 0
AllRooted m = (name : String) (ns : AgentNamespace) → Map.get m name ≡ some ns → IsRooted m name

-- Every entry is kept, with its parent.
abbrev Extends : HashMap AgentNamespace → HashMap AgentNamespace → Type 0
Extends m m' =
    (name : String) (ns : AgentNamespace)
    → Map.get m name ≡ some ns
    → (ns' : AgentNamespace) × (Map.get m' name ≡ some ns') × (ns'.parent ≡ ns.parent)

IsRooted-Extends :
    (m m' : HashMap AgentNamespace)
    → Extends m m'
    → (name : String) → IsRooted m name
    → IsRooted m' name
IsRooted-Extends m m' x name (root ns e n) =
    let (ns', e', same) = x name ns e in root ns' e' (same ∙ n)
IsRooted-Extends m m' x name (child ns p e n r) =
    let (ns', e', same) = x name ns e in child ns' p e' (same ∙ n) (IsRooted-Extends m m' x p r)

add-Extends :
    (m : HashMap AgentNamespace) (name did : String) (ns : AgentNamespace)
    → Map.get m name ≡ some ns
    → Extends m (Map.insert m name (record ns { members = set_insert did ns.members }))
add-Extends m name did ns e other ns' e' = elim (Bool-cases (str_eq name other)) [
  | inl b ↦ (
    record ns { members = set_insert did ns.members },
    rw (get-insert m name (record ns { members = set_insert did ns.members }) other, b),
    ground (arith, e, e', b, eq_iff name other),
  )
  | inr b ↦ (
    ns',
    rw (get-insert m name (record ns { members = set_insert did ns.members }) other, b) e',
    refl,
  )
]

create-Extends :
    (m : HashMap AgentNamespace) (name : String) (fresh : AgentNamespace)
    → Map.get m name ≡ none
    → Extends m (Map.insert m name fresh)
create-Extends m name fresh e other ns e' =
    (ns, ground (arith, get-insert m name fresh other, e, e', eq_iff name other), refl)

-- A parent that is not named, or is there.
abbrev IsPlaced : HashMap AgentNamespace → Option String → Type 0
IsPlaced m parent =
    (parent ≡ none)
    ⊎ ((p : String) × (ns : AgentNamespace) × (parent ≡ some p) × (Map.get m p ≡ some ns))

create-AllRooted :
    (m : HashMap AgentNamespace) (name : String) (fresh : AgentNamespace)
    → Map.get m name ≡ none
    → IsPlaced m fresh.parent
    → AllRooted m
    → AllRooted (Map.insert m name fresh)
create-AllRooted m name fresh e placed v other ns e' = elim (Bool-cases (str_eq name other)) [
  | inr b ↦
      IsRooted-Extends m _ (create-Extends m name fresh e) other
        (v other ns (ground (arith, get-insert m name fresh other, b, e')))
  | inl b ↦ elim placed [
    | inl n ↦ root fresh (rw (get-insert m name fresh other, b)) n
    | inr (p, pns, n, there) ↦
        child fresh p (rw (get-insert m name fresh other, b)) n
          (IsRooted-Extends m _ (create-Extends m name fresh e) p (v p pns there))
  ]
]

add-AllRooted :
    (m : HashMap AgentNamespace) (name did : String) (ns : AgentNamespace)
    → Map.get m name ≡ some ns
    → AllRooted m
    → AllRooted (Map.insert m name (record ns { members = set_insert did ns.members }))
add-AllRooted m name did ns e v other ns' e' =
    let wider : AgentNamespace = record ns { members = set_insert did ns.members } in
    IsRooted-Extends m _ (add-Extends m name did ns e) other
      (elim (Bool-cases (str_eq name other)) [
        | inl b ↦ v other ns (ground (arith, e, b, eq_iff name other))
        | inr b ↦ v other ns' (ground (arith, get-insert m name wider other, b, e'))
      ])

-- A creation that fails changes nothing; one that succeeds has found its parent.
made :
    (m : NamespaceManager) (name description : String) (parent : Option String)
    → ((create_namespace name description parent m).1.namespaces ≡ m.namespaces)
      ⊎ ((Map.get m.namespaces name ≡ none)
          × IsPlaced m.namespaces parent
          × ((create_namespace name description parent m).1.namespaces
              ≡ Map.insert m.namespaces name (record {
                name = name;
                description = description;
                parent = parent;
                members = [];
              })))
unfolding create_namespace
made m name description none = elim (Option-cases (Map.get m.namespaces name)) [
  | inr (_, e) ↦ inl (ground (arith, e))
  | inl e ↦ inr (e, inl refl, ground (arith, e))
]
made m name description (some p) = elim (Option-cases (Map.get m.namespaces name)) [
  | inr (_, e) ↦ inl (ground (arith, e))
  | inl e ↦ elim (Option-cases (Map.get m.namespaces p)) [
    | inl q ↦ inl (ground (arith, e, q))
    | inr (pns, q) ↦ inr (e, inr (p, pns, refl, q), ground (arith, e, q))
  ]
]

step-AllRooted :
    (c : Call) (m : NamespaceManager) → AllRooted m.namespaces → AllRooted (step m c).namespaces
unfolding step add_member
step-AllRooted (adds name did) m v = elim (Option-cases (Map.get m.namespaces name)) [
  | inl e ↦
      let same : (step m (adds name did)).namespaces ≡ m.namespaces = ground (arith, e) in
      subst AllRooted (sym same) v
  | inr (ns, e) ↦
      let wider : AgentNamespace = record ns { members = set_insert did ns.members } in
      let more : (step m (adds name did)).namespaces ≡ Map.insert m.namespaces name wider =
        ground (arith, e) in
      subst AllRooted (sym more) (add-AllRooted m.namespaces name did ns e v)
]
step-AllRooted (creates name description parent) m v =
    let fresh : AgentNamespace = record {
      name = name;
      description = description;
      parent = parent;
      members = [];
    } in
    elim (made m name description parent) [
      | inl same ↦ subst AllRooted (sym same) v
      | inr (e, placed, more) ↦
          subst AllRooted (sym more) (create-AllRooted m.namespaces name fresh e placed v)
    ]

run-AllRooted :
    (cs : List Call) (m : NamespaceManager)
    → AllRooted m.namespaces
    → AllRooted (run m cs).namespaces
unfolding run
run-AllRooted [] m v = v
run-AllRooted (c ∷ cs) m v = run-AllRooted cs (step m c) (step-AllRooted c m v)

-- After any calls from `new`, whether they succeed or fail, the walk along the parents ends for every
-- namespace: each parent that is named is there, and there is no cycle.
pub run-new-AllRooted : (cs : List Call) → AllRooted (run new cs).namespaces
unfolding Map.get
run-new-AllRooted cs = run-AllRooted cs new (λ name ns e. cc)
