-- ===== src/Namespace/Members.antt =====
-- Who can communicate with whom.
use microsoft_agt_rust.Prelude.{
  ◌≡◌, ◌⊎◌, inl, inr, refl, true, String, Option, none, some, List, [], ◌∷◌, contains, eq_iff,
  arith, Bool-cases, Option-cases,
}
use microsoft_agt_rust.Prelude.Map
use microsoft_agt_rust.Prelude.Map.{HashMap}
use microsoft_agt_rust.Prelude.Map.Unique.{IsUnique, insert-IsUnique}
use microsoft_agt_rust.Namespace.{
  AgentNamespace, NamespaceManager, new, set_insert, create_namespace, add_member, last_with,
  permits, can_communicate, Call, creates, adds, step, run,
}

-- A namespace of the manager holds the agent.
pub record Holds (m : HashMap AgentNamespace) (name did : String) : Type 0 where
  pub ns : AgentNamespace
  pub there : Map.get m name ≡ some ns
  pub member : contains ns.members did ≡ true

last_with_sound :
    (did name : String) (m : HashMap AgentNamespace) (found : Option String)
    → IsUnique m
    → last_with did m found ≡ some name
    → (found ≡ some name) ⊎ Holds m name did
unfolding last_with Map.get
last_with_sound did name [] found u h = inl h
last_with_sound did name ((k, ns) ∷ rest) found u h = elim (Bool-cases (contains ns.members did)) [
  | inl b ↦ elim (last_with_sound did name rest (some k) u.1 (ground (arith, b, h))) [
    | inl e ↦ inr (record { ns = ns; there = ground (arith, e, eq_iff k name); member = b })
    | inr held ↦ inr (record {
      ns = held.ns;
      there = ground (arith, held.there, u.0, eq_iff k name);
      member = held.member;
    })
  ]
  | inr b ↦ elim (last_with_sound did name rest found u.1 (ground (arith, b, h))) [
    | inl e ↦ inl e
    | inr held ↦ inr (record {
      ns = held.ns;
      there = ground (arith, held.there, u.0, eq_iff k name);
      member = held.member;
    })
  ]
]

-- What no call of the manager changes.
record IsClosed (m : NamespaceManager) : Type 0 where
  unique : IsUnique m.namespaces
  no_rules : m.rules ≡ []

step-IsClosed : (c : Call) (m : NamespaceManager) → IsClosed m → IsClosed (step m c)
unfolding step create_namespace add_member
step-IsClosed (creates name description parent) m v =
    let fresh : AgentNamespace = record {
      name = name;
      description = description;
      parent = parent;
      members = [];
    } in
    record {
      unique = ground (arith, v.unique, insert-IsUnique m.namespaces name fresh v.unique);
      no_rules = ground (arith, v.no_rules);
    }
step-IsClosed (adds name did) m v = elim (Option-cases (Map.get m.namespaces name)) [
  | inl e ↦ record {
    unique = ground (arith, e, v.unique);
    no_rules = ground (arith, e, v.no_rules);
  }
  | inr (ns, e) ↦ record {
    unique = ground (
      arith,
      e,
      insert-IsUnique m.namespaces name (record ns { members = set_insert did ns.members })
          v.unique,
    );
    no_rules = ground (arith, e, v.no_rules);
  }
]

run-IsClosed : (cs : List Call) (m : NamespaceManager) → IsClosed m → IsClosed (run m cs)
unfolding run
run-IsClosed [] m v = v
run-IsClosed (c ∷ cs) m v = run-IsClosed cs (step m c) (step-IsClosed c m v)

-- Two agents that a manager lets communicate, after any calls from `new`, are members of one and the
-- same namespace: no rule between namespaces can ever be there.
pub run-new-can_communicate :
    (cs : List Call) (from_did to_did : String)
    → can_communicate from_did to_did (run new cs) ≡ true
    → (name : String) × Holds (run new cs).namespaces name from_did
      × Holds (run new cs).namespaces name to_did
unfolding can_communicate permits
run-new-can_communicate cs from_did to_did h =
    let m = run new cs in
    let v = run-IsClosed cs new (record { unique = tt; no_rules = refl }) in
    elim (Option-cases (last_with from_did m.namespaces none)) [
      | inl e ↦ absurd (ground (arith, e, h))
      | inr (f, e) ↦ elim (Option-cases (last_with to_did m.namespaces none)) [
        | inl e' ↦ absurd (ground (arith, e, e', h))
        | inr (t, e') ↦
            let same : f ≡ t = ground (arith, e, e', h, v.no_rules, eq_iff f t) in
            elim (last_with_sound from_did f m.namespaces none v.unique e) [
              | inl empty ↦ absurd (ground (arith, empty))
              | inr held ↦
                  elim (last_with_sound to_did f m.namespaces none v.unique (cc (same, e'))) [
                    | inl empty ↦ absurd (ground (arith, empty))
                    | inr held' ↦ (f, held, held')
                  ]
            ]
      ]
    ]
