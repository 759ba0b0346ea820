-- ===== src/Kernel/Policies.antt =====
-- What the kernel executes.
use microsoft_agt_rust.Prelude.{
  ap, refl, ◌≡◌, ◌≢◌, ◌↔◌, true, false, String, none, some, List, [], ◌∷◌, contains, str_eq, eq_iff,
  str_eq_self, arith, Option-cases, Bool-cases, inl, inr,
}
use microsoft_agt_rust.Prelude.Result.{ok, err, Result-cases}
use microsoft_agt_rust.Prelude.Map
use microsoft_agt_rust.Mcp.Json
use microsoft_agt_rust.Mcp.Json.{Value, Items, nil, cons}
use microsoft_agt_rust.Kernel.{
  Values, ExecutionContext, ExecutionResult, StateBackend, StatelessKernel, equals, lists_action,
  blocks, check_policies, execute_action, load_state, write_back, perform, execute, failed,
}

-- An action's name is among the items of a JSON array.
pub data IsListed (action : String) : Items → Type 0 where
  here : {v : Value} {items : Items} → v ≡ Json.string action → IsListed action (cons v items)
  there : {v : Value} {items : Items} → IsListed action items → IsListed action (cons v items)

-- A policy is known by one of the names, and its "blocked_actions" are an array that lists the action.
pub record IsBlocked (k : StatelessKernel) (action : String) (names : List String) : Type 0 where
  pub name : String
  pub policy : Value
  pub items : Items
  pub named : contains names name ≡ true
  pub known : Map.get k.policies name ≡ some policy
  pub blocked_actions : Json.get "blocked_actions" policy ≡ some (Json.array items)
  pub listed : IsListed action items

equals_sound :
    (v : Value) (action : String) → equals action (Json.as_str v) ≡ true → v ≡ Json.string action
unfolding Json.as_str
equals_sound (Json.string s) action h = ap Json.string ((eq_iff s action).0 h)
equals_sound Json.null action h = absurd (ground (arith, h))
equals_sound (Json.boolean b) action h = absurd (ground (arith, h))
equals_sound (Json.number n) action h = absurd (ground (arith, h))
equals_sound (Json.array xs) action h = absurd (ground (arith, h))
equals_sound (Json.object fs) action h = absurd (ground (arith, h))

lists_action_sound :
    (items : Items) (action : String) → lists_action items action ≡ true → IsListed action items
unfolding lists_action
lists_action_sound nil action h = absurd (ground (arith, h))
lists_action_sound (cons v items) action h = elim (Bool-cases (equals action (Json.as_str v))) [
  | inl e ↦ here (equals_sound v action e)
  | inr e ↦ there (lists_action_sound items action (ground (arith, e, h)))
]

lists_action_complete :
    (items : Items) (action : String) → IsListed action items → lists_action items action ≡ true
unfolding lists_action Json.as_str
lists_action_complete nil action h = elim h [ ]
lists_action_complete (cons v items) action (here e) = rw e (ground (arith, str_eq_self action))
lists_action_complete (cons v items) action (there h) =
    ground (arith, lists_action_complete items action h)

blocks_sound :
    (policy : Value) (action : String)
    → blocks policy action ≡ true
    → (items : Items) × (Json.get "blocked_actions" policy ≡ some (Json.array items))
      × IsListed action items
unfolding blocks lists_action
blocks_sound policy action h = elim (Option-cases (Json.get "blocked_actions" policy)) [
  | inl e ↦ absurd (ground (arith, e, h))
  | inr (Json.array items, e) ↦ (items, e, lists_action_sound items action (ground (arith, e, h)))
  | inr (Json.null, e) ↦ absurd (ground (arith, e, h))
  | inr (Json.boolean b, e) ↦ absurd (ground (arith, e, h))
  | inr (Json.number n, e) ↦ absurd (ground (arith, e, h))
  | inr (Json.string s, e) ↦ absurd (ground (arith, e, h))
  | inr (Json.object fs, e) ↦ absurd (ground (arith, e, h))
]

blocks-IsBlocked :
    (k : StatelessKernel) (action : String) (names : List String) (b : IsBlocked k action names)
    → blocks b.policy action ≡ true
unfolding blocks
blocks-IsBlocked k action names b =
    rw b.blocked_actions (lists_action_complete b.items action b.listed)

more :
    (k : StatelessKernel) (action n : String) (names : List String)
    → IsBlocked k action names
    → IsBlocked k action (n ∷ names)
more k action n names b = record {
  name = b.name;
  policy = b.policy;
  items = b.items;
  named = ground (arith, b.named);
  known = b.known;
  blocked_actions = b.blocked_actions;
  listed = b.listed;
}

check_sound :
    (k : StatelessKernel) (action e : String) (names : List String)
    → check_policies k action names ≡ err e
    → IsBlocked k action names
unfolding check_policies
check_sound k action e [] h = absurd (ground (arith, h))
check_sound k action e (n ∷ names) h = elim (Option-cases (Map.get k.policies n)) [
  | inl q ↦ more k action n names (check_sound k action e names (ground (arith, q, h)))
  | inr (policy, q) ↦ elim (Bool-cases (blocks policy action)) [
    | inl t ↦
        let (items, has, listed) = blocks_sound policy action t in
        record {
          name = n;
          policy = policy;
          items = items;
          named = ground (arith, str_eq_self n);
          known = q;
          blocked_actions = has;
          listed = listed;
        }
    | inr t ↦ more k action n names (check_sound k action e names (ground (arith, q, t, h)))
  ]
]

check_complete :
    (k : StatelessKernel) (action : String) (names : List String)
    → IsBlocked k action names
    → check_policies k action names ≢ ok tt
unfolding check_policies
check_complete k action [] b h = absurd (ground (arith, b.named))
check_complete k action (n ∷ names) b h =
    let blocking = blocks-IsBlocked k action (n ∷ names) b in
    elim (Bool-cases (str_eq n b.name)) [
      | inl t ↦ ground (arith, t, eq_iff n b.name, b.known, blocking, h)
      | inr t ↦
          check_complete k action names
            (record {
              name = b.name;
              policy = b.policy;
              items = b.items;
              named = ground (arith, t, b.named);
              known = b.known;
              blocked_actions = b.blocked_actions;
              listed = b.listed;
            })
            (ground (arith, h))
    ]

-- The answer for a killed action, with the text of its error.
abbrev pub killed : String → ExecutionResult
killed e = record {
  success = false;
  payload = none;
  error = some e;
  signal = some "SIGKILL";
  updated_context = none;
  metadata = [];
}

-- Where the state that the context refers to can be loaded: the kernel answers with the signal
-- "SIGKILL" exactly when one of the policies that the context names is known and its field
-- "blocked_actions" is an array that holds the action's name; and exactly then it answers no success,
-- with an error, no data and no context, and leaves the backend as loading the state left it.
pub execute-IsBlocked_iff :
    {S : Type 0} (b : StateBackend S) (k : StatelessKernel) (action : String) (params : Values)
    (context : ExecutionContext) (s : S) (state : Values)
    → (load_state b context.state_ref s).0 ≡ ok state
    → let (answer, s') = execute b k action params context s in
      let blocked = IsBlocked k action context.policies in
      (((r : ExecutionResult) × (answer ≡ ok r) × (r.signal ≡ some "SIGKILL")) ↔ blocked)
      × (((e : String) × (answer ≡ ok (killed e)) × (s' ≡ (load_state b context.state_ref s).1))
          ↔ blocked)
unfolding execute perform failed write_back execute_action Map.get
execute-IsBlocked_iff b k action params context s state l =
    elim (Result-cases (check_policies k action context.policies)) [
      | inl (tt, q) ↦
          let free = check_complete k action context.policies in
          (
            (λ h. absurd (ground (arith, l, q, h.1, h.2)), λ g. absurd (free g q)),
            (λ h. absurd (ground (arith, l, q, h.1)), λ g. absurd (free g q)),
          )
      | inr (e, q) ↦
          let found = check_sound k action e context.policies q in
          (
            (λ h. found, λ g. (killed e, ground (arith, l, q), refl)),
            (λ h. found, λ g. (e, ground (arith, l, q), ground (arith, l, q))),
          )
    ]

-- An action that no policy blocks succeeds with the stub's data, hands the context back unchanged, and
-- writes no state: the backend is left as loading the state left it.
pub execute_unblocked :
    {S : Type 0} (b : StateBackend S) (k : StatelessKernel) (action : String) (params : Values)
    (context : ExecutionContext) (s : S) (state : Values)
    → (load_state b context.state_ref s).0 ≡ ok state
    → ¬ IsBlocked k action context.policies
    → ((execute b k action params context s).0
        ≡ ok (record {
          success = true;
          payload = some (Json.object (Json.field "status" (Json.string "executed") Json.end));
          error = none;
          signal = none;
          updated_context = some context;
          metadata = [];
        }))
      × ((execute b k action params context s).1 ≡ (load_state b context.state_ref s).1)
unfolding execute perform write_back execute_action Map.get
execute_unblocked b k action params context s state l free =
    elim (Result-cases (check_policies k action context.policies)) [
      | inl (tt, q) ↦ (ground (arith, l, q), ground (arith, l, q))
      | inr (e, q) ↦ absurd (free (check_sound k action e context.policies q))
    ]
