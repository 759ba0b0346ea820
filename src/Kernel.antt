-- ===== src/Kernel.antt =====
-- crates/core/os/src/lib.rs: the stateless kernel, and its backend in memory with times to live.
-- `Instant::now()` is an argument of the backend's methods. A field `data` is called `payload`.
pub mod Memory
pub mod Policies
mod Tests
use Prim.Native.String.{◌++◌ as str_append}
use microsoft_agt_rust.Prelude.{
  ℕ, ◌+◌, ◌*◌, Bool, true, false, ◌||◌, String, Option, none, some, List, [], ◌∷◌, leb, str_eq,
  if◌then◌else◌,
}
use microsoft_agt_rust.Prelude.Result.{Result, ok, err}
use microsoft_agt_rust.Prelude.Map
use microsoft_agt_rust.Prelude.Map.{HashMap}
use microsoft_agt_rust.Mcp.Json
use microsoft_agt_rust.Mcp.Json.{Value, Items, Fields, nil, cons}

abbrev pub Values : Type 0
Values = HashMap Value

pub record ExecutionContext : Type 0 where
  pub agent_id : String
  pub policies : List String
  pub history : List Values
  pub state_ref : Option String
  pub metadata : Values

pub record ExecutionResult : Type 0 where
  pub success : Bool
  pub payload : Option Value
  pub error : Option String
  pub signal : Option String
  pub updated_context : Option ExecutionContext
  pub metadata : Values

-- The trait `StateBackend` over a state `S`.
pub record StateBackend (S : Type 0) : Type 0 where
  pub get : String → S → Result String (Option Values) × S
  pub set : String → Values → Option ℕ → S → Result String (Unit {0}) × S

-- An entry is a value with the time at which it expires, if any.
abbrev pub Entry : Type 0
Entry = Values × Option ℕ

pub record MemoryBackend : Type 0 where
  pub store : HashMap Entry

-- `Instant::now() >= *expiry`, where there is one.
abbrev pub is_expired : ℕ → Option ℕ → Bool
is_expired now none = false
is_expired now (some expiry) = leb expiry now

-- `MemoryBackend::get`, which removes an entry that has expired.
pub get : ℕ → String → MemoryBackend → Option Values × MemoryBackend
get now key s = elim (Map.get s.store key) [
  | none ↦ (none, s)
  | some (value, expires_at) ↦
      if is_expired now expires_at
      then (none, record { store = Map.remove s.store key })
      else (some value, s)
]

-- `ttl.map(|t| Instant::now() + Duration::from_secs(t))`
abbrev pub expiry_of : ℕ → Option ℕ → Option ℕ
expiry_of now none = none
expiry_of now (some t) = some (now + t * 1000000000)

-- MemoryBackend::set
pub set : ℕ → String → Values → Option ℕ → MemoryBackend → MemoryBackend
set now key value ttl s = record { store = Map.insert s.store key (value, expiry_of now ttl) }

-- MemoryBackend::delete
pub delete : String → MemoryBackend → MemoryBackend
delete key s = record { store = Map.remove s.store key }

-- The backend behind the trait, with the clock readings of one call of each method.
unfoldable pub as_trait : ℕ → ℕ → StateBackend MemoryBackend
as_trait read_at written_at = record {
  get = λ key s. let (found, s') = get read_at key s in (ok found, s');
  set = λ key value ttl s. (ok tt, set written_at key value ttl s);
}

pub record StatelessKernel : Type 0 where
  pub policies : Values

-- `as_array`, with no items for what is no array.
abbrev pub items_of : Option Value → Items
items_of none = nil
items_of (some v) = elim v [
  | Json.array items ↦ items
  | Json.null ↦ nil
  | Json.boolean _ ↦ nil
  | Json.number _ ↦ nil
  | Json.string _ ↦ nil
  | Json.object _ ↦ nil
]

abbrev equals : String → Option String → Bool
equals action none = false
equals action (some s) = str_eq s action

-- `blocked.iter().any(|a| a == action)`
pub lists_action : Items → String → Bool
unfolding Json.as_str
lists_action nil action = false
lists_action (cons v items) action = equals action (Json.as_str v) || lists_action items action

-- What one policy says.
pub blocks : Value → String → Bool
unfolding lists_action
blocks policy action = lists_action (items_of (Json.get "blocked_actions" policy)) action

abbrev pub refusal : String → String → String
refusal action name =
    str_append "Action '"
      (str_append action (str_append "' blocked by policy '" (str_append name "'")))

abbrev pub blocks_opt : Option Value → String → Bool
blocks_opt none action = false
blocks_opt (some policy) action = blocks policy action

-- StatelessKernel::check_policies
pub check_policies : StatelessKernel → String → List String → Result String (Unit {0})
check_policies k action [] = ok tt
check_policies k action (name ∷ names) =
    let rest = check_policies k action names in
    if blocks_opt (Map.get k.policies name) action then err (refusal action name) else rest

-- `StatelessKernel::execute_action`, a stub in the source.
pub execute_action : String → Values → Values → Values
execute_action action params state =
    ("data", Json.object (Json.field "status" (Json.string "executed") Json.end)) ∷ []

abbrev or_null : Option Value → Value
or_null none = Json.null
or_null (some v) = v

abbrev or_empty : Option Values → Values
or_empty none = []
or_empty (some v) = v

-- The loop that copies the fields of an update into the state; what is no object has none.
pub merge_fields : Fields → Values → Values
merge_fields Json.end state = state
merge_fields (Json.field k v rest) state = merge_fields rest (Map.insert state k v)

pub merge : Value → Values → Values
unfolding merge_fields
merge (Json.object fields) state = merge_fields fields state
merge Json.null state = state
merge (Json.boolean _) state = state
merge (Json.number _) state = state
merge (Json.string _) state = state
merge (Json.array _) state = state

abbrev or_own : String → Option String → String
or_own agent_id none = str_append "state:" agent_id
or_own agent_id (some r) = r

pub failed : String → ExecutionResult
failed e = record {
  success = false;
  payload = none;
  error = some e;
  signal = some "SIGKILL";
  updated_context = none;
  metadata = [];
}

module _ {S : Type 0} (b : StateBackend S) where
  -- Step 1: the state that the context refers to.
  pub load_state : Option String → S → Result String Values × S
  load_state none s = (ok [], s)
  load_state (some state_ref) s =
      let (found, s') = b.get state_ref s in
      elim found [ err e ↦ (err e, s') | ok state ↦ (ok (or_empty state), s') ]

  -- Step 4: the new reference, if there is an update.
  pub write_back :
      String → Option String → Option Value → Values → S → Result String (Option String) × S
  unfolding merge
  write_back agent_id state_ref none state s = (ok state_ref, s)
  write_back agent_id state_ref (some update) state s =
      let target = or_own agent_id state_ref in
      let (written, s') = b.set target (merge update state) none s in
      elim written [ err e ↦ (err e, s') | ok _ ↦ (ok (some target), s') ]

  -- Steps 3 to 5.
  pub perform : String → Values → ExecutionContext → Values → S → Result String ExecutionResult × S
  unfolding execute_action write_back
  perform action params context state s =
      let result = execute_action action params state in
      let (written, s') =
        write_back context.agent_id context.state_ref (Map.get result "state_update") state s in
      elim written [
        | err e ↦ (err e, s')
        | ok state_ref ↦ (
          ok (record {
            success = true;
            payload = some (or_null (Map.get result "data"));
            error = none;
            signal = none;
            updated_context = some (record context { state_ref = state_ref });
            metadata = [];
          }),
          s',
        )
      ]

  -- StatelessKernel::execute
  pub execute :
      StatelessKernel → String → Values → ExecutionContext → S → Result String ExecutionResult × S
  unfolding load_state perform check_policies failed
  execute k action params context s =
      let (loaded, s') = load_state context.state_ref s in
      elim loaded [
        | err e ↦ (err e, s')
        | ok state ↦ elim (check_policies k action context.policies) [
          | err e ↦ (ok (failed e), s')
          | ok _ ↦ perform action params context state s'
        ]
      ]
