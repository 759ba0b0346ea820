-- ===== src/Kernel/Memory.antt =====
-- The backend in memory against a store that never forgets: what expires cannot be told from what
-- has been removed.
use microsoft_agt_rust.Prelude.{
  ℕ, ◌≤◌, ◌≡◌, refl, String, Option, none, some, List, [], ◌∷◌, leb, str_eq, eq_iff, if◌then◌else◌,
  arith, Option-cases, Bool-cases, inl, inr, ◌∙◌,
}
use microsoft_agt_rust.Prelude.Map
use microsoft_agt_rust.Prelude.Map.{HashMap, get-insert, get-remove}
use microsoft_agt_rust.Kernel.{
  Values, Entry, MemoryBackend, is_expired, get, expiry_of, set, delete,
}

-- The specification: what was set last for each key, for ever.
abbrev pub Spec : Type 0
Spec = String → Option Entry

-- What an entry is worth at a time.
abbrev pub live : ℕ → Option Entry → Option Values
live now none = none
live now (some (value, expires_at)) = if is_expired now expires_at then none else some value

pub data Call : Type 0 where
  gets deletes : String → Call
  sets : String → Values → Option ℕ → Call

abbrev pub put : String → Option Entry → Spec → Spec
put key e f j = if str_eq key j then e else f j

-- A call on the specification, with the answer of a `get`.
pub spec_step : ℕ → Call → Spec → Option Values × Spec
spec_step now (gets key) f = (live now (f key), f)
spec_step now (deletes key) f = (none, put key none f)
spec_step now (sets key value ttl) f = (none, put key (some (value, expiry_of now ttl)) f)

-- A call on the backend in memory.
pub memory_step : ℕ → Call → MemoryBackend → Option Values × MemoryBackend
memory_step now (gets key) s = get now key s
memory_step now (deletes key) s = (none, delete key s)
memory_step now (sets key value ttl) s = (none, set now key value ttl s)

-- The answers of the calls, each made at its time.
pub spec_answers : List (ℕ × Call) → Spec → List (Option Values)
unfolding spec_step
spec_answers [] f = []
spec_answers ((now, c) ∷ cs) f = (spec_step now c f).0 ∷ spec_answers cs (spec_step now c f).1

pub memory_answers : List (ℕ × Call) → MemoryBackend → List (Option Values)
unfolding memory_step
memory_answers [] s = []
memory_answers ((now, c) ∷ cs) s =
    (memory_step now c s).0 ∷ memory_answers cs (memory_step now c s).1

-- The times do not go back.
abbrev pub IsOrdered : ℕ → List (ℕ × Call) → Type 0
IsOrdered start [] = Unit {0}
IsOrdered start ((now, c) ∷ cs) = (start ≤ now) × IsOrdered now cs

-- From a time on both give the same for every key.
abbrev pub Agrees : ℕ → MemoryBackend → Spec → Type 0
Agrees start s f =
    (now : ℕ) (key : String) → start ≤ now → live now (Map.get s.store key) ≡ live now (f key)

get-live :
    (now : ℕ) (key : String) (s : MemoryBackend)
    → (get now key s).0 ≡ live now (Map.get s.store key)
unfolding get
get-live now key s = elim (Option-cases (Map.get s.store key)) [
  | inl e ↦ ground (arith, e)
  | inr ((value, none), e) ↦ ground (arith, e)
  | inr ((value, some t), e) ↦ ground (arith, e)
]

-- A read is not seen by later reads.
get-unseen :
    (now later : ℕ) (key other : String) (s : MemoryBackend)
    → now ≤ later
    → live later (Map.get (get now key s).1.store other) ≡ live later (Map.get s.store other)
unfolding get
get-unseen now later key other s h = elim (Option-cases (Map.get s.store key)) [
  | inl e ↦ ground (arith, e)
  | inr ((value, none), e) ↦ ground (arith, e)
  | inr ((value, some t), e) ↦ elim (Bool-cases (leb t now)) [
    | inr b ↦ ground (arith, e, b)
    | inl b ↦ ground (arith, e, b, h, get-remove s.store key other, eq_iff key other)
  ]
]

step-Agrees :
    (start now : ℕ) (c : Call) (s : MemoryBackend) (f : Spec)
    → start ≤ now
    → Agrees start s f
    → ((memory_step now c s).0 ≡ (spec_step now c f).0)
      × Agrees now (memory_step now c s).1 (spec_step now c f).1
unfolding memory_step spec_step set delete
step-Agrees start now (gets key) s f h v = (
  get-live now key s ∙ v now key h,
  λ later other l. get-unseen now later key other s l ∙ v later other (omega arith),
)
step-Agrees start now (deletes key) s f h v =
    (refl, λ later other l. ground (arith, get-remove s.store key other, v later other))
step-Agrees start now (sets key value ttl) s f h v = (
  refl,
  λ later other l.
      ground (arith, get-insert s.store key (value, expiry_of now ttl) other, v later other),
)

-- For calls at times that do not go back, the backend in memory answers every `get` as a store does
-- that keeps what was set last for each key and only hides it once its time to live is over; removing
-- expired entries on the way is never seen.
pub memory_answers-spec_answers :
    (start : ℕ) (cs : List (ℕ × Call)) (s : MemoryBackend) (f : Spec)
    → IsOrdered start cs
    → Agrees start s f
    → memory_answers cs s ≡ spec_answers cs f
unfolding memory_answers spec_answers
memory_answers-spec_answers start [] s f o v = refl
memory_answers-spec_answers start ((now, c) ∷ cs) s f o v =
    let (same, next) = step-Agrees start now c s f o.0 v in
    cc (
      same,
      memory_answers-spec_answers now cs (memory_step now c s).1 (spec_step now c f).1 o.1 next,
    )
