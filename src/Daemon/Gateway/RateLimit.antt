-- ===== src/Daemon/Gateway/RateLimit.antt =====
-- crates/daemon/src/gateway.rs: the rate limit, and how often an agent's tool calls can pass it.
use microsoft_agt_rust.Prelude.{
  Bool, false, ltb, if◌then◌else◌, ℕ, ◌+◌, ◌-◌, ◌*◌, ◌/◌, ◌^◌, ◌≤◌, ◌<◌, max, ◌≡◌, String, Option,
  none, some, List, [], ◌∷◌, length, All, arith, inl, inr, Option-cases, Bool-cases, str_eq_self,
}
use microsoft_agt_rust.Prelude.Map
use microsoft_agt_rust.Prelude.Map.{HashMap, get-insert}

-- `now - last < Duration::seconds(1) / max(rps, 1) as i32` in nanoseconds; the cast makes a rate from
-- 2 ^ 31 on negative.
too_soon : ℕ → ℕ → ℕ → Bool
too_soon now last rps =
    let n = max rps 1 in
    if ltb n (2 ^ 31)
    then ltb now (last + 1000000000 / n)
    else ltb (now + 1000000000 / (2 ^ 32 - n)) last

-- The block on `last_requests`: none if the request comes too soon.
unfoldable pub limited : ℕ → ℕ → Option ℕ → Bool
unfolding too_soon
limited now rps none = false
limited now rps (some last) = too_soon now last rps

unfoldable pub rate_limit : ℕ → ℕ → String → HashMap ℕ → Option (HashMap ℕ)
unfolding limited
rate_limit now rps did last_requests =
    if limited now rps (Map.get last_requests did)
    then none
    else some (Map.insert last_requests did now)

-- One second in nanoseconds divided by the rate, which is at least 1.
abbrev pub interval : ℕ → ℕ
interval rps = 1000000000 / max rps 1

pass : ℕ → Option (HashMap ℕ) → List ℕ → List ℕ
pass now none rest = rest
pass now (some m) rest = now ∷ rest

kept : HashMap ℕ → Option (HashMap ℕ) → HashMap ℕ
kept m none = m
kept m (some m') = m'

-- The times at which an agent's calls pass, of calls at the given times.
pub admitted : ℕ → String → HashMap ℕ → List ℕ → List ℕ
unfolding pass kept
admitted rps did m [] = []
admitted rps did m (now ∷ times) =
    let result = rate_limit now rps did m in
    pass now result (admitted rps did (kept m result) times)

-- Each time is at least `gap` after the one before it, and the first one after `last`.
abbrev pub IsSpaced : ℕ → ℕ → List ℕ → Type 0
IsSpaced gap last [] = Unit {0}
IsSpaced gap last (now ∷ times) = (last + gap ≤ now) × IsSpaced gap now times

admitted-IsSpaced_after :
    (rps : ℕ) (did : String) (times : List ℕ) (m : HashMap ℕ) (last : ℕ)
    → rps < 2 ^ 31
    → Map.get m did ≡ some last
    → IsSpaced (interval rps) last (admitted rps did m times)
unfolding admitted rate_limit limited too_soon
admitted-IsSpaced_after rps did [] m last w h = tt
admitted-IsSpaced_after rps did (now ∷ times) m last w h =
    elim (Bool-cases (too_soon now last rps)) [
      | inl soon ↦ ground (arith, h, soon, admitted-IsSpaced_after rps did times m last w h)
      | inr free ↦ ground (
        arith,
        h,
        free,
        get-insert m did now did,
        str_eq_self did,
        admitted-IsSpaced_after rps did times (Map.insert m did now) now w,
      )
    ]

-- Each time but the first is at least `gap` after the one before it.
abbrev IsGapped : ℕ → List ℕ → Type 0
IsGapped gap [] = Unit {0}
IsGapped gap (now ∷ times) = IsSpaced gap now times

IsSpaced-IsGapped : (gap last : ℕ) (times : List ℕ) → IsSpaced gap last times → IsGapped gap times
IsSpaced-IsGapped gap last [] h = tt
IsSpaced-IsGapped gap last (now ∷ times) h = h.1

admitted-IsGapped :
    (rps : ℕ) (did : String) (times : List ℕ) (m : HashMap ℕ)
    → rps < 2 ^ 31
    → IsGapped (interval rps) (admitted rps did m times)
unfolding admitted rate_limit limited
admitted-IsGapped rps did [] m w = tt
admitted-IsGapped rps did (now ∷ times) m w = elim (Option-cases (Map.get m did)) [
  | inr (last, h) ↦
      IsSpaced-IsGapped (interval rps) last _
        (admitted-IsSpaced_after rps did (now ∷ times) m last w h)
  | inl h ↦ ground (
    arith,
    h,
    get-insert m did now did,
    str_eq_self did,
    admitted-IsSpaced_after rps did times (Map.insert m did now) now w,
  )
]

admitted-All :
    (P : ℕ → Type 0) (rps : ℕ) (did : String) (times : List ℕ) (m : HashMap ℕ)
    → All P times
    → All P (admitted rps did m times)
unfolding admitted
admitted-All P rps did [] m h = tt
admitted-All P rps did (now ∷ times) m h = elim (Option-cases (rate_limit now rps did m)) [
  | inl e ↦ ground (arith, e, admitted-All P rps did times m h.1)
  | inr (m', e) ↦ ground (arith, e, h.0, admitted-All P rps did times m' h.1)
]

IsSpaced-bound :
    (gap last stop : ℕ) (times : List ℕ)
    → last ≤ stop
    → IsSpaced gap last times
    → All (λ t. t ≤ stop) times
    → last + length times * gap ≤ stop
IsSpaced-bound gap last stop [] l h b = omega arith
IsSpaced-bound gap last stop (now ∷ times) l h b =
    omega (arith, IsSpaced-bound gap now stop times b.0 h.1 b.1)

IsGapped-bound :
    (gap start stop : ℕ) (times : List ℕ)
    → IsGapped gap times
    → All (λ t. t ≤ stop) times
    → All (λ t. start ≤ t) times
    → length times * gap ≤ (stop - start) + gap
IsGapped-bound gap start stop [] h b a = omega arith
IsGapped-bound gap start stop (now ∷ times) h b a =
    omega (arith, IsSpaced-bound gap now stop times b.0 h b.1)

-- Of an agent's tool calls between two times, whatever the state before and however many and in
-- whatever order they come, only so many pass the rate limit that the intervals between them fit into
-- that span; the interval is a second divided by the agent's rate (below 2 ^ 31, and taken as 1 if it
-- is 0).
pub admitted_bound :
    (rps : ℕ) (did : String) (m : HashMap ℕ) (times : List ℕ) (start stop : ℕ)
    → rps < 2 ^ 31
    → All (λ t. start ≤ t) times
    → All (λ t. t ≤ stop) times
    → length (admitted rps did m times) * interval rps ≤ (stop - start) + interval rps
admitted_bound rps did m times start stop w a b =
    IsGapped-bound (interval rps) start stop (admitted rps did m times)
      (admitted-IsGapped rps did times m w) (admitted-All (λ t. t ≤ stop) rps did times m b)
      (admitted-All (λ t. start ≤ t) rps did times m a)
