-- ===== src/CircuitBreaker.antt =====
-- crates/core/sre/src/circuit_breaker.rs. `Instant` is a number of ticks of one clock, and every
-- `Instant::now()` or `elapsed()` is the argument `now`. `failure_count` is a `u32` that wraps, as in
-- a release build. The lock makes each method one step.
pub mod Invariant
pub mod Trip
mod Tests
use microsoft_agt_rust.Prelude.{
  ℕ, ◌+◌, ◌-◌, ◌%◌, ◌^◌, Bool, true, false, Option, none, some, List, [], ◌∷◌, leb, if◌then◌else◌,
}

pub data CircuitState : Type 0 where
  closed open_ half_open : CircuitState

pub record InnerState : Type 0 where
  pub state : CircuitState
  pub failure_count : ℕ
  pub last_failure_time : Option ℕ

pub record CircuitBreaker : Type 0 where
  pub inner : InnerState
  pub failure_threshold : ℕ
  pub reset_timeout : ℕ

-- CircuitBreaker::new
pub new : ℕ → ℕ → CircuitBreaker
new failure_threshold reset_timeout = record {
  inner = record { state = closed; failure_count = 0; last_failure_time = none };
  failure_threshold = failure_threshold;
  reset_timeout = reset_timeout;
}

-- The branch `CircuitState::Open` of `is_allowed`.
pub probe : Option ℕ → ℕ → CircuitBreaker → Bool × CircuitBreaker
probe none now cb = (false, cb)
probe (some time) now cb =
    if leb cb.reset_timeout (now - time)
    then (true, record cb { inner = record cb.inner { state = half_open } })
    else (false, cb)

allowed_in : CircuitState → ℕ → CircuitBreaker → Bool × CircuitBreaker
unfolding probe
allowed_in closed now cb = (true, cb)
allowed_in open_ now cb = probe cb.inner.last_failure_time now cb
allowed_in half_open now cb = (true, cb)

pub is_allowed : ℕ → CircuitBreaker → Bool × CircuitBreaker
unfolding allowed_in
is_allowed now cb = allowed_in cb.inner.state now cb

pub record_success : CircuitBreaker → CircuitBreaker
record_success cb = record cb { inner = record cb.inner { state = closed; failure_count = 0 } }

-- `failure_count += 1` on a `u32`.
pub count_failure : ℕ → ℕ
count_failure n = (n + 1) % 2 ^ 32

pub record_failure : ℕ → CircuitBreaker → CircuitBreaker
unfolding count_failure
record_failure now cb =
    let n = count_failure cb.inner.failure_count in
    if leb cb.failure_threshold n
    then record cb {
      inner = record { state = open_; failure_count = n; last_failure_time = some now };
    }
    else record cb { inner = record cb.inner { failure_count = n } }

-- The calls that a client can make, each with the time at which it takes the lock.
pub data Call : Type 0 where
  asks succeeds fails : ℕ → Call

pub step : CircuitBreaker → Call → CircuitBreaker
unfolding is_allowed record_success record_failure
step cb (asks now) = (is_allowed now cb).1
step cb (succeeds now) = record_success cb
step cb (fails now) = record_failure now cb

pub run : CircuitBreaker → List Call → CircuitBreaker
unfolding step
run cb [] = cb
run cb (c ∷ cs) = run (step cb c) cs
