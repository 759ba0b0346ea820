-- ===== src/CircuitBreaker/Trip.antt =====
-- When a breaker trips, how long it stays open, and how it recovers.
use microsoft_agt_rust.Prelude.{
  ◌∙◌, ◌↔◌, ℕ, ◌++◌, ◌+◌, ◌≤◌, ◌<◌, ◌^◌, ◌≡◌, refl, true, false, some, List, [], ◌∷◌, arith, map,
  length, All,
}
use microsoft_agt_rust.CircuitBreaker.{
  closed, open_, CircuitBreaker, new, probe, allowed_in, is_allowed, record_success, count_failure,
  record_failure, Call, asks, succeeds, fails, step, run,
}
use microsoft_agt_rust.CircuitBreaker.Invariant.{streak, run-new-IsConsistent}

counted : CircuitBreaker → ℕ → CircuitBreaker
counted cb n = record cb { inner = record cb.inner { failure_count = cb.inner.failure_count + n } }

-- Below the threshold, failures are only counted.
run-fails_below :
    (times : List ℕ) (cb : CircuitBreaker)
    → cb.inner.state ≡ closed
    → cb.inner.failure_count + length times < cb.failure_threshold
    → cb.failure_threshold < 2 ^ 32
    → run cb (map fails times) ≡ counted cb (length times)
unfolding run step record_failure count_failure counted
run-fails_below [] cb e h w = ground arith
run-fails_below (t ∷ times) cb e h w = ground (arith, run-fails_below times (counted cb 1))

run-fails_at :
    (times : List ℕ) (last : ℕ) (cb : CircuitBreaker)
    → cb.inner.state ≡ closed
    → cb.inner.failure_count + length times + 1 ≡ cb.failure_threshold
    → cb.failure_threshold < 2 ^ 32
    → run cb (map fails times ++ fails last ∷ []) ≡ record cb {
      inner = record {
        state = open_;
        failure_count = cb.failure_threshold;
        last_failure_time = some last;
      };
    }
unfolding run step record_failure count_failure counted
run-fails_at [] last cb e h w = ground arith
run-fails_at (t ∷ times) last cb e h w = ground (arith, run-fails_at times last (counted cb 1))

-- With a threshold of at least one (and in the range of a `u32`), failures in a row leave a new
-- breaker closed while there are fewer of them than the threshold, and the failure that reaches the
-- threshold opens it and is remembered as the last.
pub run-fails_trips :
    (threshold timeout : ℕ) (times : List ℕ) (last : ℕ)
    → length times + 1 ≡ threshold
    → threshold < 2 ^ 32
    → ((run (new threshold timeout) (map fails times)).inner.state ≡ closed)
      × ((run (new threshold timeout) (map fails times ++ fails last ∷ [])).inner
          ≡ record { state = open_; failure_count = threshold; last_failure_time = some last })
unfolding new counted
run-fails_trips threshold timeout times last h w = ground (
  arith,
  run-fails_below times (new threshold timeout),
  run-fails_at times last (new threshold timeout),
)

module _ (cb : CircuitBreaker) (t : ℕ) (is_open : cb.inner.state ≡ open_)
    (since : cb.inner.last_failure_time ≡ some t) where
  refuses :
      (now : ℕ)
      → now < t + cb.reset_timeout
      → 0 < cb.reset_timeout
      → is_allowed now cb ≡ (false, cb)
  unfolding is_allowed allowed_in probe
  refuses now h p = ground arith

  run-asks_refused :
      (times : List ℕ)
      → 0 < cb.reset_timeout
      → All (λ now. now < t + cb.reset_timeout) times
      → run cb (map asks times) ≡ cb
  unfolding run step
  run-asks_refused [] p h = refl
  run-asks_refused (now ∷ times) p h = ground (arith, refuses now, run-asks_refused times)

  probe_iff :
      (timeout now : ℕ)
      → cb.reset_timeout ≡ timeout
      → 0 < timeout
      → ((is_allowed now cb).0 ≡ false) ↔ (now < t + timeout)
  unfolding is_allowed allowed_in probe
  probe_iff timeout now e p = (λ h. ground arith, λ h. ground arith)

  -- Once `reset_timeout` has passed, an open breaker whose count has reached the threshold lets a
  -- request through. If that request succeeds the breaker is closed with a count of zero; if it fails
  -- (and the count does not overflow a `u32`) the breaker is open again from the time of the failure.
  pub run-asks_recovery :
      (now later : ℕ)
      → t + cb.reset_timeout ≤ now
      → cb.failure_threshold ≤ cb.inner.failure_count
      → cb.inner.failure_count + 1 < 2 ^ 32
      → ((is_allowed now cb).0 ≡ true)
        × ((run cb (asks now ∷ succeeds later ∷ [])).inner
            ≡ record { state = closed; failure_count = 0; last_failure_time = some t })
        × ((run cb (asks now ∷ fails later ∷ [])).inner ≡ record {
          state = open_;
          failure_count = cb.inner.failure_count + 1;
          last_failure_time = some later;
        })
  unfolding run step is_allowed allowed_in probe record_success record_failure count_failure
  run-asks_recovery now later h k w = ground arith

run-fails_one : (t : ℕ) (cb : CircuitBreaker) → run cb (fails t ∷ []) ≡ record_failure t cb
unfolding run step
run-fails_one t cb = refl

record_failure-trips :
    (t : ℕ) (cb : CircuitBreaker)
    → cb.inner.failure_count + 1 < 2 ^ 32
    → cb.failure_threshold ≤ cb.inner.failure_count + 1
    → ((record_failure t cb).reset_timeout ≡ cb.reset_timeout)
      × ((record_failure t cb).inner.state ≡ open_)
      × ((record_failure t cb).inner.last_failure_time ≡ some t)
unfolding record_failure count_failure
record_failure-trips t cb w h = ground arith

streak_bound : (n : ℕ) (cs : List Call) → streak n cs ≤ n + length cs
streak_bound n [] = omega arith
streak_bound n (asks now ∷ cs) = omega (arith, streak_bound n cs)
streak_bound n (succeeds now ∷ cs) = omega (arith, streak_bound 0 cs)
streak_bound n (fails now ∷ cs) = omega (arith, streak_bound (n + 1) cs)

run-append : (cb : CircuitBreaker) (cs ds : List Call) → run cb (cs ++ ds) ≡ run (run cb cs) ds
unfolding run
run-append cb [] ds = refl
run-append cb (c ∷ cs) ds = run-append (step cb c) cs ds

-- After any history of fewer than 2 ^ 32 - 1 calls on a new breaker, with a threshold and a timeout
-- above zero, a failure at the time `t` that brings the failures since the last success to the
-- threshold opens it; and after any requests before `t + timeout`, a request at the time `now` is
-- refused exactly if `now` is before `t + timeout`.
pub run-asks_cooldown :
    (threshold timeout : ℕ) (before : List Call) (t now : ℕ) (times : List ℕ)
    → 0 < threshold
    → 0 < timeout
    → length before + 1 < 2 ^ 32
    → threshold ≤ streak 0 before + 1
    → All (λ now. now < t + timeout) times
    → let cb = run (run (new threshold timeout) (before ++ fails t ∷ [])) (map asks times) in
      (cb.inner.state ≡ open_) × (((is_allowed now cb).0 ≡ false) ↔ (now < t + timeout))
run-asks_cooldown threshold timeout before t now times p q w reached early =
    let cb = run (new threshold timeout) before in
    let short = streak_bound 0 before in
    let v = run-new-IsConsistent threshold timeout p before (omega arith) in
    let (e, opens, since) =
      record_failure-trips t cb (omega (arith, v.counted))
        (omega (arith, v.counted, v.has_threshold)) in
    let c = record_failure t cb in
    let same : c.reset_timeout ≡ timeout = e ∙ v.has_timeout in
    let stays = run-asks_refused c t opens since times (rw same q) (rw same early) in
    rw (run-append (new threshold timeout) before (fails t ∷ []), run-fails_one t cb, stays)
      (opens, probe_iff c t opens since timeout now same q)
