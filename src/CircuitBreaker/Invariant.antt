-- ===== src/CircuitBreaker/Invariant.antt =====
-- The state of a breaker after any history of calls, told from the history alone.
use microsoft_agt_rust.Prelude.{
  ℕ, ◌+◌, ◌^◌, ◌<◌, ◌≡◌, ◌≢◌, ◌↔◌, refl, Option, none, some, List, [], ◌∷◌, length, arith,
}
use microsoft_agt_rust.CircuitBreaker.{
  CircuitState, closed, open_, half_open, CircuitBreaker, new, probe, allowed_in, is_allowed,
  record_success, count_failure, record_failure, Call, asks, succeeds, fails, step, run,
}

-- The failures since the last success, after `n` of them.
abbrev pub streak : ℕ → List Call → ℕ
streak n [] = n
streak n (asks now ∷ cs) = streak n cs
streak n (succeeds now ∷ cs) = streak 0 cs
streak n (fails now ∷ cs) = streak (n + 1) cs

-- The time of the last failure, after one at the time `t`, if any.
abbrev pub last_failure : Option ℕ → List Call → Option ℕ
last_failure t [] = t
last_failure t (asks now ∷ cs) = last_failure t cs
last_failure t (succeeds now ∷ cs) = last_failure t cs
last_failure t (fails now ∷ cs) = last_failure (some now) cs

-- A breaker after `n` failures since the last success, the last one at the time `t`: it is closed
-- exactly while they are fewer than the threshold, and otherwise remembers that time.
pub record IsConsistent (threshold timeout n : ℕ) (t : Option ℕ) (cb : CircuitBreaker)
    : Type 0 where
  pub has_threshold : cb.failure_threshold ≡ threshold
  pub has_timeout : cb.reset_timeout ≡ timeout
  pub counted : cb.inner.failure_count ≡ n
  pub below : (cb.inner.state ≡ closed) ↔ (n < threshold)
  pub tripped : cb.inner.state ≢ closed → cb.inner.last_failure_time ≡ t

module _ (threshold timeout : ℕ) (positive : 0 < threshold) where
  probe-IsConsistent :
      (since : Option ℕ) (now n : ℕ) (t : Option ℕ) (cb : CircuitBreaker)
      → cb.inner.state ≡ open_
      → IsConsistent threshold timeout n t cb
      → IsConsistent threshold timeout n t (probe since now cb).1
  unfolding probe
  probe-IsConsistent none now n t cb e v = v
  probe-IsConsistent (some time) now n t cb e v = record {
    has_threshold = ground (arith, v.has_threshold);
    has_timeout = ground (arith, v.has_timeout);
    counted = ground (arith, v.counted);
    below = (λ s. ground (arith, v.below), λ h. ground (arith, v.below));
    tripped = λ s. ground (arith, v.tripped);
  }

  allowed_in-IsConsistent :
      (s : CircuitState) (now n : ℕ) (t : Option ℕ) (cb : CircuitBreaker)
      → cb.inner.state ≡ s
      → IsConsistent threshold timeout n t cb
      → IsConsistent threshold timeout n t (allowed_in s now cb).1
  unfolding allowed_in
  allowed_in-IsConsistent closed now n t cb e v = v
  allowed_in-IsConsistent open_ now n t cb e v =
      probe-IsConsistent cb.inner.last_failure_time now n t cb e v
  allowed_in-IsConsistent half_open now n t cb e v = v

  record_failure-IsConsistent :
      (now n : ℕ) (t : Option ℕ) (cb : CircuitBreaker)
      → n + 1 < 2 ^ 32
      → IsConsistent threshold timeout n t cb
      → IsConsistent threshold timeout (n + 1) (some now) (record_failure now cb)
  unfolding record_failure count_failure
  record_failure-IsConsistent now n t cb w v = record {
    has_threshold = ground (arith, v.has_threshold);
    has_timeout = ground (arith, v.has_timeout);
    counted = ground (arith, v.counted);
    below = (
      λ s. ground (arith, v.has_threshold, v.counted, v.below),
      λ h. ground (arith, v.has_threshold, v.counted, v.below),
    );
    tripped = λ s. ground (arith, v.has_threshold, v.counted, v.below);
  }

  -- A history of calls moves the breaker as it moves the two numbers.
  pub run-IsConsistent :
      (n : ℕ) (t : Option ℕ) (cb : CircuitBreaker) (cs : List Call)
      → n + length cs < 2 ^ 32
      → IsConsistent threshold timeout n t cb
      → IsConsistent threshold timeout (streak n cs) (last_failure t cs) (run cb cs)
  unfolding run step is_allowed record_success
  run-IsConsistent n t cb [] w v = v
  run-IsConsistent n t cb (asks now ∷ cs) w v =
      run-IsConsistent n t _ cs (omega arith)
        (allowed_in-IsConsistent cb.inner.state now n t cb refl v)
  run-IsConsistent n t cb (succeeds now ∷ cs) w v =
      run-IsConsistent 0 t _ cs (omega arith) (record {
        has_threshold = v.has_threshold;
        has_timeout = v.has_timeout;
        counted = refl;
        below = (λ s. positive, λ h. refl);
        tripped = λ s. absurd (s refl);
      })
  run-IsConsistent n t cb (fails now ∷ cs) w v =
      run-IsConsistent (n + 1) (some now) _ cs (omega arith)
        (record_failure-IsConsistent now n t cb (omega arith) v)

  -- After any history from `new`, shorter than 2 ^ 32 calls and with a threshold above zero: the
  -- breaker's count is the number of failures since the last success; it is closed exactly while that
  -- is below the threshold; and a breaker that is not closed holds the time of the last failure.
  pub run-new-IsConsistent :
      (cs : List Call)
      → length cs < 2 ^ 32
      → IsConsistent threshold timeout
          (streak 0 cs)
          (last_failure none cs)
          (run (new threshold timeout) cs)
  unfolding new
  run-new-IsConsistent cs w =
      run-IsConsistent 0 none (new threshold timeout) cs (omega arith) (record {
        has_threshold = refl;
        has_timeout = refl;
        counted = refl;
        below = (λ s. positive, λ h. refl);
        tripped = λ s. absurd (s refl);
      })
