-- ===== src/CircuitBreaker/Tests.antt =====
-- Tests of the breaker, and its theorems at concrete histories.
use microsoft_agt_rust.Prelude.{◌≡◌, ◌↔◌, ◌<◌, ◌+◌, false, refl, some, List, [], ◌∷◌, map, arith}
use microsoft_agt_rust.CircuitBreaker.{
  open_, half_open, CircuitBreaker, Call, new, asks, succeeds, fails, run, is_allowed,
}
use microsoft_agt_rust.CircuitBreaker.Invariant.{IsConsistent, run-new-IsConsistent}
use microsoft_agt_rust.CircuitBreaker.Trip.{run-asks_cooldown}

abbrev tripped : CircuitBreaker
tripped = record {
  inner = record { state = open_; failure_count = 2; last_failure_time = some 6 };
  failure_threshold = 2;
  reset_timeout = 100;
}

-- The flow of the source's own test.
flow : (run (new 2 100) (asks 0 ∷ fails 1 ∷ asks 2 ∷ fails 6 ∷ asks 50 ∷ [])).inner ≡ tripped.inner
unfolding new run
flow = refl

half : (run tripped (asks 156 ∷ [])).inner.state ≡ half_open
unfolding run
half = refl

abbrev history : List Call
history = fails 1 ∷ succeeds 2 ∷ fails 3 ∷ fails 6 ∷ asks 200 ∷ []

run-new-IsConsistent_example : IsConsistent 2 100 2 (some 6) (run (new 2 100) history)
run-new-IsConsistent_example = run-new-IsConsistent 2 100 (omega arith) history (omega arith)

run-asks_cooldown_example :
    let cb = run (run (new 2 100) (fails 1 ∷ fails 6 ∷ [])) (map asks (7 ∷ 50 ∷ 105 ∷ [])) in
    (cb.inner.state ≡ open_) × (((is_allowed 106 cb).0 ≡ false) ↔ (106 < 6 + 100))
run-asks_cooldown_example =
    run-asks_cooldown 2 100 (fails 1 ∷ []) 6 106 (7 ∷ 50 ∷ 105 ∷ []) (omega arith) (omega arith)
      (omega arith) (omega arith) (omega arith)
