-- ===== src/Risk/Tests.antt =====
-- The score of an agent with two signals.
use microsoft_agt_rust.Prelude.{◌+◌, ◌-◌, ◌*◌, ◌/◌, ◌≡◌, none, List, [], ◌∷◌}
use microsoft_agt_rust.Prelude.Map.{HashMap}
use microsoft_agt_rust.Risk.{F64, RiskSignal, critical, low, calculate_score}
use microsoft_agt_rust.Risk.Scores.{penalty, recent, calculate_score-eq-penalty}

-- Numbers of tenths.
abbrev tenths : F64
tenths = record { tenths = λ n. n; times = λ a b. a * b / 10; as_u32 = λ n. n / 10 }

abbrev signals : HashMap (List RiskSignal)
signals =
    (
      "did:mesh:a1",
      record {
        signal_type = "behavior.anomaly";
        severity = critical;
        value = 10;
        timestamp = 5;
        source = none;
        details = none;
      }
          ∷ record {
            signal_type = "identity.reuse";
            severity = low;
            value = 10;
            timestamp = 6;
            source = none;
            details = none;
          }
          ∷ [],
    )
    ∷ []

calculate_score-eq-penalty_example :
    let score = calculate_score tenths 7 "did:mesh:a1" signals in
    let rs = recent tenths 7 "did:mesh:a1" signals in
    (score.identity_score ≡ 80 - penalty tenths "identity." rs)
    × (score.behavior_score ≡ 70 - penalty tenths "behavior." rs)
    × (score.network_score ≡ 75 - penalty tenths "network." rs)
    × (score.compliance_score ≡ 85 - penalty tenths "compliance." rs)
    × (score.total_score
        ≡ ((80 - penalty tenths "identity." rs) * 2
            + (70 - penalty tenths "behavior." rs) * 3
            + (75 - penalty tenths "network." rs) * 2
            + (85 - penalty tenths "compliance." rs) * 3)
          / 10)
calculate_score-eq-penalty_example = calculate_score-eq-penalty tenths 7 "did:mesh:a1" signals
