-- ===== src/Risk/Scores.antt =====
-- The scores against a closed formula, their bounds, and what a new signal does.
use microsoft_agt_rust.Prelude.{
  ℕ, ◌+◌, ◌-◌, ◌*◌, ◌/◌, ◌≤◌, ◌≡◌, refl, String, some, List, [], ◌∷◌, ◌++◌, filter, starts_with,
  str_eq, str_eq_self, if◌then◌else◌, arith,
}
use microsoft_agt_rust.Prelude.Map
use microsoft_agt_rust.Prelude.Map.{HashMap, get-insert}
use microsoft_agt_rust.Risk.{
  F64, RiskSignal, RiskScorer, Components, start, or_empty, is_recent, reduction, apply_signal,
  apply_signals, calculate_score, recalculate, add_signal, get_score,
}

abbrev pub sum : List ℕ → ℕ
sum [] = 0
sum (x ∷ xs) = x + sum xs

module _ (f : F64) where
  -- What the signals of one kind take off in all.
  abbrev pub penalty : String → List RiskSignal → ℕ
  penalty prefix [] = 0
  penalty prefix (s ∷ signals) =
      (if starts_with prefix s.signal_type then reduction f s else 0) + penalty prefix signals

  -- The loop of saturating subtractions is one subtraction for each component.
  pub apply_signals-eq-penalty :
      (c : Components) (signals : List RiskSignal)
      → apply_signals f c signals ≡ record {
        identity = c.identity - penalty "identity." signals;
        behavior = c.behavior - penalty "behavior." signals;
        network = c.network - penalty "network." signals;
        compliance = c.compliance - penalty "compliance." signals;
      }
  unfolding apply_signals apply_signal
  apply_signals-eq-penalty c [] = ground arith
  apply_signals-eq-penalty c (s ∷ signals) =
      ground (arith, apply_signals-eq-penalty (apply_signal f c s) signals)

  -- The signals of an agent from the last day.
  abbrev pub recent : ℕ → String → HashMap (List RiskSignal) → List RiskSignal
  recent now did signals = filter (is_recent now) (or_empty (Map.get signals did))

  -- Each component is its start less the sum of the reductions of the agent's recent signals of that
  -- kind (0 if that is more), whatever their order, and the total is the weighted mean of these; the
  -- caps of 100 and 1000 never act.
  pub calculate_score-eq-penalty :
      (now : ℕ) (did : String) (signals : HashMap (List RiskSignal))
      → let score = calculate_score f now did signals in
        let rs = recent now did signals in
        (score.identity_score ≡ 80 - penalty "identity." rs)
        × (score.behavior_score ≡ 70 - penalty "behavior." rs)
        × (score.network_score ≡ 75 - penalty "network." rs)
        × (score.compliance_score ≡ 85 - penalty "compliance." rs)
        × (score.total_score
            ≡ ((80 - penalty "identity." rs) * 2
                + (70 - penalty "behavior." rs) * 3
                + (75 - penalty "network." rs) * 2
                + (85 - penalty "compliance." rs) * 3)
              / 10)
  unfolding calculate_score
  calculate_score-eq-penalty now did signals =
      ground (arith, apply_signals-eq-penalty start (recent now did signals))

  -- The total never exceeds 77 of the 1000 that it is capped at, and no component exceeds its start.
  pub calculate_score_bounds :
      (now : ℕ) (did : String) (signals : HashMap (List RiskSignal))
      → let score = calculate_score f now did signals in
        (score.total_score ≤ 77)
        × (score.identity_score ≤ 80)
        × (score.behavior_score ≤ 70)
        × (score.network_score ≤ 75)
        × (score.compliance_score ≤ 85)
  calculate_score_bounds now did signals = omega (arith, calculate_score-eq-penalty now did signals)

  penalty-append :
      (prefix : String) (xs ys : List RiskSignal)
      → penalty prefix (xs ++ ys) ≡ penalty prefix xs + penalty prefix ys
  penalty-append prefix [] ys = omega arith
  penalty-append prefix (x ∷ xs) ys = ground (arith, penalty-append prefix xs ys)

  recent-append :
      (now : ℕ) (xs ys : List RiskSignal)
      → filter (is_recent now) (xs ++ ys) ≡ filter (is_recent now) xs ++ filter (is_recent now) ys
  recent-append now [] ys = refl
  recent-append now (x ∷ xs) ys = ground (arith, recent-append now xs ys)

  -- After a signal is added, the score that is kept is the one calculated then; it is in no component
  -- and not in total above the one that would have been calculated without the signal, and no other
  -- agent's score has changed.
  pub add_signal-le :
      (now : ℕ) (did : String) (signal : RiskSignal) (s : RiskScorer)
      → let s' = add_signal f now did signal s in
        let before = calculate_score f now did s.signals in
        let after = calculate_score f now did s'.signals in
        (get_score did s' ≡ some after)
        × (after.total_score ≤ before.total_score)
        × (after.identity_score ≤ before.identity_score)
        × (after.behavior_score ≤ before.behavior_score)
        × (after.network_score ≤ before.network_score)
        × (after.compliance_score ≤ before.compliance_score)
        × ((other : String)
            → get_score other s' ≡ (if str_eq did other then some after else get_score other s))
  unfolding add_signal recalculate get_score
  add_signal-le now did signal s =
      let old = or_empty (Map.get s.signals did) in
      let there = get-insert s.signals did (old ++ signal ∷ []) did in
      let kept : Map.get (add_signal f now did signal s).signals did ≡ some (old ++ signal ∷ []) =
        rw (there, str_eq_self did) in
      let after = calculate_score-eq-penalty now did (add_signal f now did signal s).signals in
      let before = calculate_score-eq-penalty now did s.signals in
      let more = λ (prefix : String).
        penalty-append prefix (filter (is_recent now) old) (filter (is_recent now) (signal ∷ [])) in
      let split = recent-append now old (signal ∷ []) in
      let score = calculate_score f now did (add_signal f now did signal s).signals in
      (
        rw (get-insert s.scores did score did, str_eq_self did),
        ground (
          arith,
          kept,
          after,
          before,
          split,
          more "identity.",
          more "behavior.",
          more "network.",
          more "compliance.",
        ),
        ground (arith, kept, after, before, split, more "identity."),
        ground (arith, kept, after, before, split, more "behavior."),
        ground (arith, kept, after, before, split, more "network."),
        ground (arith, kept, after, before, split, more "compliance."),
        λ other. get-insert s.scores did score other,
      )
