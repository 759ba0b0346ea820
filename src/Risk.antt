-- ===== src/Risk.antt =====
-- crates/core/mesh/src/identity/risk.rs: risk scores from the signals of the last day. An `f64` is its
-- bit pattern, and the three operations on it that the source uses are parameters.
pub mod Scores
mod Tests
use microsoft_agt_rust.Prelude.{
  ℕ, ◌+◌, ◌-◌, ◌*◌, ◌/◌, ◌%◌, ◌^◌, min, Bool, true, false, String, Option, none, some, List, [],
  ◌∷◌, ◌++◌, length, filter, ltb, starts_with, if◌then◌else◌,
}
use microsoft_agt_rust.Prelude.Map
use microsoft_agt_rust.Prelude.Map.{HashMap}

pub data RiskSeverity : Type 0 where
  critical high medium low info : RiskSeverity

-- `n / 10` as a literal, `*`, and the cast `as u32`.
pub record F64 : Type 0 where
  pub tenths : ℕ → ℕ
  pub times : ℕ → ℕ → ℕ
  pub as_u32 : ℕ → ℕ

pub record RiskSignal : Type 0 where
  pub signal_type : String
  pub severity : RiskSeverity
  pub value : ℕ
  pub timestamp : ℕ
  pub source : Option String
  pub details : Option String

pub record RiskScore : Type 0 where
  pub agent_did : String
  pub total_score : ℕ
  pub identity_score : ℕ
  pub behavior_score : ℕ
  pub network_score : ℕ
  pub compliance_score : ℕ
  pub active_signals : ℕ
  pub critical_signals : ℕ

-- `RiskState`, behind the scorer's lock.
pub record RiskScorer : Type 0 where
  pub scores : HashMap RiskScore
  pub signals : HashMap (List RiskSignal)

-- RiskScorer::new
abbrev pub new : RiskScorer
new = record { scores = []; signals = [] }

-- RiskScorer::get_score
pub get_score : String → RiskScorer → Option RiskScore
get_score agent_did s = Map.get s.scores agent_did

-- Duration::hours(24)
abbrev pub day : ℕ
day = 86400000000000

-- `s.timestamp > now - day`
abbrev pub is_recent : ℕ → RiskSignal → Bool
is_recent now s = ltb now (s.timestamp + day)

abbrev pub is_critical : RiskSignal → Bool
is_critical s = elim s.severity [
  | critical ↦ true
  | high ↦ false
  | medium ↦ false
  | low ↦ false
  | info ↦ false
]

-- The four component scores that the loop lowers.
pub record Components : Type 0 where
  pub identity : ℕ
  pub behavior : ℕ
  pub network : ℕ
  pub compliance : ℕ

abbrev pub start : Components
start = record { identity = 80; behavior = 70; network = 75; compliance = 85 }

-- `cloned().unwrap_or_default()`
abbrev pub or_empty : Option (List RiskSignal) → List RiskSignal
or_empty none = []
or_empty (some signals) = signals

-- `saturating_sub` if the signal's type starts with the prefix.
abbrev pub lower : String → RiskSignal → ℕ → ℕ → ℕ
lower prefix s reduction score =
    if starts_with prefix s.signal_type then score - reduction else score

module _ (f : F64) where
  -- RiskSignal::weight
  pub weight : RiskSeverity → ℕ
  weight critical = f.tenths 10
  weight high = f.tenths 8
  weight medium = f.tenths 5
  weight low = f.tenths 2
  weight info = f.tenths 1

  -- `(signal.value * signal.weight() * 20.0) as u32`
  pub reduction : RiskSignal → ℕ
  unfolding weight
  reduction s = f.as_u32 (f.times (f.times s.value (weight s.severity)) (f.tenths 200))

  -- The body of the loop.
  pub apply_signal : Components → RiskSignal → Components
  apply_signal c s =
      let r = reduction s in
      record {
        identity = lower "identity." s r c.identity;
        behavior = lower "behavior." s r c.behavior;
        network = lower "network." s r c.network;
        compliance = lower "compliance." s r c.compliance;
      }

  pub apply_signals : Components → List RiskSignal → Components
  unfolding apply_signal
  apply_signals c [] = c
  apply_signals c (s ∷ signals) = apply_signals (apply_signal c s) signals

  -- RiskScorer::calculate_score
  pub calculate_score : ℕ → String → HashMap (List RiskSignal) → RiskScore
  unfolding apply_signals
  calculate_score now agent_did signals_map =
      let recent = filter (is_recent now) (or_empty (Map.get signals_map agent_did)) in
      let c = apply_signals start recent in
      let total = (c.identity * 2 + c.behavior * 3 + c.network * 2 + c.compliance * 3) / 10 in
      record {
        agent_did = agent_did;
        total_score = min total 1000;
        identity_score = min c.identity 100;
        behavior_score = min c.behavior 100;
        network_score = min c.network 100;
        compliance_score = min c.compliance 100;
        active_signals = length recent % 2 ^ 32;
        critical_signals = length (filter is_critical recent) % 2 ^ 32;
      }

  -- RiskScorer::recalculate
  pub recalculate : ℕ → String → RiskScorer → RiskScore × RiskScorer
  recalculate now agent_did s =
      let score = calculate_score now agent_did s.signals in
      (score, record s { scores = Map.insert s.scores agent_did score })

  -- RiskScorer::add_signal
  pub add_signal : ℕ → String → RiskSignal → RiskScorer → RiskScorer
  unfolding recalculate
  add_signal now agent_did signal s =
      let kept = or_empty (Map.get s.signals agent_did) ++ signal ∷ [] in
      (recalculate now agent_did (record s { signals = Map.insert s.signals agent_did kept })).1
