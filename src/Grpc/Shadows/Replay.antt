-- ===== src/Grpc/Shadows/Replay.antt =====
-- Which alerts `watch_shadows` replays, and to whom.
use mathlib.Core.List.{append_assoc, append-nil}
use microsoft_agt_rust.Prelude.{
  ℕ, ◌≡◌, refl, sym, ap, ◌∙◌, true, String, Option, none, some, List, [], ◌∷◌, ◌++◌, All, inl, inr,
  Option-cases, leb,
}
use microsoft_agt_rust.Prelude.Result.{Result, ok}
use microsoft_agt_rust.Platform.{Platform}
use microsoft_agt_rust.Audit.{ActionLogRecord, AuditJson}
use microsoft_agt_rust.Compliance.Log.{FileActionLog, AuditJsonLaws, all_written, replay_since}
use microsoft_agt_rust.Compliance.Log.History.{replay_since-append}
use microsoft_agt_rust.Discovery.{DiscoveredAgent, DiscoveryEvent, presence, shadow}
use microsoft_agt_rust.Grpc.Proto.{ShadowAlert, Timestamp, Prost}
use microsoft_agt_rust.Grpc.Convert.{Chrono}
use microsoft_agt_rust.Grpc.Call.{Call}
use microsoft_agt_rust.Grpc.Shadows.{
  EventJson, Turn, alert_record, bridge_event, bridge, alert_of, alert_in, initial_alerts,
  live_alerts, watched_from, watch_shadows,
}

-- serde reads back the event that it wrote.
pub record EventJsonLaws (j : EventJson) : Type 0 where
  pub from_str-to_string : (e : DiscoveryEvent) → j.from_str (j.to_string e) ≡ ok e

-- A turn whose writes succeed and whose record is stamped from `since` on.
abbrev pub IsKept : ℕ → Turn → Type 0
IsKept since t = (leb since t.stamped_at ≡ true) × (t.log_io ≡ all_written)

module _ (c : Chrono) (j : EventJson) where
  -- The alerts of the shadow events that the worker receives before its first error.
  unfoldable pub due : List Turn → List ShadowAlert
  due [] = []
  due (t ∷ turns) =
      let rest = due turns in
      elim t.received [
        | none ↦ []
        | some (presence agent) ↦ rest
        | some (shadow agent) ↦ alert_of c j agent ∷ rest
      ]

module _ (p : Platform) (a : AuditJson) (j : EventJson) (c : Chrono) (audit_laws : AuditJsonLaws a)
    (event_laws : EventJsonLaws j) where
  initial_alerts-append :
      (rs ss : List ActionLogRecord)
      → initial_alerts c j (rs ++ ss) ≡ initial_alerts c j rs ++ initial_alerts c j ss
  unfolding initial_alerts
  initial_alerts-append [] ss = refl
  initial_alerts-append (r ∷ rs) ss =
      ap (λ x. alert_in c j r.outcome ++ x) (initial_alerts-append rs ss)
      ∙ sym (append_assoc (alert_in c j r.outcome) (initial_alerts c j rs) (initial_alerts c j ss))

  -- What a replay of `log` from `since` on shows.
  abbrev Shows : ℕ → FileActionLog → List ShadowAlert → Type 0
  Shows since log alerts =
      (rs : List ActionLogRecord) × (replay_since a since log.lines ≡ ok rs)
      × (initial_alerts c j rs ≡ alerts)

  shadow-Shows :
      (since : ℕ) (t : Turn) (agent : DiscoveredAgent) (log : FileActionLog)
      (alerts : List ShadowAlert)
      → IsKept since t
      → Shows since log alerts
      → Shows since (bridge_event p a j t (shadow agent) log) (alerts ++ alert_of c j agent ∷ [])
  unfolding bridge_event initial_alerts
  shadow-Shows since t agent log alerts (late, io) (rs, replayed, shown) =
      let r = record (alert_record p a j t agent) { prev_hash = log.last_hash } in
      (
        rs ++ r ∷ [],
        rw (bridge_event, io)
            (replay_since-append a audit_laws p since (alert_record p a j t agent) log
              ∙ rw (replayed, late) refl),
        initial_alerts-append rs (r ∷ [])
            ∙ rw (shown, event_laws.from_str-to_string (shadow agent)) refl,
      )

  bridge-Shows :
      (since : ℕ) (turns : List Turn) (log : FileActionLog) (alerts : List ShadowAlert)
      → All (IsKept since) turns
      → Shows since log alerts
      → Shows since (bridge p a j turns log) (alerts ++ due c j turns)
  unfolding bridge due
  bridge-Shows since [] log alerts kept shows =
      let (rs, replayed, shown) = shows in (rs, replayed, shown ∙ sym (append-nil alerts))
  bridge-Shows since (t ∷ turns) log alerts (now, kept) shows = elim (Option-cases t.received) [
    | inl e ↦
        let (rs, replayed, shown) = shows in
        (rs, rw (bridge, e) replayed, rw (due, e) (shown ∙ sym (append-nil alerts)))
    | inr (presence agent, e) ↦
        let (rs, replayed, shown) = bridge-Shows since turns log alerts kept shows in
        (rs, rw (bridge, e, bridge_event) replayed, rw (due, e) shown)
    | inr (shadow agent, e) ↦
        let (rs, replayed, shown) =
          bridge-Shows since turns (bridge_event p a j t (shadow agent) log)
            (alerts ++ alert_of c j agent ∷ []) kept
            (shadow-Shows since t agent log alerts now shows) in
        rw (bridge, due, e)
          (rs, replayed, shown ∙ append_assoc alerts (alert_of c j agent ∷ []) (due c j turns))
  ]

  -- The worker that follows the discovery and the stream of alerts fit together: where a log can be
  -- read, and every append of the worker succeeds and is stamped from `since` on, a stream that is
  -- opened from `since` on gives first the alerts of the old records, then exactly those of the shadow
  -- events that the worker received before its first error, in their order, and then the live ones.
  pub watch_shadows-bridge :
      (x : Prost) (registry_pubkey : String) (call : Call) (started_at since : ℕ)
      (since_timestamp : Option Timestamp) (live : List (Result String DiscoveryEvent))
      (turns : List Turn) (log : FileActionLog) (old : List ActionLogRecord)
      → watched_from c j p x registry_pubkey call started_at since_timestamp ≡ ok since
      → All (IsKept since) turns
      → replay_since a since log.lines ≡ ok old
      → watch_shadows c j p a x registry_pubkey call started_at since_timestamp live
          (bridge p a j turns log).lines
        ≡ ok ((initial_alerts c j old ++ due c j turns) ++ live_alerts c j live)
  unfolding watch_shadows
  watch_shadows-bridge x registry_pubkey call started_at since ts live turns log old opens kept
        reads =
      let (rs, replayed, shown) = bridge-Shows since turns log _ kept (old, reads, refl) in
      rw (watch_shadows, opens, replayed, shown) refl
