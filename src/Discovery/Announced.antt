-- ===== src/Discovery/Announced.antt =====
-- No agent is a shadow without having been announced as one.
use microsoft_agt_rust.Prelude.{
  ◌≡◌, Bool, true, false, String, some, List, [], ◌∷◌, arith, Option-cases, inl, inr, eq_iff,
  str_eq, str_eq_self, any, any-append,
}
use microsoft_agt_rust.Prelude.Map
use microsoft_agt_rust.Prelude.Map.{get-insert}
use microsoft_agt_rust.Identity.AgentId
use microsoft_agt_rust.Identity.AgentId.{AgentDid}
use microsoft_agt_rust.Discovery.{
  DiscoverySource, DiscoveredAgent, DiscoveryEvent, presence, shadow, DiscoveryManager, Seen,
  report, report_presence, register_agent, refresh, first_entry, event_of, new,
}

-- An event that names the agent of this DID as a shadow.
abbrev pub alerts : String → DiscoveryEvent → Bool
alerts did (presence a) = false
alerts did (shadow a) = str_eq (AgentId.display a.did) did

-- Every entry stands under its own DID, and every unregistered one has been sent as a shadow.
pub record IsAnnounced (m : DiscoveryManager) : Type 0 where
  pub own_key :
      (key : String) (a : DiscoveredAgent)
      → Map.get m.agents key ≡ some a
      → AgentId.display a.did ≡ key
  pub alerted :
      (key : String) (a : DiscoveredAgent)
      → Map.get m.agents key ≡ some a
      → a.is_registered ≡ false
      → any (alerts key) m.events ≡ true

-- The calls of the manager's clients.
pub data Call : Type 0 where
  reports : Seen → AgentDid → String → String → DiscoverySource → Call
  registers : String → Call

pub step : DiscoveryManager → Call → DiscoveryManager
step m (reports t did name address source) = report_presence t did name address source m
step m (registers did) = register_agent did m

pub run : DiscoveryManager → List Call → DiscoveryManager
unfolding step
run m [] = m
run m (c ∷ cs) = run (step m c) cs

module _ (m : DiscoveryManager) (v : IsAnnounced m) where
  report_presence-IsAnnounced :
      (t : Seen) (did : AgentDid) (name address : String) (source : DiscoverySource)
      → IsAnnounced (report_presence t did name address source m)
  unfolding report_presence report refresh first_entry
  report_presence-IsAnnounced t did name address source =
      let mine = AgentId.display did in
      elim (Option-cases (Map.get m.agents mine)) [
        | inl q ↦ record {
          own_key = λ key a h. ground (
            arith,
            q,
            h,
            get-insert m.agents mine
                (refresh t name address source (first_entry t did name address source)) key,
            eq_iff mine key,
            v.own_key key a,
          );
          alerted = λ key a h u. ground (
            arith,
            q,
            h,
            get-insert m.agents mine
                (refresh t name address source (first_entry t did name address source)) key,
            eq_iff mine key,
            v.alerted key a,
            any-append (alerts key) m.events (
                shadow (refresh t name address source (first_entry t did name address source))
                ∷ []),
            str_eq_self mine,
          );
        }
        | inr (old, q) ↦ record {
          own_key = λ key a h. ground (
            arith,
            q,
            h,
            get-insert m.agents mine (refresh t name address source old) key,
            eq_iff mine key,
            v.own_key key a,
            v.own_key mine old,
          );
          alerted = λ key a h u. ground (
            arith,
            q,
            h,
            get-insert m.agents mine (refresh t name address source old) key,
            eq_iff mine key,
            v.alerted key a,
            v.alerted mine old,
            any-append (alerts key) m.events (event_of (refresh t name address source old) ∷ []),
          );
        }
      ]

  register_agent-IsAnnounced : (did : String) → IsAnnounced (register_agent did m)
  unfolding register_agent
  register_agent-IsAnnounced did = elim (Option-cases (Map.get m.agents did)) [
    | inl q ↦ rw (q, register_agent) v
    | inr (old, q) ↦ record {
      own_key = λ key a h. ground (
        arith,
        q,
        h,
        get-insert m.agents did (record old { is_registered = true }) key,
        eq_iff did key,
        v.own_key key a,
        v.own_key did old,
      );
      alerted = λ key a h u. ground (
        arith,
        q,
        h,
        get-insert m.agents did (record old { is_registered = true }) key,
        eq_iff did key,
        v.alerted key a,
        any-append (alerts key) m.events (presence (record old { is_registered = true }) ∷ []),
      );
    }
  ]

run-IsAnnounced : (cs : List Call) (m : DiscoveryManager) → IsAnnounced m → IsAnnounced (run m cs)
unfolding run step
run-IsAnnounced [] m v = v
run-IsAnnounced (reports t did name address source ∷ cs) m v =
    run-IsAnnounced cs _ (report_presence-IsAnnounced m v t did name address source)
run-IsAnnounced (registers did ∷ cs) m v = run-IsAnnounced cs _ (register_agent-IsAnnounced m v did)

-- After any reports and registrations of a new manager, every agent that is held stands under its own
-- DID, and for every one that is not registered a shadow event of that DID has been sent.
pub run-new-IsAnnounced : (cs : List Call) → IsAnnounced (run new cs)
unfolding Map.get
run-new-IsAnnounced cs =
    run-IsAnnounced cs new (record { own_key = λ key a h. cc; alerted = λ key a h u. cc })
