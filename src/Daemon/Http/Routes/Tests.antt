-- ===== src/Daemon/Http/Routes/Tests.antt =====
-- The theorems on the routes at concrete requests.
use microsoft_agt_rust.Prelude.{ℕ, ◌≡◌, ◌≢◌, refl, none, some, List, [], ◌∷◌, arith}
use microsoft_agt_rust.Prelude.Result.{ok}
use microsoft_agt_rust.Prelude.Map
use microsoft_agt_rust.Platform.Toy.{toy, toy_laws}
use microsoft_agt_rust.Identity.Ring.{standard, system, trusted}
use microsoft_agt_rust.Identity.AgentId.{AgentIdentity}
use microsoft_agt_rust.Identity.Registry
use microsoft_agt_rust.Identity.Registry.{AgentRegistry, register}
use microsoft_agt_rust.Identity.KeyStore
use microsoft_agt_rust.Fixtures.Agents.{
  registry_key, agent_a, empty_memory, key, all_a, attestation, attestation-IsGenuine, signed_by_a,
}
use microsoft_agt_rust.Fixtures.Calls.{service, clocks, sinks, a1, pending_request}
use microsoft_agt_rust.Rings.Escalation.{
  EscalationManager, approval_payload, approved, denied, not_system, to_event,
}
use microsoft_agt_rust.Rings.Escalation.Approve.{IsApprovable}
use microsoft_agt_rust.Clients.Keys.{AttestedKeyResponse, accept_key}
use microsoft_agt_rust.Daemon.Http.Routes.{get_key, save_key, approve_escalation}
use microsoft_agt_rust.Daemon.Http.Routes.Keys.{accept_key-get_key}
use microsoft_agt_rust.Daemon.Http.Routes.Approvals.{approve_escalation_blind}

-- A key of 32 bytes.
abbrev long_key : List ℕ
long_key = toy.public_key (7 ∷ 9 ∷ [])

abbrev agent : AgentIdentity
agent = record agent_a { public_key = toy.encode (toy.public_key long_key) }

accept_key-get_key_example :
    let (answer, s') =
      save_key toy KeyStore.as_trait a1 (toy.encode long_key) (record { keys = [] }) in
    (answer ≡ ok 200)
    × ((res : AttestedKeyResponse) × (get_key toy KeyStore.as_trait
            (Registry.as_trait toy 10 10 (register agent standard empty_memory))
            a1
            s'
          ≡ ok (some res))
        × (accept_key toy 15 registry_key res ≡ ok long_key))
accept_key-get_key_example =
    accept_key-get_key toy toy_laws 10 10 15 long_key agent standard empty_memory
      (record { keys = [] }) (toy_laws.length-public_key (7 ∷ 9 ∷ [])) refl (omega arith)

-- A registry in which every agent is of the Standard ring.
abbrev low : AgentRegistry
low = record { get_attestation = λ did. ok none; get_ring = λ did. ok (some standard) }

abbrev manager : EscalationManager
manager = record service.manager { audit_log = some [] }

abbrev consent : List ℕ
consent = toy.sign key (approval_payload "e1" "did:mesh:b2" trusted)

consent-IsApprovable : IsApprovable toy clocks sinks "e1" pending_request a1 consent all_a manager
consent-IsApprovable = record {
  attestation = attestation;
  from_system = refl;
  attested = refl;
  genuine = attestation-IsGenuine;
  signed = signed_by_a (approval_payload "e1" "did:mesh:b2" trusted);
  upward = omega arith;
}

standard_not_system : standard ≢ system
standard_not_system h = ground (arith, h)

approve_escalation_blind_example :
    let sent = toy.encode consent in
    let (answer, m₁) = approve_escalation toy clocks sinks all_a "e1" a1 sent manager in
    let (answer', m₂) = approve_escalation toy clocks sinks low "e1" a1 sent manager in
    ((answer ≡ ok 200)
      × (Map.get m₁.pending "e1" ≡ none)
      × (m₁.audit_log ≡ some (to_event "e1" pending_request a1 approved 16 ∷ [])))
    × ((answer' ≡ ok 200)
        × (Map.get m₂.pending "e1" ≡ none)
        × (m₂.audit_log ≡ some (to_event "e1" pending_request a1 (denied not_system) 16 ∷ [])))
unfolding Map.get
approve_escalation_blind_example =
    approve_escalation_blind toy clocks sinks "e1" manager pending_request [] refl refl refl all_a
      low a1 a1 (toy.encode consent) (toy.encode consent) consent consent standard
      (toy_laws.decode-encode consent) (toy_laws.decode-encode consent) consent-IsApprovable refl
      standard_not_system
