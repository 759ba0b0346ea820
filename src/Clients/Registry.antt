-- ===== src/Clients/Registry.antt =====
-- `HttpAgentRegistry` of crates/core/mesh/src/identity/registry_http.rs. The cache's lock is never
-- poisoned, since no holder panics.
pub mod Answers
mod Tests
use Prim.Native.String.{◌++◌}
use microsoft_agt_rust.Prelude.{
  ℕ, ◌-◌, ◌*◌, Bool, true, false, leb, ltb, String, Option, none, some, List, [], if◌then◌else◌,
}
use microsoft_agt_rust.Prelude.Result.{Result, ok, err, map_err, ◌>>=◌, ◌>>◌}
use microsoft_agt_rust.Prelude.Map
use microsoft_agt_rust.Prelude.Map.{HashMap, is_some}
use microsoft_agt_rust.Platform.{Platform}
use microsoft_agt_rust.Identity.Ring.{PrivilegeRing}
use microsoft_agt_rust.Identity.AgentId.{AgentIdentity}
use microsoft_agt_rust.Identity.Attestation
use microsoft_agt_rust.Identity.Attestation.{SignedAttestation, verify}
use microsoft_agt_rust.Clients.{Network, Client, http_get, http_post, signed, fetch, post}

pub record HttpAgentRegistry : Type 0 where
  pub client : Client
  pub cache : HashMap SignedAttestation

-- HttpAgentRegistry::new
abbrev pub new : Client → HttpAgentRegistry
new client = record { client = client; cache = [] }

-- serde's JSON of a registration, and how the answers are read.
pub record RegistryJson : Type 0 where
  pub register_json : AgentIdentity → PrivilegeRing → List ℕ
  pub read_attestation : List ℕ → Result String (Option SignedAttestation)
  pub read_ring : List ℕ → Result String (Option PrivilegeRing)

-- The clock at the look into the cache, the random jitter in seconds, and the clock at the
-- verification of an answer.
pub record Moment : Type 0 where
  pub checked_at : ℕ
  pub jitter_secs : ℕ
  pub verified_at : ℕ

-- `Duration::seconds`, in nanoseconds
abbrev pub seconds : ℕ → ℕ
seconds n = n * 1000000000

-- is_cache_fresh
unfoldable pub is_cache_fresh : Moment → SignedAttestation → Bool
is_cache_fresh t attestation =
    if leb attestation.claim.expires_at t.checked_at
    then false
    else ltb t.checked_at (attestation.claim.expires_at - seconds t.jitter_secs)

module _ (p : Platform) (n : Network) (j : RegistryJson) where
  -- register
  pub register : AgentIdentity → PrivilegeRing → HttpAgentRegistry → Result String (Unit {0})
  register identity ring r =
      post n "Failed to register agent: "
        (signed p r.client http_post "/v1/agents/register" (j.register_json identity ring))

  -- An answer of the registry: it is verified before it is cached.
  pub admit :
      ℕ
      → String
      → List ℕ
      → HttpAgentRegistry
      → Result String (Option SignedAttestation) × HttpAgentRegistry
  admit now did body r = elim (j.read_attestation body) [
    | err e ↦ (err e, r)
    | ok none ↦ (ok none, r)
    | ok (some a) ↦ elim (verify p now a r.client.registry_pubkey) [
      | err e ↦ (err ("Attestation verification failed: " ++ Attestation.display e), r)
      | ok _ ↦ (ok (some a), record r { cache = Map.insert r.cache did a })
    ]
  ]

  -- The second half of `get_attestation`.
  pub fetch_attestation :
      Moment
      → String
      → HttpAgentRegistry
      → Result String (Option SignedAttestation) × HttpAgentRegistry
  unfolding admit
  fetch_attestation t did r =
      let request = signed p r.client http_get ("/v1/agents/" ++ did ++ "/attestation") [] in
      elim (fetch n "Registry error: " request) [
        | err e ↦ (err e, r)
        | ok none ↦ (ok none, r)
        | ok (some body) ↦ admit t.verified_at did body r
      ]

  -- get_attestation
  pub get_attestation :
      Moment
      → String
      → HttpAgentRegistry
      → Result String (Option SignedAttestation) × HttpAgentRegistry
  unfolding fetch_attestation
  get_attestation t did r =
      let fetched = fetch_attestation t did r in
      elim (Map.get r.cache did) [
        | none ↦ fetched
        | some a ↦ if is_cache_fresh t a then (ok (some a), r) else fetched
      ]

  -- get_ring
  pub get_ring : String → HttpAgentRegistry → Result String (Option PrivilegeRing)
  get_ring did r = do
    body ←
        fetch n "Registry error: " (signed p r.client http_get ("/v1/agents/" ++ did ++ "/ring") [])
    elim body [ none ↦ ok none | some b ↦ j.read_ring b ]

  -- is_registered
  pub is_registered : Moment → String → HttpAgentRegistry → Result String Bool × HttpAgentRegistry
  unfolding get_attestation
  is_registered t did r =
      let (found, r') = get_attestation t did r in ((found >>= λ a. ok (is_some a)), r')
