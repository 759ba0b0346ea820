-- ===== src/Identity/Registry.antt =====
-- crates/core/mesh/src/identity/registry.rs: the trait `AgentRegistry`, the registry in memory, and
-- the one that keeps a file beside it. Locks are never poisoned, since no holder panics.
pub mod Memory
pub mod File
use microsoft_agt_rust.Prelude.{
  ℕ, ◌+◌, ◌≡◌, Bool, true, false, String, Option, none, some, List, [], ◌∷◌, ◌++◌, if◌then◌else◌,
}
use microsoft_agt_rust.Prelude.Result.{Result, ok, err, ◌>>=◌}
use microsoft_agt_rust.Prelude.Map
use microsoft_agt_rust.Prelude.Map.{HashMap}
use microsoft_agt_rust.Platform.{Platform}
use microsoft_agt_rust.Identity.Ring.{PrivilegeRing}
use microsoft_agt_rust.Identity.AgentId
use microsoft_agt_rust.Identity.AgentId.{AgentIdentity}
use microsoft_agt_rust.Identity.Attestation.{AttestationClaim, SignedAttestation, attest}

-- The lookups of the trait, as a handler sees them: each is called at most once in a handler, so
-- what other requests write between two calls is covered by the choice of the two functions.
pub record AgentRegistry : Type 0 where
  pub get_attestation : String → Result String (Option SignedAttestation)
  pub get_ring : String → Result String (Option PrivilegeRing)

pub record MemoryAgentRegistry : Type 0 where
  pub entries : HashMap (String × PrivilegeRing)
  pub registry_identity : List ℕ
  pub registry_did : String

-- Duration::hours(24)
abbrev pub day : ℕ
day = 86400000000000

-- MemoryAgentRegistry::new
abbrev pub new : List ℕ → String → MemoryAgentRegistry
new registry_identity registry_did = record {
  entries = [];
  registry_identity = registry_identity;
  registry_did = registry_did;
}

-- register, which never fails
pub register : AgentIdentity → PrivilegeRing → MemoryAgentRegistry → MemoryAgentRegistry
register id ring m = record m {
  entries = Map.insert m.entries (AgentId.display id.did) (id.public_key, ring);
}

-- The attestation that the registry gives for one entry, `Utc::now()` being called twice.
pub issue : Platform → ℕ → ℕ → MemoryAgentRegistry → String → String → SignedAttestation
issue p now later m did pubkey = attest p m.registry_identity m.registry_did (record {
  subject_did = did;
  public_key_b64 = pubkey;
  issued_at = now;
  expires_at = later + day;
})

pub get_attestation :
    Platform → ℕ → ℕ → MemoryAgentRegistry → String → Result String (Option SignedAttestation)
unfolding issue
get_attestation p now later m did = elim (Map.get m.entries did) [
  | none ↦ ok none
  | some (pubkey, _) ↦ ok (some (issue p now later m did pubkey))
]

pub get_ring : MemoryAgentRegistry → String → Result String (Option PrivilegeRing)
get_ring m did = elim (Map.get m.entries did) [ none ↦ ok none | some (_, ring) ↦ ok (some ring) ]

pub is_registered : MemoryAgentRegistry → String → Result String Bool
is_registered m did = ok (Map.contains_key m.entries did)

-- The registry in memory behind the trait.
unfoldable pub as_trait : Platform → ℕ → ℕ → MemoryAgentRegistry → AgentRegistry
as_trait p now later m = record {
  get_attestation = get_attestation p now later m;
  get_ring = get_ring m;
}

pub record RegistryRecord : Type 0 where
  pub identity : AgentIdentity
  pub ring : PrivilegeRing

-- serde's JSON of a record, on one line, and how it reads a line.
pub record RecordJson : Type 0 where
  pub to_string : RegistryRecord → String
  pub from_str : String → Result String RegistryRecord
  pub is_blank : String → Bool

-- The lines of the file, and the registry in memory.
pub record FileAgentRegistry : Type 0 where
  pub path : List String
  pub memory : MemoryAgentRegistry

-- The loop of `FileAgentRegistry::open` over the lines of the file.
unfoldable pub populate :
    RecordJson → List String → MemoryAgentRegistry → Result String MemoryAgentRegistry
unfolding register
populate j [] m = ok m
populate j (line ∷ lines) m = elim (j.is_blank line) [
  | true ↦ populate j lines m
  | false ↦ elim (j.from_str line) [
    | err e ↦ err e
    | ok r ↦ populate j lines (register r.identity r.ring m)
  ]
]

-- FileAgentRegistry::open, on a file that can be read; a file that is not there has no lines.
unfoldable pub open_ : RecordJson → List String → List ℕ → String → Result String FileAgentRegistry
unfolding populate
open_ j lines registry_identity registry_did = do
  memory ← populate j lines (new registry_identity registry_did)
  ok (record { path = lines; memory = memory })

-- `FileAgentRegistry::register`; `io` is the outcome of appending the line to the file.
pub register_file :
    RecordJson
    → Result String (Unit {0})
    → AgentIdentity
    → PrivilegeRing
    → FileAgentRegistry
    → Result String (Unit {0}) × FileAgentRegistry
register_file j io id ring f =
    let memory = register id ring f.memory in
    let line = j.to_string (record { identity = id; ring = ring }) in
    elim io [
      | err e ↦ (err e, record f { memory = memory })
      | ok _ ↦ (ok tt, record { path = f.path ++ line ∷ []; memory = memory })
    ]
