-- ===== src/Identity/Registry/File.antt =====
-- The file beside the registry: what is in memory after a restart.
use microsoft_agt_rust.Prelude.{
  ◌≡◌, refl, false, String, none, List, [], ◌∷◌, ◌++◌, arith, Bool-cases, inl, inr,
}
use microsoft_agt_rust.Prelude.Result.{ok, err, Result-cases, ◌>>=◌}
use microsoft_agt_rust.Identity.Ring.{PrivilegeRing}
use microsoft_agt_rust.Identity.AgentId.{AgentIdentity}
use microsoft_agt_rust.Identity.Registry.{
  MemoryAgentRegistry, FileAgentRegistry, RegistryRecord, RecordJson, new, register, populate,
  open_, register_file,
}

-- serde skips the private key; everything else is read back, and no line that it writes is blank.
pub record RecordJsonLaws (j : RecordJson) : Type 0 where
  pub from_str-to_string :
      (id : AgentIdentity) (ring : PrivilegeRing)
      → j.from_str (j.to_string (record { identity = id; ring = ring }))
        ≡ ok (record { identity = record id { private_key = none }; ring = ring })
  pub not_blank : (r : RegistryRecord) → j.is_blank (j.to_string r) ≡ false

populate-append :
    (j : RecordJson) (xs ys : List String) (m : MemoryAgentRegistry)
    → populate j (xs ++ ys) m ≡ (populate j xs m >>= populate j ys)
unfolding populate
populate-append j [] ys m = refl
populate-append j (x ∷ xs) ys m = elim (Bool-cases (j.is_blank x)) [
  | inl b ↦ ground (arith, b, populate-append j xs ys m)
  | inr b ↦ elim (Result-cases (j.from_str x)) [
    | inl (r, e) ↦ ground (arith, b, e, populate-append j xs ys (register r.identity r.ring m))
    | inr (_, e) ↦ ground (arith, b, e)
  ]
]

-- What is in memory is what a restart would read from the file.
abbrev pub IsPersisted : RecordJson → FileAgentRegistry → Type 0
IsPersisted j f = open_ j f.path f.memory.registry_identity f.memory.registry_did ≡ ok f

-- Registrations that reach the file, one after the other.
pub register_all :
    RecordJson → List (AgentIdentity × PrivilegeRing) → FileAgentRegistry → FileAgentRegistry
register_all j [] f = f
register_all j ((id, ring) ∷ rest) f = register_all j rest (register_file j (ok tt) id ring f).1

module _ (j : RecordJson) (laws : RecordJsonLaws j) where
  populated :
      (f : FileAgentRegistry)
      → IsPersisted j f
      → populate j f.path (new f.memory.registry_identity f.memory.registry_did) ≡ ok f.memory
  unfolding open_
  populated f h =
      elim (Result-cases
        (populate j f.path (new f.memory.registry_identity f.memory.registry_did))) [
          | inl (m, e) ↦ ground (arith, e)
          | inr (_, e) ↦ ground (arith, e)
        ]

  register_file-IsPersisted :
      (id : AgentIdentity) (ring : PrivilegeRing) (f : FileAgentRegistry)
      → IsPersisted j f
      → IsPersisted j (register_file j (ok tt) id ring f).1
  unfolding register_file open_ register populate
  register_file-IsPersisted id ring f h =
      rw (populate-append, populated f h)
        (ground (
          arith,
          laws.from_str-to_string id ring,
          laws.not_blank (record { identity = id; ring = ring }),
        ))

  -- If every registration reaches the file, a registry that a restart would reproduce is one
  -- afterwards too: opening its file gives the same entries, for any sequence of registrations.
  pub register_all-IsPersisted :
      (rs : List (AgentIdentity × PrivilegeRing)) (f : FileAgentRegistry)
      → IsPersisted j f
      → IsPersisted j (register_all j rs f)
  unfolding register_all
  register_all-IsPersisted [] f h = h
  register_all-IsPersisted ((id, ring) ∷ rest) f h =
      register_all-IsPersisted rest _ (register_file-IsPersisted id ring f h)

-- If the append to the file fails, `register` reports the error, but the registry in memory has the
-- agent already, while a restart reads the registry that was there before.
pub register_file_unpersisted :
    (j : RecordJson) (e : String) (id : AgentIdentity) (ring : PrivilegeRing)
    (f : FileAgentRegistry)
    → IsPersisted j f
    → let (result, f') = register_file j (err e) id ring f in
      (result ≡ err e)
      × (f'.memory ≡ register id ring f.memory)
      × (open_ j f'.path f.memory.registry_identity f.memory.registry_did ≡ ok f)
unfolding register_file
register_file_unpersisted j e id ring f h = (refl, refl, h)
