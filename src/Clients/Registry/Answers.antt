-- ===== src/Clients/Registry/Answers.antt =====
-- Which attestations the HTTP registry gives out.
use Prim.Native.String.{◌++◌}
use microsoft_agt_rust.Prelude.{
  ℕ, ◌≤◌, ◌≡◌, refl, true, subst, ◌∙◌, str_eq, String, Option, none, some, List, [], ◌∷◌, arith,
  inl, inr, Option-cases, Bool-cases,
}
use microsoft_agt_rust.Prelude.Result.{Result, ok, err, Result-cases}
use microsoft_agt_rust.Prelude.Map
use microsoft_agt_rust.Platform.{Platform}
use microsoft_agt_rust.Identity.Attestation.{SignedAttestation, verify}
use microsoft_agt_rust.Identity.Attestation.Verify.{IsGenuine, verify_iff}
use microsoft_agt_rust.Clients.{Network, Client, fetch, signed, http_get}
use microsoft_agt_rust.Clients.Registry.{
  HttpAgentRegistry, RegistryJson, Moment, new, is_cache_fresh, admit, fetch_attestation,
  get_attestation,
}

-- One lookup: by `get_attestation`, with the clock and what the network does then.
pub record Lookup : Type 0 where
  pub moment : Moment
  pub network : Network
  pub did : String

module _ (p : Platform) (j : RegistryJson) where
  -- The registry after a series of lookups. `is_registered` leaves the same registry as the lookup.
  unfoldable pub run : List Lookup → HttpAgentRegistry → HttpAgentRegistry
  run [] r = r
  run (l ∷ ls) r = run ls (get_attestation p l.network j l.moment l.did r).1

  module _ (t : Moment) (did : String) (r : HttpAgentRegistry) where
    -- The ways in which a lookup ends.
    data Outcome : Result String (Option SignedAttestation) × HttpAgentRegistry → Type 0 where
      hit :
          (a : SignedAttestation)
          → Map.get r.cache did ≡ some a
          → is_cache_fresh t a ≡ true
          → Outcome (ok (some a), r)
      fetched :
          (a : SignedAttestation)
          → IsGenuine p t.verified_at a r.client.registry_pubkey
          → Outcome (ok (some a), record r { cache = Map.insert r.cache did a })
      absent : Outcome (ok none, r)
      failed : (e : String) → Outcome (err e, r)

    admit-Outcome : (n : Network) (body : List ℕ) → Outcome (admit p n j t.verified_at did body r)
    unfolding admit
    admit-Outcome n body = elim (Result-cases (j.read_attestation body)) [
      | inr (e, h) ↦ rw (admit, h) (failed e)
      | inl (none, h) ↦ rw (admit, h) absent
      | inl (some a, h) ↦ elim (Result-cases (verify p t.verified_at a r.client.registry_pubkey)) [
        | inr (e, bad) ↦ rw (admit, h, bad) (failed _)
        | inl (_, good) ↦
            rw (admit, h, good)
              (fetched a ((verify_iff p t.verified_at a r.client.registry_pubkey).0 good))
      ]
    ]

    fetch_attestation-Outcome : (n : Network) → Outcome (fetch_attestation p n j t did r)
    unfolding fetch_attestation
    fetch_attestation-Outcome n =
        elim (Result-cases (
          fetch n "Registry error: "
            (signed p r.client http_get ("/v1/agents/" ++ did ++ "/attestation") []))) [
              | inr (e, h) ↦ rw (fetch_attestation, h) (failed e)
              | inl (none, h) ↦ rw (fetch_attestation, h) absent
              | inl (some body, h) ↦ rw (fetch_attestation, h) (admit-Outcome n body)
            ]

    get_attestation-Outcome : (n : Network) → Outcome (get_attestation p n j t did r)
    unfolding get_attestation
    get_attestation-Outcome n = elim (Option-cases (Map.get r.cache did)) [
      | inl h ↦ rw (get_attestation, h) (fetch_attestation-Outcome n)
      | inr (a, h) ↦ elim (Bool-cases (is_cache_fresh t a)) [
        | inl fresh ↦ rw (get_attestation, h, fresh) (hit a h fresh)
        | inr stale ↦ rw (get_attestation, h, stale) (fetch_attestation-Outcome n)
      ]
    ]

  -- Every attestation that is kept was genuine at some time.
  pub record IsKept (pubkey : String) (a : SignedAttestation) : Type 0 where
    pub seen_at : ℕ
    pub genuine : IsGenuine p seen_at a pubkey

  abbrev pub IsSound : HttpAgentRegistry → Type 0
  IsSound r =
      (did : String) (a : SignedAttestation)
      → Map.get r.cache did ≡ some a
      → IsKept r.client.registry_pubkey a

  at_time :
      (now seen_at : ℕ) (a : SignedAttestation) (pubkey : String)
      → now ≤ a.claim.expires_at
      → IsGenuine p seen_at a pubkey
      → IsGenuine p now a pubkey
  at_time now seen_at a pubkey fresh g = record {
    key = g.key;
    signature = g.signature;
    in_time = fresh;
    key_decodes = g.key_decodes;
    key_length = g.key_length;
    key_point = g.key_point;
    signature_decodes = g.signature_decodes;
    signature_length = g.signature_length;
    verifies = g.verifies;
  }

  is_cache_fresh-le :
      (t : Moment) (a : SignedAttestation)
      → is_cache_fresh t a ≡ true
      → t.checked_at ≤ a.claim.expires_at
  unfolding is_cache_fresh
  is_cache_fresh-le t a h = ground (arith, h)

  module _ (t : Moment) (did : String) (r : HttpAgentRegistry) (v : IsSound r) where
    insert-IsSound :
        (now : ℕ) (a : SignedAttestation)
        → IsGenuine p now a r.client.registry_pubkey
        → IsSound (record r { cache = Map.insert r.cache did a })
    insert-IsSound now a g other b h = elim (Bool-cases (str_eq did other)) [
      | inl e ↦
          let same : a ≡ b = ground (arith, Map.get-insert r.cache did a other, e, h) in
          subst (IsKept r.client.registry_pubkey) same (record { seen_at = now; genuine = g })
      | inr e ↦ v other b (ground (arith, Map.get-insert r.cache did a other, e, h))
    ]

    Outcome-IsSound :
        (x : Result String (Option SignedAttestation) × HttpAgentRegistry)
        → Outcome t did r x
        → IsSound x.1 × (x.1.client ≡ r.client)
    Outcome-IsSound _ (hit a found fresh) = (v, refl)
    Outcome-IsSound _ (fetched a g) = (insert-IsSound t.verified_at a g, refl)
    Outcome-IsSound _ absent = (v, refl)
    Outcome-IsSound _ (failed e) = (v, refl)

    Outcome-IsGenuine :
        t.checked_at ≤ t.verified_at
        → (x : Result String (Option SignedAttestation) × HttpAgentRegistry) (a : SignedAttestation)
        → Outcome t did r x
        → x.0 ≡ ok (some a)
        → IsGenuine p t.checked_at a r.client.registry_pubkey
    Outcome-IsGenuine order _ a (hit b found fresh) h =
        let kept = v did a (cc (found, h)) in
        at_time t.checked_at kept.seen_at a _ (is_cache_fresh-le t a (cc (fresh, h))) kept.genuine
    Outcome-IsGenuine order _ a (fetched b g) h =
        let same : b ≡ a = cc h in
        let g' = subst (λ c. IsGenuine p t.verified_at c r.client.registry_pubkey) same g in
        at_time t.checked_at t.verified_at a _ (omega (arith, order, g'.in_time)) g'
    Outcome-IsGenuine order _ a absent h = absurd (ground (arith, h))
    Outcome-IsGenuine order _ a (failed e) h = absurd (ground (arith, h))

  new-IsSound : (c : Client) → IsSound (new c)
  unfolding Map.get
  new-IsSound c did a found = absurd (ground (arith, found))

  run-IsSound :
      (ls : List Lookup) (r : HttpAgentRegistry)
      → IsSound r
      → IsSound (run ls r) × ((run ls r).client ≡ r.client)
  unfolding run
  run-IsSound [] r v = (v, refl)
  run-IsSound (l ∷ ls) r v =
      let step =
        Outcome-IsSound l.moment l.did r v _ (get_attestation-Outcome l.moment l.did r l.network) in
      let rest = run-IsSound ls (get_attestation p l.network j l.moment l.did r).1 step.0 in
      (rest.0, rest.1 ∙ step.1)

  -- After any lookups on a new HTTP registry, whatever the server answered to them, and where the clock
  -- is read for the cache no later than for the verification: an attestation that `get_attestation`
  -- then returns, from its cache or from the server, has not expired at the time of the
  -- call, and the registry's public key verifies it.
  pub run-new-IsGenuine :
      (c : Client) (ls : List Lookup) (l : Lookup) (a : SignedAttestation)
      → l.moment.checked_at ≤ l.moment.verified_at
      → (get_attestation p l.network j l.moment l.did (run ls (new c))).0 ≡ ok (some a)
      → IsGenuine p l.moment.checked_at a c.registry_pubkey
  run-new-IsGenuine c ls l a order h =
      let (v, same) = run-IsSound ls (new c) (new-IsSound c) in
      let r = run ls (new c) in
      let g =
        Outcome-IsGenuine l.moment l.did r v order _ a
          (get_attestation-Outcome l.moment l.did r l.network) h in
      subst (λ x. IsGenuine p l.moment.checked_at a x.registry_pubkey) same g
