-- ===== src/Credentials/Revoked.antt =====
-- What `validate` accepts, and that a revocation is final.
use microsoft_agt_rust.Prelude.{
  ℕ, ◌<◌, ◌≡◌, ◌≢◌, refl, true, ◌&&◌, String, none, some, List, [], ◌∷◌, arith, str_eq, eq_iff,
  Bool-cases, Option-cases, inl, inr, str_eq_self,
}
use microsoft_agt_rust.Prelude.Map
use microsoft_agt_rust.Prelude.Map.{HashMap, get-insert}
use microsoft_agt_rust.Prelude.Text.{utf8}
use microsoft_agt_rust.Platform.{Platform}
use microsoft_agt_rust.Credentials.{
  Credential, CredentialManager, CredentialStatus, active, rotated, revoked, expired, Draw,
  is_valid, verify_token, find_valid, validate, issue, issue_credential, revoke, revoke_credential,
  is_active, Ttl, new,
}

active_only : (s : CredentialStatus) → is_active s ≡ true → s ≡ active
active_only active h = refl
active_only rotated h = cc
active_only revoked h = cc
active_only expired h = cc

-- Every credential of the table stands under its own id, which no later entry has too.
abbrev pub IsKeyed : HashMap Credential → Type 0
IsKeyed [] = Unit {0}
IsKeyed ((id, c) ∷ rest) = (c.credential_id ≡ id) × (Map.get rest id ≡ none) × IsKeyed rest

module _ (p : Platform) (now : ℕ) (token : String) where
  -- What an accepted credential has.
  abbrev pub IsAccepted : HashMap Credential → Credential → Type 0
  IsAccepted m c =
      (Map.get m c.credential_id ≡ some c)
      × (c.status ≡ active)
      × (now < c.expires_at)
      × (c.token_hash ≡ p.sha256_hex (utf8 token))

  accepts :
      (c : Credential)
      → (verify_token p token c && is_valid now c) ≡ true
      → (c.status ≡ active) × (now < c.expires_at) × (c.token_hash ≡ p.sha256_hex (utf8 token))
  unfolding verify_token is_valid
  accepts c h = (
    active_only c.status (ground (arith, h)),
    ground (arith, h),
    ground (arith, h, eq_iff c.token_hash (p.sha256_hex (utf8 token))),
  )

  find_valid_sound :
      (m : HashMap Credential) (c : Credential)
      → IsKeyed m
      → find_valid p now token m ≡ some c
      → IsAccepted m c
  unfolding find_valid Map.get
  find_valid_sound [] c k h = cc
  find_valid_sound ((id, d) ∷ rest) c k h =
      elim (Bool-cases (verify_token p token d && is_valid now d)) [
        | inl b ↦ ground (arith, b, h, k, accepts d b, eq_iff id d.credential_id)
        | inr b ↦ ground (arith, b, h, k, find_valid_sound rest c k.2, eq_iff id c.credential_id)
      ]

IsKeyed-insert :
    (m : HashMap Credential) (id : String) (c : Credential)
    → IsKeyed m
    → c.credential_id ≡ id
    → IsKeyed (Map.insert m id c)
unfolding Map.insert Map.get
IsKeyed-insert [] id c k e = (e, refl, tt)
IsKeyed-insert ((j, d) ∷ rest) id c k e = elim (Bool-cases (str_eq j id)) [
  | inl b ↦ ground (arith, b, eq_iff j id, k, e)
  | inr b ↦ ground (
    arith,
    b,
    eq_iff j id,
    eq_iff id j,
    k,
    get-insert rest id c j,
    IsKeyed-insert rest id c k.2 e,
  )
]

get-keyed :
    (m : HashMap Credential) (id : String) (c : Credential)
    → IsKeyed m
    → Map.get m id ≡ some c
    → c.credential_id ≡ id
unfolding Map.get
get-keyed [] id c k h = cc
get-keyed ((j, d) ∷ rest) id c k h = elim (Bool-cases (str_eq j id)) [
  | inl b ↦ ground (arith, b, eq_iff j id, k, h)
  | inr b ↦ ground (arith, b, get-keyed rest id c k.2, h)
]

revoke-IsKeyed :
    (id : String) (m : CredentialManager)
    → IsKeyed m.credentials
    → IsKeyed (revoke id m).1.credentials
unfolding revoke revoke_credential
revoke-IsKeyed id m k = elim (Option-cases (Map.get m.credentials id)) [
  | inl e ↦ ground (arith, e, k)
  | inr (c, e) ↦ ground (
    arith,
    e,
    IsKeyed-insert m.credentials id (record c { status = revoked }) k
        (get-keyed m.credentials id c k e),
  )
]

-- The calls that change the manager.
pub data Call : Type 0 where
  issues : Draw → String → List String → List String → Call
  revokes : String → Call

unfoldable pub step : Platform → CredentialManager → Call → CredentialManager
step p m (issues d agent_did capabilities resources) =
    (issue p d agent_did capabilities resources m).1
step p m (revokes id) = (revoke id m).1

unfoldable pub run : Platform → CredentialManager → List Call → CredentialManager
unfolding step
run p m [] = m
run p m (c ∷ cs) = run p (step p m c) cs

run-IsKeyed :
    (p : Platform) (cs : List Call) (m : CredentialManager)
    → IsKeyed m.credentials
    → IsKeyed (run p m cs).credentials
unfolding run step issue issue_credential
run-IsKeyed p [] m k = k
run-IsKeyed p (issues d agent_did capabilities resources ∷ cs) m k =
    run-IsKeyed p cs _ (IsKeyed-insert m.credentials _ _ k refl)
run-IsKeyed p (revokes id ∷ cs) m k = run-IsKeyed p cs _ (revoke-IsKeyed id m k)

revoked_there :
    (id : String) (m : CredentialManager) (c : Credential)
    → Map.get (revoke id m).1.credentials id ≡ some c
    → c.status ≡ revoked
unfolding revoke revoke_credential
revoked_there id m c h = elim (Option-cases (Map.get m.credentials id)) [
  | inl e ↦ absurd (ground (arith, e, h))
  | inr (d, e) ↦
      ground (
        arith,
        e,
        h,
        get-insert m.credentials id (record d { status = revoked }) id,
        str_eq_self id,
      )
]

-- After any issues and revocations of a new manager and a last revocation of one id, a credential that
-- `validate` returns is not the one of that id; it stands in the manager under its own id, is active,
-- has not expired, and holds the hash of the token presented.
pub run-new-validate :
    (p : Platform) (ttl : Ttl) (cs : List Call) (id : String) (now : ℕ) (token : String)
    (c : Credential)
    → validate p now token (revoke id (run p (new ttl) cs)).1 ≡ some c
    → (c.credential_id ≢ id)
      × IsAccepted p now token (revoke id (run p (new ttl) cs)).1.credentials c
unfolding validate
run-new-validate p ttl cs id now token c h =
    let m = run p (new ttl) cs in
    let keyed = revoke-IsKeyed id m (run-IsKeyed p cs (new ttl) tt) in
    let accepted = find_valid_sound p now token (revoke id m).1.credentials c keyed h in
    (
      λ same.
          let gone : c.status ≡ revoked = revoked_there id m c (cc (same, accepted.0)) in
          cc (gone, accepted.1),
      accepted,
    )
