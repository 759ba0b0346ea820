-- ===== src/Credentials.antt =====
-- crates/core/mesh/src/identity/credentials.rs: bearer tokens with a time to live. The random bytes,
-- the UUID and the clock are arguments; a time to live may be negative, so it is a number of seconds
-- before or after; what chrono cannot represent is left out.
pub mod Revoked
mod Tests
use Prim.Native.String.{◌++◌ as str_append}
use microsoft_agt_rust.Prelude.{
  ℕ, ◌+◌, ◌-◌, ◌*◌, Bool, true, false, ◌&&◌, String, Option, none, some, List, [], ◌∷◌, ltb, str_eq,
  if◌then◌else◌,
}
use microsoft_agt_rust.Prelude.Map
use microsoft_agt_rust.Prelude.Map.{HashMap}
use microsoft_agt_rust.Prelude.Text.{utf8}
use microsoft_agt_rust.Platform.{Platform}

pub data CredentialStatus : Type 0 where
  active rotated revoked expired : CredentialStatus

abbrev pub is_active : CredentialStatus → Bool
is_active active = true
is_active rotated = false
is_active revoked = false
is_active expired = false

pub record Credential : Type 0 where
  pub credential_id : String
  pub agent_did : String
  pub token_hash : String
  pub capabilities : List String
  pub resources : List String
  pub expires_at : ℕ
  pub status : CredentialStatus

-- A time to live in seconds: an `i64`.
pub data Ttl : Type 0 where
  ahead behind : ℕ → Ttl

-- `now + Duration::seconds(ttl)`
abbrev pub shift : ℕ → Ttl → ℕ
shift now (ahead s) = now + s * 1000000000
shift now (behind s) = now - s * 1000000000

-- What one `issue` draws: the token (base64 of 32 random bytes), the simple form of a UUID, the time.
pub record Draw : Type 0 where
  pub token : String
  pub uuid : String
  pub now : ℕ

pub record CredentialManager : Type 0 where
  pub default_ttl : Ttl
  pub credentials : HashMap Credential

-- CredentialManager::new
abbrev pub new : Ttl → CredentialManager
new ttl = record { default_ttl = ttl; credentials = [] }

-- Credential::is_valid
pub is_valid : ℕ → Credential → Bool
is_valid now c = is_active c.status && ltb now c.expires_at

module _ (p : Platform) where
  -- Credential::issue
  pub issue_credential : Draw → String → List String → List String → Ttl → Credential × String
  issue_credential d agent_did capabilities resources ttl = (
    record {
      credential_id = str_append "cred_" d.uuid;
      agent_did = agent_did;
      token_hash = p.sha256_hex (utf8 d.token);
      capabilities = capabilities;
      resources = resources;
      expires_at = shift d.now ttl;
      status = active;
    },
    d.token,
  )

  -- Credential::verify_token
  pub verify_token : String → Credential → Bool
  verify_token token c = str_eq c.token_hash (p.sha256_hex (utf8 token))

  -- CredentialManager::issue
  pub issue :
      Draw
      → String
      → List String
      → List String
      → CredentialManager
      → (Credential × String) × CredentialManager
  unfolding issue_credential
  issue d agent_did capabilities resources m =
      let (cred, token) = issue_credential d agent_did capabilities resources m.default_ttl in
      ((cred, token), record m { credentials = Map.insert m.credentials cred.credential_id cred })

  -- The loop of `validate` over the credentials in the map's order; each test reads the clock.
  pub find_valid : ℕ → String → HashMap Credential → Option Credential
  unfolding verify_token is_valid
  find_valid now token [] = none
  find_valid now token ((id, c) ∷ rest) =
      if verify_token token c && is_valid now c then some c else find_valid now token rest

  -- CredentialManager::validate
  pub validate : ℕ → String → CredentialManager → Option Credential
  unfolding find_valid
  validate now token m = find_valid now token m.credentials

-- Credential::revoke
pub revoke_credential : Credential → Credential
revoke_credential c = record c { status = revoked }

-- CredentialManager::revoke
pub revoke : String → CredentialManager → Bool × CredentialManager
unfolding revoke_credential
revoke credential_id m = elim (Map.get m.credentials credential_id) [
  | none ↦ (false, m)
  | some c ↦ (
    true,
    record m { credentials = Map.insert m.credentials credential_id (revoke_credential c) },
  )
]
