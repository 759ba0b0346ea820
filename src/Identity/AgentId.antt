-- ===== src/Identity/AgentId.antt =====
-- `AgentDID` and `AgentIdentity` of crates/core/mesh/src/identity/agent_id.rs, and the key rotation
-- of rotation.rs. The random bytes that make a key are an argument.
pub mod Dids
pub mod Signatures
use Prim.Native.String.{◌++◌}
use mathlib.Core.Option.{get_or}
use microsoft_agt_rust.Prelude.{
  ℕ, zero, suc, ◌==◌, Bool, true, false, String, Option, none, some, List, [], ◌∷◌, length,
  if◌then◌else◌,
}
use microsoft_agt_rust.Prelude.Result.{Result, ok, err}
use microsoft_agt_rust.Prelude.Text.{utf8, take_chars}
use microsoft_agt_rust.Platform.{Platform}

pub record AgentDid : Type 0 where
  pub method : String
  pub unique_id : String

-- Display
abbrev pub display : AgentDid → String
display did = "did:" ++ did.method ++ ":" ++ did.unique_id

pub record AgentIdentity : Type 0 where
  pub did : AgentDid
  pub name : String
  pub public_key : String
  pub sponsor_email : String
  pub capabilities : List String
  pub status : String
  pub parent_did : Option String
  pub delegation_depth : ℕ
  pub private_key : Option (List ℕ)

-- The seed that `AgentDID::new` hashes.
abbrev pub seed : String → Option String → String
seed name org = name ++ ":" ++ get_or org "default"

-- `<&[u8; 32]>::try_from(bytes).unwrap_or(&[0u8; 32])`
pub zeros : ℕ → List ℕ
zeros zero = []
zeros (suc n) = 0 ∷ zeros n

abbrev pub key_bytes : List ℕ → List ℕ
key_bytes b = if length b == 32 then b else zeros 32

module _ (p : Platform) where
  -- AgentDID::new
  unfoldable pub new : String → Option String → AgentDid
  new name org = record {
    method = "mesh";
    unique_id = take_chars 32 (p.sha256_hex (utf8 (seed name org)));
  }

  -- `AgentIdentity::create`, with the outcome of the key store's `save_key` where one is given.
  unfoldable pub create :
      List ℕ
      → String
      → String
      → List String
      → Option String
      → Option (String → List ℕ → Result String (Unit {0}))
      → Result String AgentIdentity
  unfolding new
  create bytes name sponsor capabilities organization keystore =
      let did = new name organization in
      let made : Result String AgentIdentity = ok (record {
        did = did;
        name = name;
        public_key = p.encode (p.public_key bytes);
        sponsor_email = sponsor;
        capabilities = capabilities;
        status = "active";
        parent_did = none;
        delegation_depth = 0;
        private_key = some bytes;
      }) in
      elim keystore [
        | none ↦ made
        | some save ↦ elim (save (display did) bytes) [ ok _ ↦ made | err e ↦ err e ]
      ]

  -- AgentIdentity::sign
  unfoldable pub sign : AgentIdentity → List ℕ → Option (List ℕ)
  sign id message = elim id.private_key [ none ↦ none | some k ↦ some (p.sign k message) ]

  check_point : List ℕ → List ℕ → List ℕ → Bool
  check_point k message signature = elim (p.point k) [
    | err _ ↦ false
    | ok _ ↦ if length signature == 64 then p.verify k message signature else false
  ]

  -- `AgentIdentity::verify_signature`, of which only the public key matters.
  unfoldable pub verify_key : String → List ℕ → List ℕ → Bool
  unfolding check_point
  verify_key public_key message signature = elim (p.decode public_key) [
    | err _ ↦ false
    | ok b ↦ check_point (key_bytes b) message signature
  ]

  abbrev pub verify_signature : AgentIdentity → List ℕ → List ℕ → Bool
  verify_signature id message signature = verify_key id.public_key message signature

  -- KeyRotationManager::rotate_keys
  unfoldable pub rotate_keys : List ℕ → AgentIdentity → AgentIdentity
  rotate_keys bytes id = record id {
    public_key = p.encode (p.public_key bytes);
    private_key = some bytes;
  }
