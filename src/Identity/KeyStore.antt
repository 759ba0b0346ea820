-- ===== src/Identity/KeyStore.antt =====
-- crates/core/mesh/src/identity/keystore.rs: signing keys in memory and in encrypted files, and
-- `AgentIdentity::create` and `load` of agent_id.rs over a key store. A signing key is its 32 bytes.
pub mod Files
pub mod Identities
mod Tests
use Prim.Native.String.{◌++◌ as str_append}
use microsoft_agt_rust.Prelude.{
  ℕ, ◌==◌, Bool, true, false, String, Option, none, some, List, [], ◌∷◌, length, if◌then◌else◌,
}
use microsoft_agt_rust.Prelude.Result.{Result, ok, err, map_err, ensure, ◌>>=◌, ◌>>◌}
use microsoft_agt_rust.Prelude.Map
use microsoft_agt_rust.Prelude.Map.{HashMap}
use microsoft_agt_rust.Platform.{Platform}
use microsoft_agt_rust.Directory.{Directory, SaveIo, file_stem, read, replace, discard, empty_dir}
use microsoft_agt_rust.Identity.AgentId
use microsoft_agt_rust.Identity.AgentId.{AgentIdentity}

-- The trait `KeyStore` over a state `S`.
pub record KeyStore (S : Type 0) : Type 0 where
  pub save_key : String → List ℕ → S → Result String (Unit {0}) × S
  pub load_key : String → S → Result String (Option (List ℕ))

pub record MemoryKeyStore : Type 0 where
  pub keys : HashMap (List ℕ)

unfoldable pub save_key : String → List ℕ → MemoryKeyStore → MemoryKeyStore
save_key agent_did key s = record { keys = Map.insert s.keys agent_did key }

unfoldable pub load_key : String → MemoryKeyStore → Option (List ℕ)
load_key agent_did s = Map.get s.keys agent_did

pub delete_key : String → MemoryKeyStore → MemoryKeyStore
delete_key agent_did s = record { keys = Map.remove s.keys agent_did }

-- The store in memory behind the trait.
unfoldable pub as_trait : KeyStore MemoryKeyStore
as_trait = record {
  save_key = λ did key s. (ok tt, save_key did key s);
  load_key = λ did s. ok (load_key did s);
}

pub record EncryptedKeyFile : Type 0 where
  pub salt : String
  pub nonce : String
  pub ciphertext : String

-- What the store takes from its dependencies: Argon2 over the passphrase with the source's stable
-- salt, XChaCha20-Poly1305 under a key and a nonce, and serde's JSON of a key file.
pub record Vault : Type 0 where
  pub derive : String → Result String (List ℕ)
  pub encrypt : List ℕ → List ℕ → List ℕ → Result String (List ℕ)
  pub decrypt : List ℕ → List ℕ → List ℕ → Result String (List ℕ)
  pub to_string : EncryptedKeyFile → String
  pub from_str : String → Result String EncryptedKeyFile

pub record FileKeyStore : Type 0 where
  pub base_dir : Directory
  pub kek : List ℕ

-- The random bytes of one save.
pub record Draw : Type 0 where
  pub salt_bytes : List ℕ
  pub nonce_bytes : List ℕ

module _ (p : Platform) (v : Vault) where
  -- `FileKeyStore::new` over a directory that is there.
  pub open_store : Directory → String → Result String FileKeyStore
  open_store dir passphrase = do
    kek ← map_err (λ e. str_append "KDF failure: " e) (v.derive passphrase)
    ok (record { base_dir = dir; kek = kek })

  -- The text of a key's file.
  pub seal : Draw → List ℕ → List ℕ → Result String String
  seal draw kek key = do
    ciphertext ←
        map_err (λ e. str_append "Encryption failure: " e) (v.encrypt kek draw.nonce_bytes key)
    ok (
        v.to_string (record {
          salt = p.encode draw.salt_bytes;
          nonce = p.encode draw.nonce_bytes;
          ciphertext = p.encode ciphertext;
        }))

  -- FileKeyStore::save_key
  pub save_key_file :
      SaveIo → Draw → String → List ℕ → FileKeyStore → Result String (Unit {0}) × FileKeyStore
  unfolding seal
  save_key_file io draw agent_did key s = elim (seal draw s.kek key) [
    | err e ↦ (err e, s)
    | ok text ↦
        let (result, dir) = replace io (file_stem p agent_did) text s.base_dir in
        (result, record s { base_dir = dir })
  ]

  -- Reading a key's file: `XNonce::from_slice` panics on a nonce that has not 24 bytes, which is `none`.
  pub unseal : List ℕ → String → Option (Result String (List ℕ))
  unseal kek text =
      let parsed : Result String (List ℕ × List ℕ) = do
        file ← v.from_str text
        nonce ← p.decode file.nonce
        ciphertext ← p.decode file.ciphertext
        ok (nonce, ciphertext)
      in elim parsed [
        | err e ↦ some (err e)
        | ok (nonce, ciphertext) ↦
            if length nonce == 24
            then some (do
              plaintext ←
                  map_err (λ e. str_append "Decryption failure: " e)
                    (v.decrypt kek nonce ciphertext)
              ensure (length plaintext == 32) "Invalid key length"
              ok plaintext)
            else none
      ]

  abbrev found : Option (Result String (List ℕ)) → Option (Result String (Option (List ℕ)))
  found none = none
  found (some (err e)) = some (err e)
  found (some (ok key)) = some (ok (some key))

  -- FileKeyStore::load_key
  pub load_key_file : String → FileKeyStore → Option (Result String (Option (List ℕ)))
  unfolding unseal
  load_key_file agent_did s = elim (read (file_stem p agent_did) s.base_dir) [
    | none ↦ some (ok none)
    | some text ↦ found (unseal s.kek text)
  ]

  -- FileKeyStore::delete_key
  pub delete_key_file :
      Result String (Unit {0}) → String → FileKeyStore → Result String (Unit {0}) × FileKeyStore
  delete_key_file io agent_did s =
      let (result, dir) = discard io (file_stem p agent_did) s.base_dir in
      (result, record s { base_dir = dir })

module _ {S : Type 0} (p : Platform) (k : KeyStore S) where
  -- `AgentIdentity::create` with a key store.
  pub create_in :
      List ℕ → String → String → List String → Option String → S → Result String AgentIdentity × S
  create_in bytes name sponsor capabilities organization s =
      let did = AgentId.display (AgentId.new p name organization) in
      let (result, s') = k.save_key did bytes s in
      (AgentId.create p bytes name sponsor capabilities organization (some (λ _ _. result)), s')

  -- `AgentIdentity::load`, with how serde reads an identity.
  pub load : (String → Result String AgentIdentity) → String → S → Result String AgentIdentity
  load from_str identity_json s = do
    identity ← from_str identity_json
    private_key ← k.load_key (AgentId.display identity.did) s
    ok (record identity { private_key = private_key })
