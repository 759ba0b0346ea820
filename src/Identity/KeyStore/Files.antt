-- ===== src/Identity/KeyStore/Files.antt =====
-- The encrypted store answers as the one in memory does.
use microsoft_agt_rust.Prelude.{
  ℕ, ◌==◌, ◌≡◌, false, String, none, some, List, [], ◌∷◌, length, All, arith, eq_iff, if◌then◌else◌,
}
use microsoft_agt_rust.Prelude.Result.{Result, ok}
use microsoft_agt_rust.Prelude.Map.{get-insert, get-remove}
use microsoft_agt_rust.Platform.{Platform, PlatformLaws}
use microsoft_agt_rust.Directory.{
  SaveIo, is_ok, saved, file_stem, read, IsDistinct, read-replace, read-discard,
}
use microsoft_agt_rust.Identity.KeyStore.{
  MemoryKeyStore, FileKeyStore, Vault, Draw, EncryptedKeyFile, save_key, load_key, delete_key, seal,
  unseal, save_key_file, load_key_file, delete_key_file,
}

-- Encryption does not fail on a key, decryption under the same key and nonce undoes it, and serde reads
-- back the file that it wrote.
pub record VaultLaws (v : Vault) : Type 0 where
  pub encrypts : (kek nonce plain : List ℕ) → (c : List ℕ) × (v.encrypt kek nonce plain ≡ ok c)
  pub decrypt-encrypt :
      (kek nonce plain c : List ℕ)
      → v.encrypt kek nonce plain ≡ ok c
      → v.decrypt kek nonce c ≡ ok plain
  pub from_str-to_string : (f : EncryptedKeyFile) → v.from_str (v.to_string f) ≡ ok f

-- The calls that write, with what becomes of their writes.
pub data Write : Type 0 where
  saves : SaveIo → Draw → String → List ℕ → Write
  deletes : Result String (Unit {0}) → String → Write

abbrev pub subject : Write → String
subject (saves io draw did key) = did
subject (deletes io did) = did

-- Keys have 32 bytes and nonces 24.
abbrev pub IsSized : Write → Type 0
IsSized (saves io draw did key) = (length key ≡ 32) × (length draw.nonce_bytes ≡ 24)
IsSized (deletes io did) = Unit {0}

module _ (p : Platform) (v : Vault) where
  pub write_file : FileKeyStore → Write → FileKeyStore
  write_file s (saves io draw did key) = (save_key_file p v io draw did key s).1
  write_file s (deletes io did) = (delete_key_file p v io did s).1

  pub all_files : FileKeyStore → List Write → FileKeyStore
  unfolding write_file
  all_files s [] = s
  all_files s (w ∷ ws) = all_files (write_file s w) ws

-- The same call on the store in memory, if all its writes go through.
pub write_memory : MemoryKeyStore → Write → MemoryKeyStore
write_memory s (saves io draw did key) = if saved io then save_key did key s else s
write_memory s (deletes io did) = if is_ok io then delete_key did s else s

pub all_keys : MemoryKeyStore → List Write → MemoryKeyStore
unfolding write_memory
all_keys s [] = s
all_keys s (w ∷ ws) = all_keys (write_memory s w) ws

module _ (p : Platform) (laws : PlatformLaws p) (v : Vault) (sound : VaultLaws v) where
  -- What is sealed is unsealed under the same key.
  unseal-seal :
      (draw : Draw) (kek key : List ℕ)
      → length key ≡ 32
      → length draw.nonce_bytes ≡ 24
      → (text : String) × (seal p v draw kek key ≡ ok text) × (unseal p v kek text ≡ some (ok key))
  unfolding seal unseal
  unseal-seal draw kek key l n =
      let (c, e) = sound.encrypts kek draw.nonce_bytes key in
      let file : EncryptedKeyFile = record {
        salt = p.encode draw.salt_bytes;
        nonce = p.encode draw.nonce_bytes;
        ciphertext = p.encode c;
      } in
      (
        v.to_string file,
        ground (arith, e),
        ground (
          arith,
          l,
          n,
          sound.from_str-to_string file,
          laws.decode-encode draw.nonce_bytes,
          laws.decode-encode c,
          sound.decrypt-encrypt kek draw.nonce_bytes key c e,
        ),
      )

  module _ (did : String) where
    write-agrees :
        (w : Write) (f : FileKeyStore) (m : MemoryKeyStore)
        → IsSized w
        → IsDistinct p did (subject w)
        → load_key_file p v did f ≡ some (ok (load_key did m))
        → load_key_file p v did (write_file p v f w) ≡ some (ok (load_key did (write_memory m w)))
    unfolding write_file write_memory load_key_file load_key save_key_file save_key delete_key_file
        delete_key
    write-agrees (saves io draw other key) f m z d h =
        let (text, e, u) = unseal-seal draw f.kek key z.0 z.1 in
        ground (
          arith,
          h,
          d,
          e,
          u,
          eq_iff other did,
          eq_iff (file_stem p other) (file_stem p did),
          read-replace io (file_stem p other) text (file_stem p did) f.base_dir,
          get-insert m.keys other key did,
        )
    write-agrees (deletes io other) f m z d h = ground (
      arith,
      h,
      d,
      eq_iff other did,
      eq_iff (file_stem p other) (file_stem p did),
      read-discard io (file_stem p other) (file_stem p did) f.base_dir,
      get-remove m.keys other did,
    )

    -- After any saves and deletions of two key stores that answer alike for a DID, some of whose writes
    -- may fail on the way, the store in encrypted files answers for that DID as the one in memory does
    -- that has had the calls whose writes went through, if no other DID of the calls has the same hash
    -- and the keys and nonces have their sizes; in particular it neither fails nor panics.
    pub all_files-all_keys :
        (ws : List Write) (f : FileKeyStore) (m : MemoryKeyStore)
        → All IsSized ws
        → All (λ w. IsDistinct p did (subject w)) ws
        → load_key_file p v did f ≡ some (ok (load_key did m))
        → load_key_file p v did (all_files p v f ws) ≡ some (ok (load_key did (all_keys m ws)))
    unfolding all_files all_keys
    all_files-all_keys [] f m z d h = h
    all_files-all_keys (w ∷ ws) f m z d h =
        all_files-all_keys ws (write_file p v f w) (write_memory m w) z.1 d.1
          (write-agrees w f m z.0 d.0 h)

-- A file whose nonce has not 24 bytes makes `load_key` panic, whatever else it holds, as long as its
-- parts are base64.
pub load_key_panics :
    (p : Platform) (v : Vault) (did text : String) (file : EncryptedKeyFile) (nonce c : List ℕ)
    (s : FileKeyStore)
    → read (file_stem p did) s.base_dir ≡ some text
    → v.from_str text ≡ ok file
    → p.decode file.nonce ≡ ok nonce
    → p.decode file.ciphertext ≡ ok c
    → (length nonce == 24) ≡ false
    → load_key_file p v did s ≡ none
unfolding load_key_file unseal
load_key_panics p v did text file nonce c s r f n d l = ground (arith, r, f, n, d, l)
