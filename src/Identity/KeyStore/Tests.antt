-- ===== src/Identity/KeyStore/Tests.antt =====
-- The theorems on key stores at concrete runs.
use microsoft_agt_rust.Prelude.{ℕ, ◌≡◌, refl, none, some, String, List, [], ◌∷◌, eq_iff}
use microsoft_agt_rust.Prelude.Result.{ok, err}
use microsoft_agt_rust.Prelude.Map
use microsoft_agt_rust.Prelude.Text.{utf8}
use microsoft_agt_rust.Platform.Toy.{toy, toy_laws, toy_encode}
use microsoft_agt_rust.Directory.{empty_dir, IsDistinct}
use microsoft_agt_rust.Fixtures.Wire.{write_text, read_text, read_text-write_text}
use microsoft_agt_rust.Identity.AgentId
use microsoft_agt_rust.Identity.AgentId.{AgentIdentity}
use microsoft_agt_rust.Identity.KeyStore.{
  MemoryKeyStore, FileKeyStore, Vault, Draw, EncryptedKeyFile, load_key, load_key_file, as_trait,
  create_in, load, save_key,
}
use microsoft_agt_rust.Identity.KeyStore.Files.{
  VaultLaws, Write, saves, deletes, all_files, all_keys, all_files-all_keys,
}
use microsoft_agt_rust.Identity.KeyStore.Identities.{load-create_in}

to_string : EncryptedKeyFile → String
to_string f = write_text f.salt (write_text f.nonce (write_text f.ciphertext ""))

from_str : String → EncryptedKeyFile
from_str s0 =
    let (salt, s1) = read_text s0 in
    let (nonce, s2) = read_text s1 in
    let (ciphertext, _) = read_text s2 in
    record { salt = salt; nonce = nonce; ciphertext = ciphertext }

from_str-to_string : (f : EncryptedKeyFile) → from_str (to_string f) ≡ f
unfolding from_str to_string
from_str-to_string f = simp (read_text-write_text)

-- A vault that encrypts nothing.
abbrev open_vault : Vault
open_vault = record {
  derive = λ passphrase. ok (utf8 passphrase);
  encrypt = λ kek nonce plain. ok plain;
  decrypt = λ kek nonce ciphertext. ok ciphertext;
  to_string = to_string;
  from_str = λ s. ok (from_str s);
}

open_vault_laws : VaultLaws open_vault
open_vault_laws = record {
  encrypts = λ kek nonce plain. (plain, refl);
  decrypt-encrypt = λ kek nonce plain c e. cc e;
  from_str-to_string = λ f. cc (from_str-to_string f);
}

abbrev long_key : List ℕ
long_key = toy.public_key (7 ∷ 9 ∷ [])

abbrev draw : Draw
draw = record {
  salt_bytes = [];
  nonce_bytes =
      1 ∷ 2 ∷ 3 ∷ 4 ∷ 5 ∷ 6 ∷ 7 ∷ 8 ∷ 1 ∷ 2 ∷ 3 ∷ 4 ∷ 5 ∷ 6 ∷ 7 ∷ 8 ∷ 1 ∷ 2 ∷ 3 ∷ 4 ∷ 5 ∷ 6 ∷ 7 ∷ 8
      ∷ [];
}

-- A save, one that fails at the rename, and a deletion of another agent's key.
abbrev writes : List Write
writes =
    saves (record { written = ok tt; renamed = ok tt }) draw "a" long_key
    ∷ saves (record { written = ok tt; renamed = err "busy" }) draw "a" long_key
    ∷ deletes (ok tt) "b"
    ∷ []

abbrev no_files : FileKeyStore
no_files = record { base_dir = empty_dir; kek = [] }

abbrev no_keys : MemoryKeyStore
no_keys = record { keys = [] }

distinct : IsDistinct toy "a" "b"
unfolding utf8 toy_encode
distinct h = cc ((eq_iff (toy_encode (utf8 "b")) (toy_encode (utf8 "a"))).1 h)

no_answers : load_key_file toy open_vault "a" no_files ≡ some (ok (load_key "a" no_keys))
unfolding load_key_file load_key Map.get
no_answers = refl

all_files-all_keys_example :
    load_key_file toy open_vault "a" (all_files toy open_vault no_files writes)
    ≡ some (ok (load_key "a" (all_keys no_keys writes)))
all_files-all_keys_example =
    all_files-all_keys toy toy_laws open_vault open_vault_laws "a" writes no_files no_keys
      (
        (toy_laws.length-public_key (7 ∷ 9 ∷ []), refl),
        ((toy_laws.length-public_key (7 ∷ 9 ∷ []), refl), (tt, tt)),
      )
      ((λ h. refl), ((λ h. refl), (distinct, tt))) no_answers

-- The identity that is created.
abbrev made : AgentIdentity
made = record {
  did = AgentId.new toy "web" none;
  name = "web";
  public_key = toy.encode (toy.public_key long_key);
  sponsor_email = "ops@mesh";
  capabilities = [];
  status = "active";
  parent_did = none;
  delegation_depth = 0;
  private_key = some long_key;
}

creates : (create_in toy as_trait long_key "web" "ops@mesh" [] none no_keys).0 ≡ ok made
unfolding create_in as_trait save_key AgentId.create
creates = refl

load-create_in_example :
    load toy as_trait
      (λ json. ok (record made { private_key = none }))
      "{}"
      (create_in toy as_trait long_key "web" "ops@mesh" [] none no_keys).1
    ≡ ok made
load-create_in_example =
    load-create_in toy (λ json. ok (record made { private_key = none })) "{}" "web" "ops@mesh"
      long_key [] none no_keys made creates refl
