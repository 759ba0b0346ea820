-- ===== src/Cli.antt =====
-- crates/cli/src/main.rs: the commands that reach the servers, the state that `daemon` and `gateway`
-- start from, and `log verify`. What a command prints is a list of lines.
pub mod Escalate
pub mod Daemon
mod Tests
use mathlib.Core.Option.{get_or}
use microsoft_agt_rust.Prelude.{ℕ, String, Option, none, some, List}
use microsoft_agt_rust.Prelude.Result.{Result, ok, err, ok_or, ◌>>=◌}
use microsoft_agt_rust.Platform.{Platform}
use microsoft_agt_rust.Directory.{Directory}
use microsoft_agt_rust.Identity.KeyStore.{Vault, open_store, load_key_file}

abbrev key_found : Result String (Option (List ℕ)) → Result String (List ℕ)
key_found found = found >>= λ key. ok_or "Key not found" key

abbrev panics_or : Option (Result String (Option (List ℕ))) → Option (Result String (List ℕ))
panics_or none = none
panics_or (some found) = some (key_found found)

-- `load_key`, with AGT_KEY_PASSPHRASE if it is set; `none` where the key store panics.
pub load_key :
    Platform → Vault → Option String → String → Directory → Option (Result String (List ℕ))
load_key p v passphrase did key_dir =
    elim (open_store p v key_dir (get_or passphrase "default-passphrase")) [
      | err e ↦ some (err e)
      | ok keystore ↦ panics_or (load_key_file p v did keystore)
    ]
