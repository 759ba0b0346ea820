-- ===== src/Cli/Daemon/Placeholder.antt =====
-- A server that is started without its registry's public key.
use microsoft_agt_rust.Prelude.{ℕ, ◌≡◌, ◌≢◌, String, none, List, arith, Bool}
use microsoft_agt_rust.Prelude.Result.{ok, err}
use microsoft_agt_rust.Platform.{Platform}
use microsoft_agt_rust.Compliance.Log.{Disk}
use microsoft_agt_rust.Grpc.Call.{Call, authenticate}
use microsoft_agt_rust.Grpc.Call.Authentic.{authenticate_iff}
use microsoft_agt_rust.Cli.Daemon.{Env, daemon}

-- Without AGT_REGISTRY_PUBKEY in the environment, a daemon takes no call to be authentic, whatever its
-- registry answers, where base64 does not decode the hyphens of the placeholder.
pub authenticate-daemon :
    (p : Platform) (env : Env) (bytes : List ℕ) (log : Disk) (audit siem : Bool) (e : String)
    → env.registry_pubkey ≡ none
    → p.decode "placeholder-replace-me" ≡ err e
    → (call : Call) (body : List ℕ) (did : String)
    → authenticate p (daemon env bytes log audit siem).registry_pubkey call body ≢ ok did
unfolding daemon
authenticate-daemon p env bytes log audit siem e unset hyphens call body did h =
    let g =
      (authenticate_iff p (daemon env bytes log audit siem).registry_pubkey call body did).0 h in
    let decodes = g.authentic.genuine.key_decodes in ground (arith, unset, hyphens, decodes)
