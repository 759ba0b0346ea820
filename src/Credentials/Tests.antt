-- ===== src/Credentials/Tests.antt =====
-- The theorem on credentials at two tokens, one of them revoked.
use microsoft_agt_rust.Prelude.{◌≡◌, ◌≢◌, refl, some, List, [], ◌∷◌}
use microsoft_agt_rust.Prelude.Map
use microsoft_agt_rust.Prelude.Text.{utf8}
use microsoft_agt_rust.Platform.Toy.{toy, toy_encode}
use microsoft_agt_rust.Credentials.{
  Credential, active, ahead, new, validate, find_valid, verify_token, is_valid, issue,
  issue_credential, revoke, revoke_credential,
}
use microsoft_agt_rust.Credentials.Revoked.{Call, issues, step, run, run-new-validate}

abbrev calls : List Call
calls =
    issues (record { token = "t1"; uuid = "1"; now = 5 }) "did:mesh:a1" [] []
    ∷ issues (record { token = "t2"; uuid = "2"; now = 6 }) "did:mesh:b2" [] []
    ∷ []

abbrev second : Credential
second = record {
  credential_id = "cred_2";
  agent_did = "did:mesh:b2";
  token_hash = toy.sha256_hex (utf8 "t2");
  capabilities = [];
  resources = [];
  expires_at = 60000000006;
  status = active;
}

still_valid : validate toy 7 "t2" (revoke "cred_1" (run toy (new (ahead 60)) calls)).1 ≡ some second
unfolding validate find_valid verify_token is_valid run step issue issue_credential revoke
    revoke_credential Map.get Map.insert utf8 toy_encode
still_valid = refl

run-new-validate_example : second.credential_id ≢ "cred_1"
run-new-validate_example =
    (run-new-validate toy (ahead 60) calls "cred_1" 7 "t2" second still_valid).0
