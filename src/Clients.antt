-- ===== src/Clients.antt =====
-- The HTTP clients: crates/core/mesh/src/identity/registry_http.rs, keystore_http.rs beside it, and
-- `HttpPolicyStore` of crates/ext/mcp-governance/src/store.rs; and its `NetworkPolicyStore`, the gRPC
-- client. What reqwest and the server behind it
-- do with one request is a parameter of each call.
pub mod Registry
pub mod Keys
pub mod Policies
pub mod Remote
use Prim.Native.String.{◌++◌}
use microsoft_agt_rust.Prelude.{
  ℕ, ◌==◌, Bool, ◌&&◌, leb, ltb, String, Option, none, some, List, [], if◌then◌else◌,
}
use microsoft_agt_rust.Prelude.Result.{Result, ok, err, ◌>>=◌}
use microsoft_agt_rust.Platform.{Platform}

pub data Method : Type 0 where
  http_get http_post : Method

-- A request with the two headers that every client sets.
pub record Request : Type 0 where
  pub method : Method
  pub url : String
  pub signature : String
  pub agent_did : String
  pub body : List ℕ

pub record Response : Type 0 where
  pub status : ℕ
  pub body : List ℕ

-- What `send` makes of a request, and how a status is displayed.
pub record Network : Type 0 where
  pub send : Request → Result String Response
  pub show_status : ℕ → String

-- What the clients keep: the fields that they share.
pub record Client : Type 0 where
  pub base_url : String
  pub registry_pubkey : String
  pub agent_did : String
  pub signing_key : List ℕ

abbrev pub is_success : ℕ → Bool
is_success status = leb 200 status && ltb status 300

-- The `sign_body` of each client.
unfoldable pub sign_body : Platform → Client → List ℕ → String
sign_body p c body = p.encode (p.sign c.signing_key body)

-- A signed request; `path` follows the base URL.
unfoldable pub signed : Platform → Client → Method → String → List ℕ → Request
unfolding sign_body
signed p c method path body = record {
  method = method;
  url = c.base_url ++ path;
  signature = sign_body p c body;
  agent_did = c.agent_did;
  body = body;
}

-- A GET: the body of a success, nothing for 404, and an error for every other status.
unfoldable pub fetch : Network → String → Request → Result String (Option (List ℕ))
fetch n label request = do
  response ← n.send request
  (if is_success response.status
      then ok (some response.body)
      else if response.status == 404
      then ok none
      else err (label ++ n.show_status response.status))

-- A POST, of whose answer only the status counts.
unfoldable pub post : Network → String → Request → Result String (Unit {0})
post n label request = do
  response ← n.send request
  if is_success response.status then ok tt else err (label ++ n.show_status response.status)
