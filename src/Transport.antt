-- ===== src/Transport.antt =====
-- crates/core/mesh/src/transport: the states of the WebSocket transport. A stream is the list of the
-- messages that have been sent on it; what the network does in a call is an argument of the call.
pub mod States
mod Tests
use Prim.Native.String.{◌++◌ as str_append}
use microsoft_agt_rust.Prelude.{
  ℕ, Bool, true, false, String, Option, none, some, List, [], ◌∷◌, ◌++◌, if◌then◌else◌,
}
use microsoft_agt_rust.Prelude.Result.{Result, ok, err, ◌>>=◌}
use microsoft_agt_rust.Prelude.Map.{HashMap}
use microsoft_agt_rust.Mcp.Json.{Value}

pub data TransportState : Type 0 where
  disconnected connecting connected reconnecting : TransportState

pub record TransportConfig : Type 0 where
  pub host : String
  pub port : ℕ
  pub use_tls : Bool
  pub timeout_seconds : ℕ
  pub max_retries : ℕ
  -- the bits of an `f64`
  pub retry_delay_seconds : ℕ
  pub metadata : HashMap String

pub record WebSocketTransport : Type 0 where
  pub config : TransportConfig
  pub state : TransportState
  pub stream : Option (List String)

-- WebSocketTransport::new
abbrev pub new : TransportConfig → WebSocketTransport
new config = record { config = config; state = disconnected; stream = none }

-- Transport::is_connected
abbrev pub is_connected : WebSocketTransport → Bool
is_connected t = elim t.state [
  | connected ↦ true
  | disconnected ↦ false
  | connecting ↦ false
  | reconnecting ↦ false
]

-- `connect`, with the outcome of `connect_async`.
pub connect :
    Result String (Unit {0}) → WebSocketTransport → Result String (Unit {0}) × WebSocketTransport
connect io t = elim io [
  | err e ↦ (err e, record t { state = connecting })
  | ok _ ↦ (ok tt, record t { state = connected; stream = some [] })
]

-- `disconnect`, with the outcome of closing the stream.
pub disconnect :
    Result String (Unit {0}) → WebSocketTransport → Result String (Unit {0}) × WebSocketTransport
disconnect io t = elim t.stream [
  | none ↦ (ok tt, record t { state = disconnected })
  | some _ ↦ elim io [
    | err e ↦ (err e, record t { stream = none })
    | ok _ ↦ (ok tt, record t { state = disconnected; stream = none })
  ]
]

-- `send`, with the outcome of the stream's `send`; `text` is the payload printed as JSON.
pub send :
    Result String (Unit {0})
    → String
    → WebSocketTransport
    → Result String (Unit {0}) × WebSocketTransport
send io text t = elim t.stream [
  | none ↦ (err "Not connected", t)
  | some sent ↦ elim io [
    | err e ↦ (err e, t)
    | ok _ ↦ (ok tt, record t { stream = some (sent ++ text ∷ []) })
  ]
]

-- What the stream yields: an error, a message of text, or one of another kind.
pub data Incoming : Type 0 where
  failure text : String → Incoming
  other : Incoming

-- The loop of `receive` over what comes in until the stream ends; `parse` reads a text as JSON.
pub receive_from : (String → Result String Value) → List Incoming → Result String Value
receive_from parse [] = err "Not connected or closed"
receive_from parse (failure e ∷ rest) = err e
receive_from parse (text s ∷ rest) = parse s
receive_from parse (other ∷ rest) = receive_from parse rest

pub receive :
    (String → Result String Value) → List Incoming → WebSocketTransport → Result String Value
unfolding receive_from
receive parse incoming t = elim t.stream [
  | none ↦ err "Not connected or closed"
  | some _ ↦ receive_from parse incoming
]

-- The calls that change the transport.
pub data Call : Type 0 where
  connects disconnects : Result String (Unit {0}) → Call
  sends : Result String (Unit {0}) → String → Call

pub step : WebSocketTransport → Call → WebSocketTransport
step t (connects io) = (connect io t).1
step t (disconnects io) = (disconnect io t).1
step t (sends io s) = (send io s t).1

pub run : WebSocketTransport → List Call → WebSocketTransport
unfolding step
run t [] = t
run t (c ∷ cs) = run (step t c) cs
