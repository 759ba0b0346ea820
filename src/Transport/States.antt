-- ===== src/Transport/States.antt =====
-- Which states the transport can reach, and what they say about its stream.
use microsoft_agt_rust.Prelude.{
  ◌≡◌, ◌≢◌, refl, true, String, none, some, List, [], ◌∷◌, arith, Option-cases, inl, inr,
}
use microsoft_agt_rust.Prelude.Result.{Result, ok, err, Result-cases}
use microsoft_agt_rust.Transport.{
  disconnected, connected, reconnecting, TransportConfig, WebSocketTransport, new, is_connected,
  connect, disconnect, send, Call, connects, disconnects, sends, step, run,
}

-- A transport that is disconnected holds no stream, none is ever reconnecting, and the configuration
-- is the one given.
pub record IsSound (config : TransportConfig) (t : WebSocketTransport) : Type 0 where
  pub closed : t.state ≡ disconnected → t.stream ≡ none
  pub never : t.state ≢ reconnecting
  pub kept : t.config ≡ config

step-IsSound :
    (config : TransportConfig) (c : Call) (t : WebSocketTransport)
    → IsSound config t
    → IsSound config (step t c)
unfolding step connect disconnect send
step-IsSound config (connects (ok _)) t v = record {
  closed = λ h. cc h;
  never = λ h. cc h;
  kept = v.kept;
}
step-IsSound config (connects (err _)) t v = record {
  closed = λ h. cc h;
  never = λ h. cc h;
  kept = v.kept;
}
step-IsSound config (disconnects io) t v = elim (Option-cases t.stream) [
  | inl e ↦ record {
    closed = λ h. ground (arith, e);
    never = λ h. ground (arith, e, h);
    kept = ground (arith, e, v.kept);
  }
  | inr (_, e) ↦ elim (Result-cases io) [
    | inl (_, r) ↦ record {
      closed = λ h. ground (arith, e, r);
      never = λ h. ground (arith, e, r, h);
      kept = ground (arith, e, r, v.kept);
    }
    | inr (_, r) ↦ record {
      closed = λ h. ground (arith, e, r);
      never = λ h. v.never (ground (arith, e, r, h));
      kept = ground (arith, e, r, v.kept);
    }
  ]
]
step-IsSound config (sends io s) t v = elim (Option-cases t.stream) [
  | inl e ↦ record {
    closed = λ h. ground (arith, e);
    never = λ h. v.never (ground (arith, e, h));
    kept = ground (arith, e, v.kept);
  }
  | inr (_, e) ↦ elim (Result-cases io) [
    | inl (_, r) ↦ record {
      closed = λ h. absurd (ground (arith, e, r, h, v.closed (ground (arith, e, r, h))));
      never = λ h. v.never (ground (arith, e, r, h));
      kept = ground (arith, e, r, v.kept);
    }
    | inr (_, r) ↦ record {
      closed = λ h. ground (arith, e, r, h, v.closed (ground (arith, e, r, h)));
      never = λ h. v.never (ground (arith, e, r, h));
      kept = ground (arith, e, r, v.kept);
    }
  ]
]

run-IsSound :
    (config : TransportConfig) (cs : List Call) (t : WebSocketTransport)
    → IsSound config t
    → IsSound config (run t cs)
unfolding run
run-IsSound config [] t v = v
run-IsSound config (c ∷ cs) t v = run-IsSound config cs (step t c) (step-IsSound config c t v)

-- After any calls of a new transport, whether they succeed or fail: if it is disconnected it holds no
-- stream, it is never reconnecting, and its configuration is unchanged.
pub run-new-IsSound :
    (config : TransportConfig) (cs : List Call) → IsSound config (run (new config) cs)
run-new-IsSound config cs =
    run-IsSound config cs (new config)
      (record { closed = λ h. refl; never = λ h. cc h; kept = refl })

-- If closing the stream fails, `disconnect` returns the error and leaves the state as it was without a
-- stream: a connected transport goes on to say that it is connected, while every `send` fails and
-- `receive` yields nothing, until the next `connect` or `disconnect`.
pub disconnect-err :
    (t : WebSocketTransport) (sent : List String) (e : String)
    → t.state ≡ connected
    → t.stream ≡ some sent
    → let t' = (disconnect (err e) t).1 in
      ((disconnect (err e) t).0 ≡ err e)
      × (is_connected t' ≡ true)
      × ((io : Result String (Unit {0})) (s : String) → send io s t' ≡ (err "Not connected", t'))
      × ((disconnect (ok tt) t').1.state ≡ disconnected)
unfolding disconnect send
disconnect-err t sent e q h =
    (ground (arith, h), ground (arith, h, q), λ io s. ground (arith, h), ground (arith, h))
