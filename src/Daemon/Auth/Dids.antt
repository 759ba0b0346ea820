-- ===== src/Daemon/Auth/Dids.antt =====
-- Reading a DID back.
use Prim.Native.String.{◌++◌}
use text.Mathlib.TextLemmas.{append_assoc}
use microsoft_agt_rust.Prelude.{◌≡◌, ap, sym, ◌∙◌, false, String}
use microsoft_agt_rust.Prelude.Result.{ok}
use microsoft_agt_rust.Prelude.Text.{has_colon, split_did}
use microsoft_agt_rust.Identity.AgentId
use microsoft_agt_rust.Identity.AgentId.{AgentDid}
use microsoft_agt_rust.Daemon.Auth.{parse_did, did_of}

printed : (u : String) → "did:" ++ "mesh" ++ ":" ++ u ≡ "did:mesh:" ++ u
printed u =
    ap (λ t. "did:" ++ t) (sym (append_assoc "mesh" ":" u)) ∙ sym (append_assoc "did:" "mesh:" u)

-- A DID of the method "mesh" whose id holds no colon is read back from its printed form.
pub parse_did-display :
    (u : String)
    → has_colon u ≡ false
    → parse_did (AgentId.display (record { method = "mesh"; unique_id = u }))
      ≡ ok (record { method = "mesh"; unique_id = u })
unfolding parse_did did_of
parse_did-display u h = rw (printed, split_did u h)
