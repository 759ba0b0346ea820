-- ===== src/Identity/AgentId/Dids.antt =====
-- What a DID says of the agent that it names.
use Prim.Native.String.{◌++◌}
use text.Mathlib.TextLemmas.{append_assoc}
use microsoft_agt_rust.Prelude.{◌≡◌, refl, String, none, some}
use microsoft_agt_rust.Platform.{Platform}
use microsoft_agt_rust.Identity.AgentId.{new}

-- The DID is made from the name and the organization joined by a colon, so agents of different names
-- and organizations get one DID whenever a colon can be read on either side; and an agent of no
-- organization gets the DID of its namesake in the organization "default".
pub new_ambiguous :
    (p : Platform) (a b c : String)
    → (new p (a ++ ":" ++ b) (some c) ≡ new p a (some (b ++ ":" ++ c)))
      × (new p a none ≡ new p a (some "default"))
unfolding new
new_ambiguous p a b c = (simp append_assoc, refl)
