-- ===== src/Identity/Ring.antt =====
-- `PrivilegeRing` of crates/core/mesh/src/identity/agent_id.rs: its order, `FromStr` and `Display`.
pub mod Order
pub mod Names
use microsoft_agt_rust.Prelude.{ℕ, Bool, String, List, leb, ltb, if◌then◌else◌}
use Prim.Native.String.{◌++◌}
use microsoft_agt_rust.Prelude.Result.{Result, ok, err}
use microsoft_agt_rust.Prelude.Text.{codes, lowercase, same, ◌==◌}

pub data PrivilegeRing : Type 0 where
  system trusted standard sandboxed : PrivilegeRing

-- The discriminants: `#[derive(PartialOrd, Ord)]` compares them. A lower number is more privileged.
abbrev pub rank : PrivilegeRing → ℕ
rank system = 0
rank trusted = 1
rank standard = 2
rank sandboxed = 3

abbrev pub ring_le : PrivilegeRing → PrivilegeRing → Bool
ring_le a b = leb (rank a) (rank b)

abbrev pub ring_lt : PrivilegeRing → PrivilegeRing → Bool
ring_lt a b = ltb (rank a) (rank b)

abbrev pub ring_eq : PrivilegeRing → PrivilegeRing → Bool
ring_eq a b = rank a == rank b

-- Display
unfoldable pub display : PrivilegeRing → String
display system = "System"
display trusted = "Trusted"
display standard = "Standard"
display sandboxed = "Sandboxed"

-- FromStr: the text is folded to lower case and compared with each name.
matched : List ℕ → String → Result String PrivilegeRing
unfolding same
matched cs s =
    if same cs (codes "system")
    then ok system
    else if same cs (codes "trusted")
    then ok trusted
    else if same cs (codes "standard")
    then ok standard
    else if same cs (codes "sandboxed")
    then ok sandboxed
    else err ("Unknown privilege ring: " ++ s)

unfoldable pub from_str : String → Result String PrivilegeRing
unfolding matched
from_str s = matched (lowercase s) s
