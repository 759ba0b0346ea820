-- ===== src/Identity/Ring/Names.antt =====
-- Reading a ring's name back.
use microsoft_agt_rust.Prelude.{◌≡◌, refl, ◌↔◌, String, arith, List, ℕ}
use microsoft_agt_rust.Prelude.Result.{ok}
use microsoft_agt_rust.Prelude.Text.{codes, lowercase, lower, same, same_sound}
use microsoft_agt_rust.Identity.Ring.{
  PrivilegeRing, system, trusted, standard, sandboxed, display, from_str, matched,
}

matched_sound :
    (cs : List ℕ) (s : String) (r : PrivilegeRing)
    → matched cs s ≡ ok r
    → cs ≡ lowercase (display r)
unfolding matched display lower
matched_sound cs s system h = ground (arith, same_sound cs (codes "system"))
matched_sound cs s trusted h = ground (arith, same_sound cs (codes "trusted"))
matched_sound cs s standard h = ground (arith, same_sound cs (codes "standard"))
matched_sound cs s sandboxed h = ground (arith, same_sound cs (codes "sandboxed"))

matched-display : (s : String) (r : PrivilegeRing) → matched (lowercase (display r)) s ≡ ok r
unfolding matched display lower same
matched-display s system = refl
matched-display s trusted = refl
matched-display s standard = refl
matched-display s sandboxed = refl

-- A text is read as the ring `r` exactly when it spells the printed name of `r` up to letter case.
pub from_str_iff :
    (s : String) (r : PrivilegeRing) → (from_str s ≡ ok r) ↔ (lowercase s ≡ lowercase (display r))
unfolding from_str
from_str_iff s r = (matched_sound (lowercase s) s r, λ e. rw e (matched-display s r))
