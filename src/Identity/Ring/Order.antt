-- ===== src/Identity/Ring/Order.antt =====
-- The order of the rings.
use microsoft_agt_rust.Prelude.{◌≡◌, true, arith}
use microsoft_agt_rust.Identity.Ring.{PrivilegeRing, system, trusted, standard, sandboxed, ring_eq}

pub ring_eq_sound : (a b : PrivilegeRing) → ring_eq a b ≡ true → a ≡ b
ring_eq_sound system b h = ground arith
ring_eq_sound trusted b h = ground arith
ring_eq_sound standard b h = ground arith
ring_eq_sound sandboxed b h = ground arith
