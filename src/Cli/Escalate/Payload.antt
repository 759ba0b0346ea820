-- ===== src/Cli/Escalate/Payload.antt =====
-- What `escalate approve` signs, beside what the server verifies.
use Prim.Native.Char.{code}
use Prim.Native.String
use Prim.Native.String.append
use microsoft_agt_rust.Prelude.{ℕ, ◌≡◌, ◌≢◌, ◌∙◌, refl, sym, ap, String, List, [], ◌∷◌, ◌++◌, arith}
use mathlib.Core.List.{append_assoc}
use microsoft_agt_rust.Prelude.Text.{utf8, utf8_char}
use microsoft_agt_rust.Identity.Ring
use microsoft_agt_rust.Identity.Ring.{PrivilegeRing, system, trusted, standard, sandboxed}
use microsoft_agt_rust.Rings.Escalation.{approval_payload}
use microsoft_agt_rust.Cli.Escalate.{approve_payload}

utf8-append : (s t : String) → utf8 (String.◌++◌ s t) ≡ utf8 s ++ utf8 t
unfolding utf8
utf8-append String.[] t = rw append.nil refl
utf8-append (String.◌∷◌ c s) t = rw (append.cons) (
    ap (λ x. utf8_char (code c) ++ x) (utf8-append s t)
    ∙ sym (append_assoc (utf8_char (code c)) (utf8 s) (utf8 t)))

-- The last byte, and 0 for no bytes.
last : List ℕ → ℕ
last [] = 0
last (x ∷ []) = x
last (x ∷ y ∷ ys) = last (y ∷ ys)

last-append : (xs : List ℕ) (y : ℕ) (ys : List ℕ) → last (xs ++ y ∷ ys) ≡ last (y ∷ ys)
unfolding last
last-append [] y ys = refl
last-append (x ∷ []) y ys = refl
last-append (x ∷ z ∷ xs) y ys = last-append (z ∷ xs) y ys

last-approve_payload : (id : String) → last (approve_payload id) ≡ 50
unfolding approve_payload last utf8 utf8_char
last-approve_payload id = rw (utf8-append, utf8-append) (last-append (utf8 id) 58 _)

last_of : PrivilegeRing → ℕ
last_of system = 109
last_of trusted = 100
last_of standard = 100
last_of sandboxed = 100

last-colon : (r : PrivilegeRing) → last (58 ∷ utf8 (Ring.display r)) ≡ last_of r
unfolding last last_of utf8 utf8_char Ring.display
last-colon system = refl
last-colon trusted = refl
last-colon standard = refl
last-colon sandboxed = refl

last-approval_payload :
    (id did : String) (r : PrivilegeRing) → last (approval_payload id did r) ≡ last_of r
unfolding approval_payload utf8 utf8_char
last-approval_payload id did r =
    rw (utf8-append, utf8-append, utf8-append, utf8-append)
      (last-append (utf8 id) 58 _
        ∙ last-append (58 ∷ utf8 did) 58 (utf8 (Ring.display r))
        ∙ last-colon r)

last_of-two : (r : PrivilegeRing) → last_of r ≢ 50
unfolding last_of
last_of-two system h = omega (arith, h)
last_of-two trusted h = omega (arith, h)
last_of-two standard h = omega (arith, h)
last_of-two sandboxed h = omega (arith, h)

-- What `escalate approve` signs is never the payload that the server verifies the approval against,
-- whatever the request: the command's ends with the number of a ring, and the server's with its name.
pub approve_payload-approval_payload :
    (id event_id agent_did : String) (ring : PrivilegeRing)
    → approve_payload id ≢ approval_payload event_id agent_did ring
approve_payload-approval_payload id event_id agent_did ring same = last_of-two ring (
    sym (last-approval_payload event_id agent_did ring)
    ∙ ap last (sym same)
    ∙ last-approve_payload id)
