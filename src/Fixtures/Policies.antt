-- ===== src/Fixtures/Policies.antt =====
-- Policies on the wire.
use microsoft_agt_rust.Prelude.{
  ℕ, zero, suc, ◌≡◌, refl, Bool, true, false, String, [], ◌∷◌, length, str_eq, eq_iff, ap, arith,
  inl, inr, Bool-cases,
}
use microsoft_agt_rust.Prelude.Result.{Result, ok}
use microsoft_agt_rust.Fixtures.Wire.{
  write_number, read_number, read_number-write_number, write_texts, read_texts,
  read_texts-write_texts,
}
use microsoft_agt_rust.Mcp.{McpPolicy}
use microsoft_agt_rust.Mcp.Store.{PolicyJson}
use microsoft_agt_rust.Mcp.Store.Files.{PolicyJsonLaws}

bit : Bool → ℕ
bit false = 0
bit true = 1

bit_of : ℕ → Bool
bit_of zero = false
bit_of (suc n) = true

bit_of-bit : (b : Bool) → bit_of (bit b) ≡ b
unfolding bit bit_of
bit_of-bit false = refl
bit_of-bit true = refl

unfoldable pub to_string : McpPolicy → String
unfolding bit
to_string policy = write_number (length policy.allowed_tools) (
    write_texts policy.allowed_tools (
      write_number (length policy.denylist) (
        write_texts policy.denylist (
          write_number (bit policy.allow_unknown_tools)
            (write_number policy.max_requests_per_second "")))))

unfoldable pub from_str : String → Result String McpPolicy
unfolding bit_of
from_str s0 =
    let (n, s1) = read_number s0 in
    let (allowed, s2) = read_texts n s1 in
    let (k, s3) = read_number s2 in
    let (denied, s4) = read_texts k s3 in
    let (flag, s5) = read_number s4 in
    let (rate, _) = read_number s5 in
    ok (record {
      allowed_tools = allowed;
      denylist = denied;
      allow_unknown_tools = bit_of flag;
      max_requests_per_second = rate;
    })

from_str-to_string : (policy : McpPolicy) → from_str (to_string policy) ≡ ok policy
unfolding from_str to_string
from_str-to_string policy = simp (read_number-write_number, read_texts-write_texts, bit_of-bit)

abbrev pub plain_policies : PolicyJson
plain_policies = record { to_string = to_string; from_str = from_str }

pub plain_policy_laws : PolicyJsonLaws plain_policies
plain_policy_laws = record { from_str-to_string = from_str-to_string }

size : String → ℕ
size String.[] = 0
size (String.◌∷◌ c s) = 1

size-write_number : (n : ℕ) (s : String) → size (write_number n s) ≡ 1
unfolding size write_number
size-write_number zero s = refl
size-write_number (suc n) s = refl

number_not_empty : (n : ℕ) (s : String) → str_eq (write_number n s) "" ≡ false
unfolding size
number_not_empty n s = elim (Bool-cases (str_eq (write_number n s) "")) [
  | inr e ↦ e
  | inl e ↦
      let none_left : size (write_number n s) ≡ 0 = ap size ((eq_iff (write_number n s) "").0 e) in
      absurd (omega (arith, size-write_number n s, none_left))
]

pub policy_not_empty : (policy : McpPolicy) → str_eq (plain_policies.to_string policy) "" ≡ false
unfolding to_string
policy_not_empty policy = number_not_empty (length policy.allowed_tools) _

abbrev pub strict : McpPolicy
strict = record {
  allowed_tools = "read" ∷ [];
  denylist = [];
  allow_unknown_tools = false;
  max_requests_per_second = 10;
}
