-- ===== src/Fixtures/Registry.antt =====
-- Records of the agent registry on the wire.
use microsoft_agt_rust.Prelude.{
  ℕ, zero, suc, ◌≡◌, refl, Bool, true, false, String, Option, none, some, List, [], ◌∷◌, length,
}
use microsoft_agt_rust.Prelude.Result.{Result, ok}
use microsoft_agt_rust.Identity.Ring.{PrivilegeRing, system, trusted, standard, sandboxed, rank}
use microsoft_agt_rust.Identity.AgentId.{AgentIdentity}
use microsoft_agt_rust.Identity.Registry.{RegistryRecord, RecordJson}
use microsoft_agt_rust.Identity.Registry.File.{RecordJsonLaws}
use microsoft_agt_rust.Fixtures.Wire.{
  write_text, read_text, read_text-write_text, write_number, read_number, read_number-write_number,
  write_texts, read_texts, read_texts-write_texts,
}

ring_at : ℕ → PrivilegeRing
ring_at zero = system
ring_at (suc zero) = trusted
ring_at (suc (suc zero)) = standard
ring_at (suc (suc (suc n))) = sandboxed

ring_at-rank : (r : PrivilegeRing) → ring_at (rank r) ≡ r
unfolding ring_at
ring_at-rank system = refl
ring_at-rank trusted = refl
ring_at-rank standard = refl
ring_at-rank sandboxed = refl

texts_of : Option String → List String
texts_of none = []
texts_of (some s) = s ∷ []

option_of : List String → Option String
option_of [] = none
option_of (s ∷ ss) = some s

option_of-texts_of : (o : Option String) → option_of (texts_of o) ≡ o
unfolding option_of texts_of
option_of-texts_of none = refl
option_of-texts_of (some s) = refl

unfoldable pub to_string : RegistryRecord → String
unfolding texts_of write_text write_number write_texts
to_string r =
    let id = r.identity in
    write_text id.did.method (
      write_text id.did.unique_id (
        write_text id.name (
          write_text id.public_key (
            write_text id.sponsor_email (
              write_number (length id.capabilities) (
                write_texts id.capabilities (
                  write_text id.status (
                    write_number (length (texts_of id.parent_did)) (
                      write_texts (texts_of id.parent_did)
                        (write_number id.delegation_depth (write_number (rank r.ring) "")))))))))))

unfoldable pub from_str : String → Result String RegistryRecord
unfolding ring_at option_of read_text read_number read_texts
from_str s0 =
    let (method, s1) = read_text s0 in
    let (unique_id, s2) = read_text s1 in
    let (name, s3) = read_text s2 in
    let (public_key, s4) = read_text s3 in
    let (sponsor_email, s5) = read_text s4 in
    let (n, s6) = read_number s5 in
    let (capabilities, s7) = read_texts n s6 in
    let (status, s8) = read_text s7 in
    let (k, s9) = read_number s8 in
    let (parents, s10) = read_texts k s9 in
    let (depth, s11) = read_number s10 in
    let (ring, _) = read_number s11 in
    ok (record {
      identity = record {
        did = record { method = method; unique_id = unique_id };
        name = name;
        public_key = public_key;
        sponsor_email = sponsor_email;
        capabilities = capabilities;
        status = status;
        parent_did = option_of parents;
        delegation_depth = depth;
        private_key = none;
      };
      ring = ring_at ring;
    })

from_str-to_string :
    (id : AgentIdentity) (ring : PrivilegeRing)
    → from_str (to_string (record { identity = id; ring = ring }))
      ≡ ok (record { identity = record id { private_key = none }; ring = ring })
unfolding from_str to_string
from_str-to_string id ring = simp (
  read_text-write_text, read_number-write_number, read_texts-write_texts, ring_at-rank,
  option_of-texts_of,
)

unfoldable pub is_blank : String → Bool
is_blank String.[] = true
is_blank (String.◌∷◌ c s) = false

write_text-not_blank : (s rest : String) → is_blank (write_text s rest) ≡ false
unfolding is_blank write_text
write_text-not_blank String.[] rest = refl
write_text-not_blank (String.◌∷◌ c s) rest = refl

not_blank : (r : RegistryRecord) → is_blank (to_string r) ≡ false
unfolding to_string
not_blank r = write_text-not_blank r.identity.did.method _

abbrev pub plain_records : RecordJson
plain_records = record { to_string = to_string; from_str = from_str; is_blank = is_blank }

pub plain_record_laws : RecordJsonLaws plain_records
plain_record_laws = record { from_str-to_string = from_str-to_string; not_blank = not_blank }
