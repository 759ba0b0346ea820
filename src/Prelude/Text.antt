-- ===== src/Prelude/Text.antt =====
-- Texts character by character: code points, UTF-8, lower case, splitting at colons, `take`.
use Prim.Native.Nat.{ℕ, zero, suc, ◌+◌, ◌/◌, ◌%◌, ◌≤◌, compare, Ordering}
use Prim.Native.Char.{Char, code}
use Prim.Native.String.{String}
use Prim.Native.String
use Prim.Native.String.append
use mathlib.Core.Path.{◌≡◌, refl}
use mathlib.Core.Bool.{Bool, true, false, ◌&&◌}
use mathlib.Core.List.{List, [], ◌∷◌, ◌++◌, map}
use native.Mathlib.Omega.{arith}
use microsoft_agt_rust.Prelude.Tests.{ltb, leb, if◌then◌else◌}

infix 50 ◌==◌
abbrev pub ◌==◌ : ℕ → ℕ → Bool
a == b = elim (compare a b) [ Ordering.eq ↦ true | _ ↦ false ]

abbrev pub codes : String → List ℕ
codes String.[] = []
codes (String.◌∷◌ c s) = code c ∷ codes s

-- A text of visible ASCII characters, spaces included.
abbrev pub IsVisible : String → Type 0
IsVisible String.[] = Unit {0}
IsVisible (String.◌∷◌ c s) = (32 ≤ code c) × (code c ≤ 126) × IsVisible s

-- One code point in UTF-8.
unfoldable pub utf8_char : ℕ → List ℕ
utf8_char c =
    if ltb c 0x80
    then c ∷ []
    else if ltb c 0x800
    then (0xC0 + c / 64) ∷ (0x80 + c % 64) ∷ []
    else if ltb c 0x10000
    then (0xE0 + c / 4096) ∷ (0x80 + c / 64 % 64) ∷ (0x80 + c % 64) ∷ []
    else (0xF0 + c / 262144) ∷ (0x80 + c / 4096 % 64) ∷ (0x80 + c / 64 % 64) ∷ (0x80 + c % 64) ∷ []

-- `as_bytes`, `into_bytes`
unfoldable pub utf8 : String → List ℕ
unfolding utf8_char
utf8 String.[] = []
utf8 (String.◌∷◌ c s) = utf8_char (code c) ++ utf8 s

-- `to_lowercase` as far as a comparison with an ASCII text can tell: of the characters outside ASCII
-- only the Kelvin sign has an ASCII lower case, and the others stay outside ASCII.
unfoldable pub lower : ℕ → ℕ
lower c = if leb b'A' c && leb c b'Z' then c + 32 else if c == 0x212A then b'k' else c

abbrev pub lowercase : String → List ℕ
lowercase s = map lower (codes s)

-- `==` on texts given by their code points.
unfoldable pub same : List ℕ → List ℕ → Bool
same [] [] = true
same [] (d ∷ ds) = false
same (c ∷ cs) [] = false
same (c ∷ cs) (d ∷ ds) = c == d && same cs ds

pub same_sound : (cs ds : List ℕ) → same cs ds ≡ true → cs ≡ ds
unfolding same
same_sound [] [] h = refl
same_sound [] (d ∷ ds) h = cc
same_sound (c ∷ cs) [] h = cc
same_sound (c ∷ cs) (d ∷ ds) h = ground (arith, same_sound cs ds)

pub same_refl : (cs : List ℕ) → same cs cs ≡ true
unfolding same
same_refl [] = refl
same_refl (c ∷ cs) = ground (arith, same_refl cs)

-- The first `n` characters: `s[..n]` of an ASCII text.
unfoldable pub take_chars : ℕ → String → String
take_chars zero s = String.[]
take_chars (suc n) String.[] = String.[]
take_chars (suc n) (String.◌∷◌ c s) = String.◌∷◌ c (take_chars n s)

push_char : Char → List String → List String
push_char c [] = String.◌∷◌ c String.[] ∷ []
push_char c (w ∷ ws) = String.◌∷◌ c w ∷ ws

-- `s.split(':').collect()`
unfoldable pub split_colon : String → List String
unfolding push_char
split_colon String.[] = String.[] ∷ []
split_colon (String.◌∷◌ c s) =
    let rest = split_colon s in if code c == b':' then String.[] ∷ rest else push_char c rest

abbrev pub has_colon : String → Bool
has_colon String.[] = false
has_colon (String.◌∷◌ c s) = if code c == b':' then true else has_colon s

pub split_colon_word : (s : String) → has_colon s ≡ false → split_colon s ≡ s ∷ []
unfolding split_colon push_char
split_colon_word String.[] h = refl
split_colon_word (String.◌∷◌ c s) h = ground (arith, split_colon_word s)

-- `format!("did:mesh:{}", u)`, character by character.
did-append :
    (u : String)
    → String.◌++◌ "did:mesh:" u
      ≡ String.◌∷◌ "d" (
          String.◌∷◌ "i" (
            String.◌∷◌ "d" (
              String.◌∷◌ ":" (
                String.◌∷◌ "m"
                  (String.◌∷◌ "e" (String.◌∷◌ "s" (String.◌∷◌ "h" (String.◌∷◌ ":" u))))))))
did-append u = rw (
  append.cons, append.cons, append.cons, append.cons, append.cons, append.cons, append.cons,
  append.cons, append.cons, append.nil,
)

pub split_did :
    (u : String)
    → has_colon u ≡ false
    → split_colon (String.◌++◌ "did:mesh:" u) ≡ "did" ∷ "mesh" ∷ u ∷ []
unfolding split_colon push_char
split_did u h = rw did-append (ground (arith, split_colon_word u h))
