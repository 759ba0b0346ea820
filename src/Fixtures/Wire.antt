-- ===== src/Fixtures/Wire.antt =====
-- A plain wire format in place of JSON: every value is written in front of a rest, and read back off it.
use Prim.Native.Char.{code}
use microsoft_agt_rust.Prelude.{
  ℕ, zero, suc, ◌≡◌, refl, String, List, [], ◌∷◌, arith, if◌then◌else◌, length,
}
use microsoft_agt_rust.Prelude.Text.{◌==◌}

unfoldable pub write_text : String → String → String
write_text String.[] rest = String.◌∷◌ "0" rest
write_text (String.◌∷◌ c s) rest = String.◌∷◌ "1" (String.◌∷◌ c (write_text s rest))

unfoldable pub read_text : String → String × String
read_text String.[] = (String.[], String.[])
read_text (String.◌∷◌ b String.[]) = (String.[], String.[])
read_text (String.◌∷◌ b (String.◌∷◌ c s)) =
    let (t, rest) = read_text s in
    if code b == b'0' then (String.[], String.◌∷◌ c s) else (String.◌∷◌ c t, rest)

pub read_text-write_text : (s rest : String) → read_text (write_text s rest) ≡ (s, rest)
unfolding read_text write_text
read_text-write_text String.[] String.[] = refl
read_text-write_text String.[] (String.◌∷◌ c rest) = refl
read_text-write_text (String.◌∷◌ c s) rest = ground (arith, read_text-write_text s rest)

unfoldable pub write_number : ℕ → String → String
write_number zero rest = String.◌∷◌ "0" rest
write_number (suc n) rest = String.◌∷◌ "1" (write_number n rest)

unfoldable pub read_number : String → ℕ × String
read_number String.[] = (zero, String.[])
read_number (String.◌∷◌ b s) =
    let (n, rest) = read_number s in if code b == b'0' then (zero, s) else (suc n, rest)

pub read_number-write_number :
    (n : ℕ) (rest : String) → read_number (write_number n rest) ≡ (n, rest)
unfolding read_number write_number
read_number-write_number zero rest = refl
read_number-write_number (suc n) rest = ground (arith, read_number-write_number n rest)

unfoldable pub write_texts : List String → String → String
unfolding write_text
write_texts [] rest = String.◌∷◌ "0" rest
write_texts (s ∷ ss) rest = String.◌∷◌ "1" (write_text s (write_texts ss rest))

-- The number of texts is an argument, which bounds the recursion.
unfoldable pub read_texts : ℕ → String → List String × String
unfolding read_text
read_texts n String.[] = ([], String.[])
read_texts zero (String.◌∷◌ b s) = ([], s)
read_texts (suc n) (String.◌∷◌ b s) =
    let (t, s1) = read_text s in let (ts, rest) = read_texts n s1 in (t ∷ ts, rest)

pub read_texts-write_texts :
    (ss : List String) (rest : String) → read_texts (length ss) (write_texts ss rest) ≡ (ss, rest)
unfolding read_texts write_texts
read_texts-write_texts [] rest = refl
read_texts-write_texts (s ∷ ss) rest = simp (read_text-write_text, read_texts-write_texts ss rest)
