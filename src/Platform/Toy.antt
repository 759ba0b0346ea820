-- ===== src/Platform/Toy.antt =====
-- A small scheme that meets the laws of `PlatformLaws`, for tests: base64 is replaced by a unary code,
-- a public key by the key's checksum, a signature by the two checksums of key and data.
use Prim.Native.Char.{code}
use microsoft_agt_rust.Prelude.{
  ℕ, zero, suc, ◌+◌, ◌≡◌, refl, Bool, true, String, List, [], ◌∷◌, ◌++◌, arith, ap, length,
  if◌then◌else◌,
}
use microsoft_agt_rust.Prelude.Text.{same, same_refl, ◌==◌, IsVisible}
use microsoft_agt_rust.Prelude.Text.{utf8}
use microsoft_agt_rust.Prelude.Result.{ok}
use microsoft_agt_rust.Platform.{Platform, PlatformLaws}

tally : ℕ → String → String
tally zero s = String.◌∷◌ "," s
tally (suc n) s = String.◌∷◌ "1" (tally n s)

decode_from : ℕ → String → List ℕ
decode_from n String.[] = []
decode_from n (String.◌∷◌ c s) =
    let stop = decode_from 0 s in
    let more = decode_from (suc n) s in if code c == b',' then n ∷ stop else more

replicate : ℕ → ℕ → List ℕ
replicate zero x = []
replicate (suc n) x = x ∷ replicate n x

checksum : List ℕ → ℕ
checksum [] = 0
checksum (x ∷ xs) = x + checksum xs

to_key : ℕ → List ℕ
to_key n = n ∷ replicate 31 0

to_signature : ℕ → ℕ → List ℕ
to_signature k d = k ∷ d ∷ replicate 62 0

signed_by : List ℕ → List ℕ → List ℕ
unfolding to_signature checksum
signed_by [] d = []
signed_by (k ∷ ks) d = to_signature k (checksum d)

unfoldable pub toy_encode : List ℕ → String
unfolding tally
toy_encode [] = String.[]
toy_encode (b ∷ bs) = tally b (toy_encode bs)

unfoldable pub toy_decode : String → List ℕ
unfolding decode_from
toy_decode s = decode_from 0 s

unfoldable pub toy_public : List ℕ → List ℕ
unfolding to_key checksum replicate
toy_public k = to_key (checksum k)

unfoldable pub toy_sign : List ℕ → List ℕ → List ℕ
unfolding to_signature checksum replicate
toy_sign k d = to_signature (checksum k) (checksum d)

unfoldable pub toy_verify : List ℕ → List ℕ → List ℕ → Bool
unfolding signed_by same to_signature checksum replicate
toy_verify k d s = same (signed_by k d) s

decode_from-tally : (b n : ℕ) (s : String) → decode_from n (tally b s) ≡ (n + b) ∷ decode_from 0 s
unfolding decode_from tally
decode_from-tally zero n s = ground arith
decode_from-tally (suc b) n s = ground (arith, decode_from-tally b (suc n) s)

pub toy_decode-encode : (bs : List ℕ) → toy_decode (toy_encode bs) ≡ bs
unfolding toy_decode toy_encode
toy_decode-encode [] = refl
toy_decode-encode (b ∷ bs) =
    ground (arith, decode_from-tally b 0 (toy_encode bs), toy_decode-encode bs)

tally-IsVisible : (b : ℕ) (s : String) → IsVisible s → IsVisible (tally b s)
unfolding tally
tally-IsVisible zero s h = (omega arith, omega arith, h)
tally-IsVisible (suc b) s h = (omega arith, omega arith, tally-IsVisible b s h)

pub toy_encode-IsVisible : (bs : List ℕ) → IsVisible (toy_encode bs)
unfolding toy_encode
toy_encode-IsVisible [] = tt
toy_encode-IsVisible (b ∷ bs) = tally-IsVisible b (toy_encode bs) (toy_encode-IsVisible bs)

pub length-toy_public : (k : List ℕ) → length (toy_public k) ≡ 32
unfolding toy_public
length-toy_public k = refl

pub length-toy_sign : (k d : List ℕ) → length (toy_sign k d) ≡ 64
unfolding toy_sign
length-toy_sign k d = refl

pub toy_verify-sign : (k d : List ℕ) → toy_verify (toy_public k) d (toy_sign k d) ≡ true
unfolding toy_verify toy_public toy_sign
toy_verify-sign k d = same_refl (toy_sign k d)

abbrev pub toy : Platform
toy = record {
  encode = toy_encode;
  decode = λ s. ok (toy_decode s);
  public_key = toy_public;
  point = λ k. ok tt;
  sign = toy_sign;
  verify = toy_verify;
  sha256_hex = toy_encode;
  claim_json = λ subject key issued expires. issued ∷ expires ∷ utf8 subject ++ utf8 key;
}

pub toy_laws : PlatformLaws toy
toy_laws = record {
  decode-encode = λ b. ap ok (toy_decode-encode b);
  length-public_key = length-toy_public;
  point-public_key = λ k. refl;
  length-sign = length-toy_sign;
  encode-IsVisible = toy_encode-IsVisible;
  verify-sign = toy_verify-sign;
}
