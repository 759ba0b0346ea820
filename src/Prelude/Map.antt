-- ===== src/Prelude/Map.antt =====
-- A `HashMap<String, V>` as an association list. The order of the entries stands for the unspecified
-- order in which the source iterates: a statement over every list covers every order.
pub mod Unique
use Prim.Native.String.{String}
use mathlib.Core.Path.{◌≡◌, refl}
use mathlib.Core.Bool.{Bool, true, false}
use mathlib.Core.Option.{Option, none, some}
use mathlib.Core.List.{List, [], ◌∷◌, map}
use native.Mathlib.Omega.{arith}
use text.Mathlib.Text.{◌==◌}
use text.Mathlib.TextEquality.{eq_iff}
use microsoft_agt_rust.Prelude.Tests.{if◌then◌else◌}

abbrev pub HashMap {ℓ} : Type ℓ → Type ℓ
HashMap V = List (String × V)

module _ {ℓ} {V : Type ℓ} where
  unfoldable pub get : HashMap V → String → Option V
  get [] k = none
  get ((j, v) ∷ m) k = if j == k then some v else get m k

  -- `insert` overwrites the value of a key that is there.
  unfoldable pub insert : HashMap V → String → V → HashMap V
  insert [] k v = (k, v) ∷ []
  insert ((j, w) ∷ m) k v = if j == k then (j, v) ∷ m else (j, w) ∷ insert m k v

  unfoldable pub remove : HashMap V → String → HashMap V
  remove [] k = []
  remove ((j, w) ∷ m) k = let rest = remove m k in if j == k then rest else (j, w) ∷ rest

  abbrev pub is_some : Option V → Bool
  is_some none = false
  is_some (some v) = true

  abbrev pub contains_key : HashMap V → String → Bool
  contains_key m k = is_some (get m k)

  abbrev pub values : HashMap V → List V
  values m = map (λ e. e.1) m

  pub get-insert :
      (m : HashMap V) (k : String) (v : V) (j : String)
      → get (insert m k v) j ≡ (if k == j then some v else get m j)
  unfolding get insert
  get-insert [] k v j = refl
  get-insert ((i, w) ∷ m) k v j =
      ground (arith, eq_iff k j, eq_iff i k, eq_iff i j, get-insert m k v j)

  pub get-remove :
      (m : HashMap V) (k j : String) → get (remove m k) j ≡ (if k == j then none else get m j)
  unfolding get remove
  get-remove [] k j = ground arith
  get-remove ((i, w) ∷ m) k j = ground (arith, eq_iff k j, eq_iff i k, eq_iff i j, get-remove m k j)

pub ruleset map_laws = (get-insert, get-remove)
