-- ===== src/Prelude/Map/Unique.antt =====
-- Maps in which no key stands twice, as every map is that is made by `insert`.
use microsoft_agt_rust.Prelude.Map
use microsoft_agt_rust.Prelude.Map.{HashMap, get-insert}
use microsoft_agt_rust.Prelude.Tests.{Bool-cases}
use Prim.Native.String.{String}
use mathlib.Core.Path.{◌≡◌, refl}
use mathlib.Core.Logic.{inl, inr}
use mathlib.Core.Option.{none}
use mathlib.Core.List.{[], ◌∷◌}
use native.Mathlib.Omega.{arith}
use text.Mathlib.Text.{◌==◌}
use text.Mathlib.TextEquality.{eq_iff}

module _ {ℓ} {V : Type ℓ} where
  abbrev pub IsUnique : HashMap V → Type ℓ
  IsUnique [] = Unit
  IsUnique ((k, v) ∷ m) = (Map.get m k ≡ none) × IsUnique m

  pub insert-IsUnique :
      (m : HashMap V) (k : String) (v : V) → IsUnique m → IsUnique (Map.insert m k v)
  unfolding Map.insert Map.get
  insert-IsUnique [] k v u = (refl, tt)
  insert-IsUnique ((j, w) ∷ m) k v u = elim (Bool-cases (j == k)) [
    | inl b ↦ ground (arith, b, u)
    | inr b ↦
        ground (arith, b, u, get-insert m k v j, eq_iff k j, eq_iff j k, insert-IsUnique m k v u.1)
  ]
