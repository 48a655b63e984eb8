-- ===== src/Base/Maps.antt =====
-- Go's `map[string]V`, as an association list.
use Prim.Native.String.{String}
use mathlib.Core.Path.{◌≡◌, refl}
use mathlib.Core.Bool.{Bool}
use mathlib.Core.Option.{Option, none, some}
use mathlib.Core.List.{List, [], ◌∷◌}
use native.Mathlib.Omega.{arith}
use text.Mathlib.Text.{◌==◌}
use text.Mathlib.TextEquality.{eq_iff}
use cruiser.Base.Tests.{if◌then◌else◌, is_some}
use cruiser.Base.Names.{mem, Distinct}

abbrev pub Dict {ℓ} : Type ℓ → Type ℓ
Dict V = List (String × V)

module _ {ℓ} {V : Type ℓ} where
  -- `v, ok := m[k]`
  unfoldable pub index : Dict V → String → Option V
  index [] k = none
  index ((j, v) ∷ m) k = if j == k then some v else index m k

  -- `m[k] = v`
  unfoldable pub assign : Dict V → String → V → Dict V
  assign [] k v = (k, v) ∷ []
  assign ((j, w) ∷ m) k v = if j == k then (k, v) ∷ m else (j, w) ∷ assign m k v

  -- `delete(m, k)`
  unfoldable pub delete : Dict V → String → Dict V
  delete [] k = []
  delete ((j, w) ∷ m) k = let rest = delete m k in if j == k then rest else (j, w) ∷ rest

  abbrev pub has : Dict V → String → Bool
  has m k = is_some (index m k)

  unfoldable pub keys : Dict V → List String
  keys [] = []
  keys ((j, v) ∷ m) = j ∷ keys m

  pub index-nil : (k : String) → index [] k ≡ none
  unfolding index
  index-nil k = refl

  pub index-assign :
      (m : Dict V) (k : String) (v : V) (j : String)
      → index (assign m k v) j ≡ (if k == j then some v else index m j)
  unfolding index assign
  index-assign [] k v j = refl
  index-assign ((i, w) ∷ m) k v j =
      ground (arith, eq_iff k j, eq_iff i k, eq_iff i j, index-assign m k v j)

  pub index-delete :
      (m : Dict V) (k j : String) → index (delete m k) j ≡ (if k == j then none else index m j)
  unfolding index delete
  index-delete [] k j = ground arith
  index-delete ((i, w) ∷ m) k j =
      ground (arith, eq_iff k j, eq_iff i k, eq_iff i j, index-delete m k j)

  -- `keys` lists the keys that the map has.
  pub mem-keys : (m : Dict V) (k : String) → mem k (keys m) ≡ has m k
  unfolding mem keys index
  mem-keys [] k = refl
  mem-keys ((i, w) ∷ m) k = ground (arith, eq_iff i k, mem-keys m k)

  -- Go does not fix the order in which `range m` meets the keys: it is some list of them, each
  -- once. An operation that ranges over a map takes this list as an argument.
  pub record IsRange (order : List String) (m : Dict V) : Type ℓ where
    pub covers : (k : String) → mem k order ≡ has m k
    pub once : Distinct order
