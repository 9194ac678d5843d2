-- ===== src/Prelude/Maps.antt =====
-- `Map`: keys in the order of their first insertion. Setting a key that is there keeps its place.
use mathlib.Core.Path.{◌≡◌, refl}
use mathlib.Core.Bool.{false, ◌||◌}
use mathlib.Core.Option.{Option, none, some}
use mathlib.Core.List.{List, [], ◌∷◌, map}
use native.Mathlib.Omega.{arith}
use tirion_watch.Prelude.Tests.{if◌then◌else◌}
use tirion_watch.Prelude.Equality.{Comparable, ◌===◌}
use tirion_watch.Prelude.Sets.{includes, IsUnique}

module _ {ℓ κ} {K : Type ℓ} {V : Type κ} where
  abbrev pub keys : List (K × V) → List K
  keys m = map (λ e. e.0) m

  abbrev pub values : List (K × V) → List V
  values m = map (λ e. e.1) m

module _ {ℓ κ} {K : Type ℓ} {V : Type κ} ⦃e : Comparable K⦄ where
  unfoldable pub map_get : K → List (K × V) → Option V
  map_get k [] = none
  map_get k ((j, v) ∷ m) = if j === k then some v else map_get k m

  unfoldable pub map_set : K → V → List (K × V) → List (K × V)
  map_set k v [] = (k, v) ∷ []
  map_set k v ((j, w) ∷ m) = if j === k then (j, v) ∷ m else (j, w) ∷ map_set k v m

  unfoldable pub map_delete : K → List (K × V) → List (K × V)
  map_delete k [] = []
  map_delete k ((j, w) ∷ m) = if j === k then m else (j, w) ∷ map_delete k m

  pub map_get-map_set :
      (k j : K) (v : V) (m : List (K × V))
      → map_get j (map_set k v m) ≡ (if k === j then some v else map_get j m)
  unfolding map_get map_set
  map_get-map_set k j v [] = refl
  map_get-map_set k j v ((i, w) ∷ m) =
      ground (arith, map_get-map_set k j v m, e.equal_iff i k, e.equal_iff k j, e.equal_iff i j)

  pub includes-keys-map_set :
      (k a : K) (v : V) (m : List (K × V))
      → includes (keys (map_set k v m)) a ≡ (k === a || includes (keys m) a)
  unfolding map_set
  includes-keys-map_set k a v [] = refl
  includes-keys-map_set k a v ((i, w) ∷ m) =
      ground (arith, includes-keys-map_set k a v m, e.equal_iff i k)

  -- No key is held twice.
  pub map_set-IsUnique :
      (k : K) (v : V) (m : List (K × V)) → IsUnique (keys m) → IsUnique (keys (map_set k v m))
  unfolding map_set
  map_set-IsUnique k v [] u = (refl, tt)
  map_set-IsUnique k v ((i, w) ∷ m) u = ground (
    arith,
    map_set-IsUnique k v m u.1,
    includes-keys-map_set k i v m,
    e.equal_iff i k,
    e.equal_iff k i,
  )

  pub map_get-map_delete :
      (k j : K) (m : List (K × V)) → (k === j) ≡ false → map_get j (map_delete k m) ≡ map_get j m
  unfolding map_get map_delete
  map_get-map_delete k j [] other = refl
  map_get-map_delete k j ((i, w) ∷ m) other =
      ground
        (arith, map_get-map_delete k j m other, e.equal_iff i k, e.equal_iff i j, e.equal_iff k j)
