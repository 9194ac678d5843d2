-- ===== src/Prelude/Groups.antt =====
-- A `Map` of lists: `m.set(key, [...(m.get(key) ?? []), x])` for one element after the other, and a
-- `Map` that is built from pairs.
use mathlib.Core.Path.{◌≡◌, refl, sym, ap}
use mathlib.Core.List.{List, [], ◌∷◌, ◌++◌}
use native.Mathlib.Omega.{arith}
use tirion_watch.Prelude.Tests.{if◌then◌else◌, get_or}
use tirion_watch.Prelude.Lists.{select}
use tirion_watch.Prelude.Equality.{Comparable, ◌===◌}
use tirion_watch.Prelude.Sets.{IsUnique}
use tirion_watch.Prelude.Maps.{keys, map_get, map_set, map_get-map_set, map_set-IsUnique}

module _ {ℓ κ} {K : Type ℓ} {V : Type κ} ⦃e : Comparable K⦄ (key_of : V → K) where
  -- `new Map(values.map((value) => [key(value), value]))` behind the entries that are there.
  unfoldable pub index_from : List (K × V) → List V → List (K × V)
  index_from m [] = m
  index_from m (v ∷ vs) = index_from (map_set (key_of v) v m) vs

  pub index_from-IsUnique :
      (m : List (K × V)) (vs : List V) → IsUnique (keys m) → IsUnique (keys (index_from m vs))
  unfolding index_from
  index_from-IsUnique m [] u = u
  index_from-IsUnique m (v ∷ vs) u =
      index_from-IsUnique (map_set (key_of v) v m) vs (map_set-IsUnique (key_of v) v m u)

  unfoldable pub group_add : V → List (K × List V) → List (K × List V)
  group_add v m = map_set (key_of v) (get_or (map_get (key_of v) m) [] ++ v ∷ []) m

  unfoldable pub group_from : List (K × List V) → List V → List (K × List V)
  group_from m [] = m
  group_from m (v ∷ vs) = group_from (group_add v m) vs

append_nil {ℓ} : {A : Type ℓ} (xs : List A) → xs ++ [] ≡ xs
append_nil [] = refl
append_nil (x ∷ xs) = ap (λ ys. x ∷ ys) (append_nil xs)

append_assoc {ℓ} : {A : Type ℓ} (xs ys zs : List A) → (xs ++ ys) ++ zs ≡ xs ++ (ys ++ zs)
append_assoc [] ys zs = refl
append_assoc (x ∷ xs) ys zs = ap (λ us. x ∷ us) (append_assoc xs ys zs)

module _ {ℓ κ} {K : Type ℓ} {V : Type κ} ⦃e : Comparable K⦄ (key_of : V → K) where
  group_add-get :
      (k : K) (v : V) (m : List (K × List V))
      → get_or (map_get k (group_add key_of v m)) []
        ≡ get_or (map_get k m) [] ++ (if key_of v === k then v ∷ [] else [])
  unfolding group_add
  group_add-get k v m = ground (
    arith,
    map_get-map_set (key_of v) k (get_or (map_get (key_of v) m) [] ++ v ∷ []) m,
    e.equal_iff (key_of v) k,
    append_nil (get_or (map_get k m) []),
  )

  -- The list of a key holds the elements with that key, in their order.
  pub group_from-get :
      (k : K) (m : List (K × List V)) (vs : List V)
      → get_or (map_get k (group_from key_of m vs)) []
        ≡ get_or (map_get k m) [] ++ select (λ v. key_of v === k) vs
  unfolding group_from
  group_from-get k m [] = sym (append_nil (get_or (map_get k m) []))
  group_from-get k m (v ∷ vs) = ground (
    arith,
    group_from-get k (group_add key_of v m) vs,
    group_add-get k v m,
    append_nil (get_or (map_get k m) []),
    append_assoc (get_or (map_get k m) []) (v ∷ []) (select (λ v. key_of v === k) vs),
  )
