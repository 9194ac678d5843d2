-- ===== src/Prelude/Entries.antt =====
-- The entries of a map, and what is true of all of them.
use mathlib.Core.Path.{◌≡◌, refl, sym, subst, ap}
use mathlib.Core.Logic.{inl, inr}
use mathlib.Core.Bool.{true}
use mathlib.Core.Option.{some}
use mathlib.Core.List.{List, [], ◌∷◌, Memᴰ}
use native.Mathlib.Omega.{arith}
use tirion_watch.Prelude.Tests.{Bool-cases, if_ind}
use tirion_watch.Prelude.Lists.{All}
use tirion_watch.Prelude.Equality.{Comparable, ◌===◌}
use tirion_watch.Prelude.Sets.{includes, IsUnique}
use tirion_watch.Prelude.Maps.{keys, values, map_get, map_set}
use tirion_watch.Prelude.Groups.{index_from}

module _ {ℓ κ ι} {K : Type ℓ} {V : Type κ} ⦃e : Comparable K⦄ (P : K × V → Type ι) where
  pub All-map_set : (k : K) (v : V) (m : List (K × V)) → P (k, v) → All P m → All P (map_set k v m)
  unfolding map_set
  All-map_set k v [] p h = (p, tt)
  All-map_set k v ((j, w) ∷ m) p h =
      if_ind (All P) (j === k) (λ q. (subst (λ i. P (i, v)) (sym ((e.equal_iff j k).0 q)) p, h.1))
        (λ q. (h.0, All-map_set k v m p h.1))

  pub All-map_get : (k : K) (v : V) (m : List (K × V)) → All P m → map_get k m ≡ some v → P (k, v)
  unfolding map_get
  All-map_get k v [] h q = ground (arith, q)
  All-map_get k v ((j, w) ∷ m) h q = elim (Bool-cases (j === k)) [
    | inl same ↦
        let here : some w ≡ some v = rw same at q in
        let value : w ≡ v = cc here in
        subst (λ i. P (i, v)) ((e.equal_iff j k).0 same) (subst (λ u. P (j, u)) value h.0)
    | inr other ↦ All-map_get k v m h.1 (rw other at q)
  ]

  pub All-index_from :
      (key_of : V → K) (m : List (K × V)) (vs : List V)
      → All P m
      → All (λ v. P (key_of v, v)) vs
      → All P (index_from key_of m vs)
  unfolding index_from
  All-index_from key_of m [] h g = h
  All-index_from key_of m (v ∷ vs) h g =
      All-index_from key_of (map_set (key_of v) v m) vs (All-map_set (key_of v) v m g.0 h) g.1

module _ {ℓ κ ι} {K : Type ℓ} {V : Type κ} (P : K × V → Type ι) (Q : V → Type ι)
    (weaken : (k : K) (v : V) → P (k, v) → Q v) where
  pub All-values : (m : List (K × V)) → All P m → All Q (values m)
  All-values [] h = tt
  All-values ((j, w) ∷ m) h = (weaken j w h.0, All-values m h.1)

module _ {ℓ κ} {K : Type ℓ} {V : Type κ} ⦃e : Comparable K⦄ where
  pub map_get-includes :
      (k : K) (v : V) (m : List (K × V)) → map_get k m ≡ some v → includes (keys m) k ≡ true
  unfolding map_get
  map_get-includes k v [] q = ground (arith, q)
  map_get-includes k v ((j, w) ∷ m) q = elim (Bool-cases (j === k)) [
    | inl same ↦ ground (arith, same)
    | inr other ↦ ground (arith, map_get-includes k v m (rw other at q))
  ]

  -- A value of a map without double keys is what its key yields.
  pub Memᴰ-map_get :
      (v : V) (m : List (K × V))
      → IsUnique (keys m)
      → Memᴰ v (values m)
      → (k : K) × (map_get k m ≡ some v)
  unfolding map_get
  Memᴰ-map_get v [] u h = elim h [ ]
  Memᴰ-map_get v ((j, w) ∷ m) u (Memᴰ.head q) =
      let here = (e.equal_iff j j).1 refl in (j, rw here (ap some (sym q)))
  Memᴰ-map_get v ((j, w) ∷ m) u (Memᴰ.tail h) =
      let (k, q) = Memᴰ-map_get v m u.1 h in
      (
        k,
        elim (Bool-cases (j === k)) [
          | inl same ↦
              let held = map_get-includes k v m q in
              absurd (ground (arith, held, u.0, (e.equal_iff j k).0 same))
          | inr other ↦ rw other q
        ],
      )

  pub map_get-Memᴰ : (k : K) (v : V) (m : List (K × V)) → map_get k m ≡ some v → Memᴰ v (values m)
  unfolding map_get
  map_get-Memᴰ k v [] q = ground (arith, q)
  map_get-Memᴰ k v ((j, w) ∷ m) q = elim (Bool-cases (j === k)) [
    | inl same ↦ let here : some w ≡ some v = rw same at q in Memᴰ.head (cc here)
    | inr other ↦ Memᴰ.tail (map_get-Memᴰ k v m (rw other at q))
  ]

  -- A map that holds the value is not changed.
  pub map_set_same : (k : K) (v : V) (m : List (K × V)) → map_get k m ≡ some v → map_set k v m ≡ m
  unfolding map_get map_set
  map_set_same k v [] q = ground (arith, q)
  map_set_same k v ((j, w) ∷ m) q = elim (Bool-cases (j === k)) [
    | inl same ↦
        let here : some w ≡ some v = rw same at q in
        let value : v ≡ w = cc here in rw same (ap (λ u. (j, u) ∷ m) value)
    | inr other ↦ rw other (ap (λ n. (j, w) ∷ n) (map_set_same k v m (rw other at q)))
  ]
