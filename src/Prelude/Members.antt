-- ===== src/Prelude/Members.antt =====
-- Members of a list as witnesses: what a test, a filter or a map says of them.
use mathlib.Core.Path.{◌≡◌, refl, sym, subst, ap}
use mathlib.Core.Logic.{◌⊎◌, inl, inr}
use mathlib.Core.Bool.{Bool, true}
use mathlib.Core.Option.{some}
use mathlib.Core.List.{List, [], ◌∷◌, ◌++◌, map, flat_map, Memᴰ}
use native.Mathlib.Omega.{arith}
use tirion_watch.Prelude.Tests.{Bool-cases}
use tirion_watch.Prelude.Lists.{any, every, select, find, head?, All}
use tirion_watch.Prelude.Equality.{Comparable, ◌===◌}
use tirion_watch.Prelude.Sets.{includes}

module _ {ℓ} {A : Type ℓ} (p : A → Bool) where
  pub Memᴰ-select : {a : A} (xs : List A) → Memᴰ a (select p xs) → Memᴰ a xs × (p a ≡ true)
  Memᴰ-select [] m = elim m [ ]
  Memᴰ-select {a} (x ∷ xs) m = elim (Bool-cases (p x)) [
    | inl e ↦ kept e (rw e at m) (Memᴰ-select xs)
    | inr e ↦ let (later, q) = Memᴰ-select xs (rw e at m) in (Memᴰ.tail later, q)
  ]
    where
      kept :
          p x ≡ true
          → Memᴰ a (x ∷ select p xs)
          → (Memᴰ a (select p xs) → Memᴰ a xs × (p a ≡ true))
          → Memᴰ a (x ∷ xs) × (p a ≡ true)
      kept e (Memᴰ.head q) ih = (Memᴰ.head q, subst (λ y. p y ≡ true) (sym q) e)
      kept e (Memᴰ.tail later) ih = let (there, q) = ih later in (Memᴰ.tail there, q)

  pub select-Memᴰ : {a : A} (xs : List A) → Memᴰ a xs → p a ≡ true → Memᴰ a (select p xs)
  select-Memᴰ [] m h = elim m [ ]
  select-Memᴰ {a} (x ∷ xs) (Memᴰ.head q) h =
      let passes : p x ≡ true = ground (arith, ap p q) in rw passes (Memᴰ.head q)
  select-Memᴰ {a} (x ∷ xs) (Memᴰ.tail m) h = elim (Bool-cases (p x)) [
    | inl e ↦ rw e (Memᴰ.tail (select-Memᴰ xs m h))
    | inr e ↦ rw e (select-Memᴰ xs m h)
  ]

  pub Memᴰ-any : {a : A} (xs : List A) → Memᴰ a xs → p a ≡ true → any p xs ≡ true
  Memᴰ-any [] m h = elim m [ ]
  Memᴰ-any (x ∷ xs) (Memᴰ.head q) h = ground (arith, ap p q)
  Memᴰ-any (x ∷ xs) (Memᴰ.tail m) h = ground (arith, Memᴰ-any xs m h)

  pub Memᴰ-every : {a : A} (xs : List A) → Memᴰ a xs → every p xs ≡ true → p a ≡ true
  Memᴰ-every [] m h = elim m [ ]
  Memᴰ-every (x ∷ xs) (Memᴰ.head q) h = ground (arith, ap p q)
  Memᴰ-every (x ∷ xs) (Memᴰ.tail m) h = Memᴰ-every xs m (ground arith)

module _ {ℓ} {A : Type ℓ} where
  pub Memᴰ-append : {a : A} (xs ys : List A) → Memᴰ a (xs ++ ys) → Memᴰ a xs ⊎ Memᴰ a ys
  Memᴰ-append [] ys m = inr m
  Memᴰ-append (x ∷ xs) ys (Memᴰ.head q) = inl (Memᴰ.head q)
  Memᴰ-append (x ∷ xs) ys (Memᴰ.tail m) = elim (Memᴰ-append xs ys m) [
    | inl l ↦ inl (Memᴰ.tail l)
    | inr r ↦ inr r
  ]

module _ {ℓ κ} {A : Type ℓ} {B : Type κ} ⦃e : Comparable B⦄ (f : A → B) where
  -- A member of the image comes from a member.
  pub includes-map :
      (xs : List A) (b : B) → includes (map f xs) b ≡ true → (a : A) × Memᴰ a xs × (f a ≡ b)
  includes-map [] b h = ground arith
  includes-map (x ∷ xs) b h = elim (Bool-cases (f x === b)) [
    | inl same ↦ (x, Memᴰ.head refl, (e.equal_iff (f x) b).0 same)
    | inr other ↦ let (a, m, q) = includes-map xs b (ground arith) in (a, Memᴰ.tail m, q)
  ]

  pub map-includes : {a : A} (xs : List A) → Memᴰ a xs → includes (map f xs) (f a) ≡ true
  map-includes [] m = elim m [ ]
  map-includes {a} (x ∷ xs) (Memᴰ.head q) = ground (arith, ap f q, e.equal_iff (f x) (f a))
  map-includes (x ∷ xs) (Memᴰ.tail m) = ground (arith, map-includes xs m)

module _ {ℓ} {A : Type ℓ} where
  pub append-Memᴰ_left : {a : A} (xs ys : List A) → Memᴰ a xs → Memᴰ a (xs ++ ys)
  append-Memᴰ_left [] ys m = elim m [ ]
  append-Memᴰ_left (x ∷ xs) ys (Memᴰ.head q) = Memᴰ.head q
  append-Memᴰ_left (x ∷ xs) ys (Memᴰ.tail m) = Memᴰ.tail (append-Memᴰ_left xs ys m)

  pub append-Memᴰ_right : {a : A} (xs ys : List A) → Memᴰ a ys → Memᴰ a (xs ++ ys)
  append-Memᴰ_right [] ys m = m
  append-Memᴰ_right (x ∷ xs) ys m = Memᴰ.tail (append-Memᴰ_right xs ys m)

module _ {ℓ κ} {A : Type ℓ} {B : Type κ} (f : A → List B) where
  pub flat_map-Memᴰ :
      {a : A} {b : B} (xs : List A) → Memᴰ a xs → Memᴰ b (f a) → Memᴰ b (flat_map f xs)
  unfolding flat_map
  flat_map-Memᴰ [] m n = elim m [ ]
  flat_map-Memᴰ {b = b} (x ∷ xs) (Memᴰ.head q) n =
      append-Memᴰ_left (f x) (flat_map f xs) (subst (λ y. Memᴰ b (f y)) q n)
  flat_map-Memᴰ (x ∷ xs) (Memᴰ.tail m) n =
      append-Memᴰ_right (f x) (flat_map f xs) (flat_map-Memᴰ xs m n)

module _ {ℓ} {A : Type ℓ} where
  pub find-Memᴰ : (p : A → Bool) (xs : List A) (a : A) → find p xs ≡ some a → Memᴰ a xs
  find-Memᴰ p [] a e = ground (arith, e)
  find-Memᴰ p (x ∷ xs) a e = elim (Bool-cases (p x)) [
    | inl h ↦ let same : some x ≡ some a = rw h at e in Memᴰ.head (cc same)
    | inr h ↦ Memᴰ.tail (find-Memᴰ p xs a (rw h at e))
  ]

  pub head-Memᴰ : (xs : List A) (a : A) → head? xs ≡ some a → Memᴰ a xs
  head-Memᴰ [] a e = ground (arith, e)
  head-Memᴰ (x ∷ xs) a e = Memᴰ.head (cc e)

module _ {ℓ κ} {A : Type ℓ} (P : A → Type κ) where
  pub Memᴰ-All : (xs : List A) → ((a : A) → Memᴰ a xs → P a) → All P xs
  Memᴰ-All [] h = tt
  Memᴰ-All (x ∷ xs) h = (h x (Memᴰ.head refl), Memᴰ-All xs (λ a m. h a (Memᴰ.tail m)))
