-- ===== src/Prelude/Searches.antt =====
-- The first result that a loop returns at, and the members of a sorted list.
use mathlib.Core.Path.{◌≡◌, refl, sym, subst}
use mathlib.Core.Logic.{inl, inr}
use mathlib.Core.Bool.{Bool, true}
use mathlib.Core.Option.{Option, none, some}
use mathlib.Core.List.{List, [], ◌∷◌, Memᴰ}
use native.Mathlib.Omega.{arith}
use tirion_watch.Prelude.Tests.{is_some, or_else, Option-cases, if_ind}
use tirion_watch.Prelude.Lists.{All}
use tirion_watch.Prelude.Sorting.{insert_sorted, sort_by, IsSorted}

abbrev pub first_some {ℓ κ} : {A : Type ℓ} {B : Type κ} → (A → Option B) → List A → Option B
first_some f [] = none
first_some f (x ∷ xs) = or_else (f x) (first_some f xs)

module _ {ℓ} {A : Type ℓ} (le : A → A → Bool) where
  insert_sorted-Memᴰ_new : {x : A} (xs : List A) → Memᴰ x (insert_sorted le x xs)
  unfolding insert_sorted
  insert_sorted-Memᴰ_new [] = Memᴰ.head refl
  insert_sorted-Memᴰ_new {x} (y ∷ ys) =
      if_ind (Memᴰ x) (le x y) (λ e. Memᴰ.head refl) (λ e. Memᴰ.tail (insert_sorted-Memᴰ_new ys))

  insert_sorted-Memᴰ_old :
      {a : A} (x : A) (xs : List A) → Memᴰ a xs → Memᴰ a (insert_sorted le x xs)
  unfolding insert_sorted
  insert_sorted-Memᴰ_old x [] m = elim m [ ]
  insert_sorted-Memᴰ_old {a} x (y ∷ ys) (Memᴰ.head q) =
      if_ind (Memᴰ a) (le x y) (λ e. Memᴰ.tail (Memᴰ.head q)) (λ e. Memᴰ.head q)
  insert_sorted-Memᴰ_old {a} x (y ∷ ys) (Memᴰ.tail m) =
      if_ind (Memᴰ a) (le x y) (λ e. Memᴰ.tail (Memᴰ.tail m))
        (λ e. Memᴰ.tail (insert_sorted-Memᴰ_old x ys m))

  -- Sorting loses no element.
  pub sort_by-Memᴰ : {a : A} (xs : List A) → Memᴰ a xs → Memᴰ a (sort_by le xs)
  unfolding sort_by
  sort_by-Memᴰ [] m = elim m [ ]
  sort_by-Memᴰ (x ∷ xs) (Memᴰ.head q) =
      subst (λ b. Memᴰ b (insert_sorted le x (sort_by le xs))) (sym q)
        (insert_sorted-Memᴰ_new (sort_by le xs))
  sort_by-Memᴰ (x ∷ xs) (Memᴰ.tail m) = insert_sorted-Memᴰ_old x (sort_by le xs) (sort_by-Memᴰ xs m)

  Memᴰ-insert_sorted :
      {a : A} (x : A) (xs : List A) → Memᴰ a (insert_sorted le x xs) → Memᴰ a (x ∷ xs)
  unfolding insert_sorted
  Memᴰ-insert_sorted x [] = λ m. m
  Memᴰ-insert_sorted {a} x (y ∷ ys) =
      if_ind (λ zs. Memᴰ a zs → Memᴰ a (x ∷ y ∷ ys)) (le x y) (λ e m. m)
        (λ e m. second (Memᴰ-insert_sorted x ys) m)
    where
      second :
          (Memᴰ a (insert_sorted le x ys) → Memᴰ a (x ∷ ys))
          → Memᴰ a (y ∷ insert_sorted le x ys)
          → Memᴰ a (x ∷ y ∷ ys)
      second earlier (Memᴰ.head q) = Memᴰ.tail (Memᴰ.head q)
      second earlier (Memᴰ.tail m) = elim (earlier m) [
        | Memᴰ.head q ↦ Memᴰ.head q
        | Memᴰ.tail n ↦ Memᴰ.tail (Memᴰ.tail n)
      ]

  -- Sorting invents no element.
  pub Memᴰ-sort_by : {a : A} (xs : List A) → Memᴰ a (sort_by le xs) → Memᴰ a xs
  unfolding sort_by
  Memᴰ-sort_by [] m = m
  Memᴰ-sort_by (x ∷ xs) m = elim (Memᴰ-insert_sorted x (sort_by le xs) m) [
    | Memᴰ.head q ↦ Memᴰ.head q
    | Memᴰ.tail n ↦ Memᴰ.tail (Memᴰ-sort_by xs n)
  ]

module _ {ℓ κ} {A : Type ℓ} {B : Type κ} (f : A → Option B) where
  -- The search fails only where every element fails.
  pub first_some-none : (xs : List A) → first_some f xs ≡ none → All (λ x. f x ≡ none) xs
  first_some-none [] h = tt
  first_some-none (x ∷ xs) h = ground (arith, first_some-none xs)

  module _ (le : A → A → Bool) (le_refl : (x : A) → le x x ≡ true) where
    -- In a sorted list the search finds an element that stands before all others with a result.
    pub first_some-first :
        (xs : List A) (b : B)
        → IsSorted le xs
        → first_some f xs ≡ some b
        → (a : A) × Memᴰ a xs × (f a ≡ some b) × All (λ z. is_some (f z) ≡ true → le a z ≡ true) xs
    first_some-first [] b s h = ground arith
    first_some-first (x ∷ xs) b s h = elim (Option-cases (f x)) [
      | inl e ↦
          let (a, m, q, first) = first_some-first xs b s.1 (ground arith) in
          (a, Memᴰ.tail m, q, ((λ found. ground arith), first))
      | inr (c, e) ↦ (x, Memᴰ.head refl, ground arith, ((λ found. le_refl x), weaken xs s.0))
    ]
      where
        weaken :
            (ys : List A)
            → All (λ y. le x y ≡ true) ys
            → All (λ z. is_some (f z) ≡ true → le x z ≡ true) ys
        weaken [] t = tt
        weaken (y ∷ ys) t = ((λ found. t.0), weaken ys t.1)
