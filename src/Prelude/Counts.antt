-- ===== src/Prelude/Counts.antt =====
-- How many items of a list pass a test.
use Prim.Native.Nat.{ℕ, ◌+◌}
use mathlib.Core.Path.{◌≡◌, refl}
use mathlib.Core.Bool.{Bool}
use mathlib.Core.List.{List, [], ◌∷◌, ◌++◌}
use native.Mathlib.Omega.{arith}
use tirion_watch.Prelude.Tests.{if◌then◌else◌, if_ind}
use tirion_watch.Prelude.Sorting.{sort_by, insert_sorted}

module _ {A : Type 0} (p : A → Bool) where
  abbrev pub how_many : List A → ℕ
  how_many [] = 0
  how_many (x ∷ xs) = (if p x then 1 else 0) + how_many xs

  pub how_many-append : (xs ys : List A) → how_many (xs ++ ys) ≡ how_many xs + how_many ys
  how_many-append [] ys = omega arith
  how_many-append (x ∷ xs) ys = omega (arith, how_many-append xs ys)

  how_many-insert_sorted :
      (le : A → A → Bool) (x : A) (xs : List A)
      → how_many (insert_sorted le x xs) ≡ (if p x then 1 else 0) + how_many xs
  unfolding insert_sorted
  how_many-insert_sorted le x [] = refl
  how_many-insert_sorted le x (y ∷ ys) =
      if_ind (λ zs. how_many zs ≡ (if p x then 1 else 0) + ((if p y then 1 else 0) + how_many ys))
        (le x y) (λ e. refl) (λ e. omega (arith, how_many-insert_sorted le x ys))

  pub how_many-sort_by : (le : A → A → Bool) (xs : List A) → how_many (sort_by le xs) ≡ how_many xs
  unfolding sort_by
  how_many-sort_by le [] = refl
  how_many-sort_by le (x ∷ xs) =
      omega (arith, how_many-insert_sorted le x (sort_by le xs), how_many-sort_by le xs)
