-- ===== src/Prelude/Sorting.antt =====
-- `Array.prototype.sort`: the stable sort by a comparison, here by insertion. `le x y` says that
-- the comparison of `x` with `y` is not positive.
use Prim.Native.Nat.{suc}
use mathlib.Core.Path.{◌≡◌, refl, ◌∙◌}
use mathlib.Core.Bool.{Bool, true, false, ◌||◌}
use mathlib.Core.List.Perm
use mathlib.Core.List.{List, [], ◌∷◌, Perm}
use native.Mathlib.Omega.{arith}
use tirion_watch.Prelude.Tests.{if◌then◌else◌}
use tirion_watch.Prelude.Lists.{length, All, any, is_nil}
use tirion_watch.Prelude.Equality.{Comparable}
use tirion_watch.Prelude.Sets.{includes, IsUnique}

module _ {ℓ} {A : Type ℓ} (le : A → A → Bool) where
  unfoldable pub insert_sorted : A → List A → List A
  insert_sorted x [] = x ∷ []
  insert_sorted x (y ∷ ys) =
      let later = y ∷ insert_sorted x ys in if le x y then x ∷ y ∷ ys else later

  unfoldable pub sort_by : List A → List A
  unfolding insert_sorted
  sort_by [] = []
  sort_by (x ∷ xs) = insert_sorted x (sort_by xs)

  -- Each element stands before all that follow it.
  abbrev pub IsSorted : List A → Type ℓ
  IsSorted [] = Unit
  IsSorted (x ∷ xs) = All (λ y. le x y ≡ true) xs × IsSorted xs

module _ {ℓ} {A : Type ℓ} (le : A → A → Bool) where
  insert_sorted-perm : (x : A) (xs : List A) → Perm (insert_sorted le x xs) (x ∷ xs)
  unfolding insert_sorted
  insert_sorted-perm x [] = Perm.refl _
  insert_sorted-perm x (y ∷ ys) =
      let moved = Perm.trans (Perm.cons y (insert_sorted-perm x ys)) (Perm.swap x y ys) in
      ground (arith, moved, Perm.refl (x ∷ y ∷ ys))

  -- Sorting rearranges the elements.
  pub sort_by-perm : (xs : List A) → Perm (sort_by le xs) xs
  unfolding sort_by
  sort_by-perm [] = Perm.refl _
  sort_by-perm (x ∷ xs) =
      Perm.trans (insert_sorted-perm x (sort_by le xs)) (Perm.cons x (sort_by-perm xs))

  any-insert_sorted :
      (p : A → Bool) (x : A) (xs : List A) → any p (insert_sorted le x xs) ≡ (p x || any p xs)
  unfolding insert_sorted
  any-insert_sorted p x [] = refl
  any-insert_sorted p x (y ∷ ys) = ground (arith, any-insert_sorted p x ys)

  pub any-sort_by : (p : A → Bool) (xs : List A) → any p (sort_by le xs) ≡ any p xs
  unfolding sort_by
  any-sort_by p [] = refl
  any-sort_by p (x ∷ xs) = ground (arith, any-insert_sorted p x (sort_by le xs), any-sort_by p xs)

  length-insert_sorted : (x : A) (xs : List A) → length (insert_sorted le x xs) ≡ suc (length xs)
  unfolding insert_sorted
  length-insert_sorted x [] = refl
  length-insert_sorted x (y ∷ ys) = ground (arith, length-insert_sorted x ys)

  pub length-sort_by : (xs : List A) → length (sort_by le xs) ≡ length xs
  unfolding sort_by
  length-sort_by [] = refl
  length-sort_by (x ∷ xs) =
      ground (arith, length-insert_sorted x (sort_by le xs), length-sort_by xs)

  is_nil-insert_sorted : (x : A) (xs : List A) → is_nil (insert_sorted le x xs) ≡ false
  unfolding insert_sorted
  is_nil-insert_sorted x [] = refl
  is_nil-insert_sorted x (y ∷ ys) = ground arith

  pub is_nil-sort_by : (xs : List A) → is_nil (sort_by le xs) ≡ is_nil xs
  unfolding sort_by
  is_nil-sort_by [] = refl
  is_nil-sort_by (x ∷ xs) = is_nil-insert_sorted x (sort_by le xs)

  module _ {κ} (P : A → Type κ) where
    All-insert_sorted : (x : A) (xs : List A) → P x → All P xs → All P (insert_sorted le x xs)
    unfolding insert_sorted
    All-insert_sorted x [] p h = (p, tt)
    All-insert_sorted x (y ∷ ys) p h = ground (arith, All-insert_sorted x ys p h.1)

    pub All-sort_by : (xs : List A) → All P xs → All P (sort_by le xs)
    unfolding sort_by
    All-sort_by [] h = tt
    All-sort_by (x ∷ xs) h = All-insert_sorted x (sort_by le xs) h.0 (All-sort_by xs h.1)

  module _ (total : (x y : A) → (le x y || le y x) ≡ true)
      (trans : (x y z : A) → le x y ≡ true → le y z ≡ true → le x z ≡ true) where
    All-le_trans :
        (x y : A) (ys : List A)
        → le x y ≡ true
        → All (λ z. le y z ≡ true) ys
        → All (λ z. le x z ≡ true) ys
    All-le_trans x y [] h k = tt
    All-le_trans x y (z ∷ zs) h k = (trans x y z h k.0, All-le_trans x y zs h k.1)

    insert_sorted-IsSorted :
        (x : A) (xs : List A) → IsSorted le xs → IsSorted le (insert_sorted le x xs)
    unfolding insert_sorted
    insert_sorted-IsSorted x [] h = (tt, tt)
    insert_sorted-IsSorted x (y ∷ ys) h = ground (
      arith,
      total x y,
      All-le_trans x y ys,
      All-insert_sorted (λ (z : A). le y z ≡ true) x ys,
      insert_sorted-IsSorted x ys h.1,
    )

    -- By a total and transitive comparison the result is in order.
    pub sort_by-IsSorted : (xs : List A) → IsSorted le (sort_by le xs)
    unfolding sort_by
    sort_by-IsSorted [] = tt
    sort_by-IsSorted (x ∷ xs) = insert_sorted-IsSorted x (sort_by le xs) (sort_by-IsSorted xs)

module _ {ℓ} {A : Type ℓ} ⦃e : Comparable A⦄ (le : A → A → Bool) where
  includes-insert_sorted :
      (x : A) (xs : List A) (a : A) → includes (insert_sorted le x xs) a ≡ includes (x ∷ xs) a
  unfolding insert_sorted
  includes-insert_sorted x [] a = refl
  includes-insert_sorted x (y ∷ ys) a = ground (arith, includes-insert_sorted x ys a)

  pub includes-sort_by : (xs : List A) (a : A) → includes (sort_by le xs) a ≡ includes xs a
  unfolding sort_by
  includes-sort_by [] a = refl
  includes-sort_by (x ∷ xs) a =
      ground (arith, includes-insert_sorted x (sort_by le xs) a, includes-sort_by xs a)

  insert_sorted-IsUnique :
      (x : A) (xs : List A) → includes xs x ≡ false → IsUnique xs → IsUnique (insert_sorted le x xs)
  unfolding insert_sorted
  insert_sorted-IsUnique x [] n u = (refl, tt)
  insert_sorted-IsUnique x (y ∷ ys) n u = ground (
    arith,
    insert_sorted-IsUnique x ys,
    includes-insert_sorted x ys y,
    e.equal_iff x y,
    e.equal_iff y x,
  )

  pub sort_by-IsUnique : (xs : List A) → IsUnique xs → IsUnique (sort_by le xs)
  unfolding sort_by
  sort_by-IsUnique [] u = tt
  sort_by-IsUnique (x ∷ xs) u =
      insert_sorted-IsUnique x (sort_by le xs) (includes-sort_by xs x ∙ u.0)
        (sort_by-IsUnique xs u.1)
