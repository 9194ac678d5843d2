-- ===== src/Prelude/Sets.antt =====
-- `includes` and `Set.has`, and `[...new Set(values)]`, which keeps the first of equal values.
use mathlib.Core.Path.{◌≡◌, refl}
use mathlib.Core.Bool.{Bool, false, not, ◌&&◌, ◌||◌}
use mathlib.Core.List.{List, [], ◌∷◌, ◌++◌}
use native.Mathlib.Omega.{arith}
use tirion_watch.Prelude.Tests.{if◌then◌else◌}
use tirion_watch.Prelude.Lists.{select, is_nil}
use tirion_watch.Prelude.Equality.{Comparable, ◌===◌}

module _ {ℓ} {A : Type ℓ} ⦃e : Comparable A⦄ where
  abbrev pub includes : List A → A → Bool
  includes [] a = false
  includes (x ∷ xs) a = x === a || includes xs a

  pub includes-append :
      (xs ys : List A) (a : A) → includes (xs ++ ys) a ≡ (includes xs a || includes ys a)
  includes-append [] ys a = refl
  includes-append (x ∷ xs) ys a = ground (arith, includes-append xs ys a)

  pub includes-select :
      (p : A → Bool) (xs : List A) (a : A) → includes (select p xs) a ≡ (includes xs a && p a)
  includes-select p [] a = refl
  includes-select p (x ∷ xs) a = ground (arith, includes-select p xs a, e.equal_iff x a)

  -- `[...new Set(values)]`: the walk carries the values seen so far.
  dedup_from : List A → List A → List A
  dedup_from seen [] = []
  dedup_from seen (x ∷ xs) =
      let again = dedup_from seen xs in
      let first = x ∷ dedup_from (x ∷ seen) xs in if includes seen x then again else first

  unfoldable pub dedup : List A → List A
  unfolding dedup_from
  dedup xs = dedup_from [] xs

  abbrev pub IsUnique : List A → Type 0
  IsUnique [] = Unit
  IsUnique (x ∷ xs) = (includes xs x ≡ false) × IsUnique xs

  includes-dedup_from :
      (seen xs : List A) (a : A)
      → includes (dedup_from seen xs) a ≡ (not (includes seen a) && includes xs a)
  unfolding dedup_from
  includes-dedup_from seen [] a = ground arith
  includes-dedup_from seen (x ∷ xs) a =
      ground
        (arith, includes-dedup_from seen xs a, includes-dedup_from (x ∷ seen) xs a, e.equal_iff x a)

  pub includes-dedup : (xs : List A) (a : A) → includes (dedup xs) a ≡ includes xs a
  unfolding dedup
  includes-dedup xs a = includes-dedup_from [] xs a

  dedup_from-IsUnique : (seen xs : List A) → IsUnique (dedup_from seen xs)
  unfolding dedup_from
  dedup_from-IsUnique seen [] = tt
  dedup_from-IsUnique seen (x ∷ xs) = ground (
    arith,
    dedup_from-IsUnique seen xs,
    dedup_from-IsUnique (x ∷ seen) xs,
    includes-dedup_from (x ∷ seen) xs x,
    e.equal_iff x x,
  )

  pub dedup-IsUnique : (xs : List A) → IsUnique (dedup xs)
  unfolding dedup
  dedup-IsUnique xs = dedup_from-IsUnique [] xs

  pub is_nil-dedup : (xs : List A) → is_nil (dedup xs) ≡ is_nil xs
  unfolding dedup dedup_from
  is_nil-dedup [] = refl
  is_nil-dedup (x ∷ xs) = refl
