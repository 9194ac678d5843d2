-- ===== src/Prelude/Pigeonhole.antt =====
-- A list without repetition whose elements all stand in another list is no longer than that list.
use Prim.Native.Nat.{suc, ◌≤◌}
use mathlib.Core.Path.{◌≡◌}
use mathlib.Core.Bool.{true, false}
use mathlib.Core.List.{List, [], ◌∷◌}
use native.Mathlib.Omega.{arith}
use tirion_watch.Prelude.Tests.{if◌then◌else◌}
use tirion_watch.Prelude.Lists.{length, All}
use tirion_watch.Prelude.Equality.{Comparable, ◌===◌}
use tirion_watch.Prelude.Sets.{includes, IsUnique}

module _ {ℓ} {A : Type ℓ} ⦃e : Comparable A⦄ where
  without : A → List A → List A
  without x [] = []
  without x (y ∷ ys) = let rest = y ∷ without x ys in if y === x then ys else rest

  length-without :
      (x : A) (ys : List A) → includes ys x ≡ true → suc (length (without x ys)) ≡ length ys
  unfolding without
  length-without x [] h = ground arith
  length-without x (y ∷ ys) h = ground (arith, length-without x ys)

  includes-without :
      (x a : A) (ys : List A)
      → (x === a) ≡ false
      → includes ys a ≡ true
      → includes (without x ys) a ≡ true
  unfolding without
  includes-without x a [] n h = h
  includes-without x a (y ∷ ys) n h =
      ground (arith, includes-without x a ys n, e.equal_iff y x, e.equal_iff y a, e.equal_iff x a)

  All-without :
      (x : A) (xs ys : List A)
      → includes xs x ≡ false
      → All (λ a. includes ys a ≡ true) xs
      → All (λ a. includes (without x ys) a ≡ true) xs
  All-without x [] ys n h = tt
  All-without x (a ∷ xs) ys n h = (
    ground (arith, includes-without x a ys, e.equal_iff x a, e.equal_iff a x, n, h.0),
    All-without x xs ys (ground (arith, n)) h.1,
  )

  pub IsUnique-length-le :
      (xs ys : List A) → IsUnique xs → All (λ a. includes ys a ≡ true) xs → length xs ≤ length ys
  IsUnique-length-le [] ys u h = omega arith
  IsUnique-length-le (x ∷ xs) ys u h = omega (
    arith,
    length-without x ys h.0,
    IsUnique-length-le xs (without x ys) u.1 (All-without x xs ys u.0 h.1),
  )
