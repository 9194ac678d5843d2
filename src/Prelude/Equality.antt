-- ===== src/Prelude/Equality.antt =====
-- `===` as an interface: a Boolean test that decides equality.
use Prim.Native.Nat.{ℕ}
use Prim.Native.String.{String}
use mathlib.Core.Path.{◌≡◌}
use mathlib.Core.Logic.{◌↔◌}
use mathlib.Core.Bool.{Bool, true, false}
use mathlib.Core.Option.{Option, none, some}
use mathlib.Core.Bool.{decide, decide_iff}
use native.Mathlib.Omega.{arith}
use text.Mathlib.Text.{◌==◌ as text_equal}
use text.Mathlib.TextEquality.{eq_iff}
use tirion_watch.Prelude.Tests.{eqb}

pub record Comparable {ℓ} (A : Type ℓ) : Type ℓ where
  pub equal : A → A → Bool
  pub equal_iff : (a b : A) → (equal a b ≡ true) ↔ (a ≡ b)

infix 50 ◌===◌
abbrev pub ◌===◌ {ℓ} : {A : Type ℓ} ⦃e : Comparable A⦄ → A → A → Bool
◌===◌ ⦃e⦄ = e.equal

pub eqb_iff : (a b : ℕ) → (eqb a b ≡ true) ↔ (a ≡ b)
eqb_iff a b = ground arith

instance abbrev pub number_comparable : Comparable ℕ
number_comparable = record { equal = eqb; equal_iff = eqb_iff }

instance abbrev pub text_comparable : Comparable String
text_comparable = record { equal = text_equal; equal_iff = eq_iff }

module _ {ℓ} {A : Type ℓ} ⦃e : Comparable A⦄ where
  abbrev pub option_equal : Option A → Option A → Bool
  option_equal none none = true
  option_equal (some a) (some b) = a === b
  option_equal _ _ = false

  pub option_equal_iff : (a b : Option A) → (option_equal a b ≡ true) ↔ (a ≡ b)
  option_equal_iff none none = ground arith
  option_equal_iff none (some b) = ground arith
  option_equal_iff (some a) none = ground arith
  option_equal_iff (some a) (some b) = ground (arith, e.equal_iff a b)

  instance abbrev pub option_comparable : Comparable (Option A)
  option_comparable = record { equal = option_equal; equal_iff = option_equal_iff }

-- The test of a type whose equality is decided.
abbrev pub comparable_of_discrete {ℓ} : {A : Type ℓ} → Discrete A → Comparable A
unfolding decide
comparable_of_discrete d = record {
  equal = λ a b. decide (d a b);
  equal_iff = λ a b. decide_iff (d a b);
}
