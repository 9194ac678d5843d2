-- ===== src/Prelude/Runtime.antt =====
-- What the JavaScript host supplies and no source file defines: the reading of date texts and the
-- collation of `localeCompare`. Both depend on the host's implementation.
use Prim.Native.Nat.{ℕ, ◌+◌, Ordering}
use Prim.Native.String.{String}
use mathlib.Core.Bool.{Bool, true, false}
use mathlib.Core.Option.{Option, some}
use tirion_watch.Prelude.Tests.{ltb, leb}

pub record Host : Type 0 where
  -- `new Date(text).getTime()` and `Date.parse(text)`, in milliseconds; `none` is `NaN`.
  pub get_time : String → Option ℕ
  pub locale_compare : String → String → Ordering

-- What the host does with a text by its Unicode tables and its regular expressions.
pub record TextHost : Type 0 where
  pub to_lower_case : String → String
  -- `new RegExp(pattern, "i").test(text)`, the pattern first; `none` is a pattern that it refuses.
  pub regexp_test : String → String → Option Bool

-- Comparisons of numbers that may be `NaN`: with `NaN` each is false.
abbrev pub time_ltb : Option ℕ → Option ℕ → Bool
time_ltb (some a) (some b) = ltb a b
time_ltb _ _ = false

abbrev pub time_leb : Option ℕ → Option ℕ → Bool
time_leb (some a) (some b) = leb a b
time_leb _ _ = false

-- `a - b > span`
abbrev pub time_exceeds : Option ℕ → Option ℕ → ℕ → Bool
time_exceeds (some a) (some b) span = ltb (b + span) a
time_exceeds _ _ _ = false

abbrev pub is_before : Ordering → Bool
is_before Ordering.lt = true
is_before _ = false

abbrev pub is_same : Ordering → Bool
is_same Ordering.eq = true
is_same _ = false

-- `first || second`, for comparison results
abbrev pub then_by : Ordering → Ordering → Ordering
then_by Ordering.eq second = second
then_by Ordering.lt second = Ordering.lt
then_by Ordering.gt second = Ordering.gt

-- Not positive, as a test for `sort`.
abbrev pub at_most : Ordering → Bool
at_most Ordering.gt = false
at_most _ = true
