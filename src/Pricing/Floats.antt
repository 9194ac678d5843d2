-- ===== src/Pricing/Floats.antt =====
-- The floating-point arithmetic of the host, which src/pricing/costEstimation.ts computes prices with.
use tirion_watch.Prelude.{ℕ, ◌+◌, ◌*◌, ◌≤◌, ◌<◌, ◌≡◌}

-- A number is a double. A rate is given in millionths of a USD, and stands for its decimal literal.
pub record FloatHost : Type 1 where
  pub Number : Type 0
  pub of_count : ℕ → Number
  pub of_rate : ℕ → Number
  -- `x * y`, `x / y` and `Math.round(x)`.
  pub times : Number → Number → Number
  pub over : Number → Number → Number
  pub round : Number → ℕ

-- Whole numbers below it are doubles.
abbrev pub safe_limit : ℕ
safe_limit = 9007199254740992

-- A quotient of two whole numbers below it neither overflows nor underflows: 2 to the power of 106.
abbrev pub magnitude_limit : ℕ
magnitude_limit = 81129638414606681695789005144064

-- The arithmetic of IEEE 754. `near x n d k` says that `x` is the quotient of `n` by `d` but for the
-- relative errors of `k` roundings, each at most 2 to the power of -53. A count is exact, a literal is
-- rounded once, and an operation adds one rounding. `Math.round` gives a whole number nearest to the
-- quotient, either of the two where the quotient lies half-way, as long as the errors stay below the
-- distance of any other quotient by `d` from half-way.
pub record IsDouble (f : FloatHost) : Type 1 where
  pub near : f.Number → ℕ → ℕ → ℕ → Type 0
  pub near_count : (n : ℕ) → n < safe_limit → near (f.of_count n) n 1 0
  pub near_rate : (r : ℕ) → r < safe_limit → near (f.of_rate r) r 1000000 1
  pub near_times :
      (x y : f.Number) (a b c d j k : ℕ)
      → (a * c < magnitude_limit) × (b * d < magnitude_limit) × (j + k < 100)
      → near x a b j
      → near y c d k
      → near (f.times x y) (a * c) (b * d) (j + k + 1)
  pub near_over :
      (x y : f.Number) (a b c d j k : ℕ)
      → 0 < c
      → (a * d < magnitude_limit) × (b * c < magnitude_limit) × (j + k < 100)
      → near x a b j
      → near y c d k
      → near (f.over x y) (a * d) (b * c) (j + k + 1)
  pub near_equal :
      (x : f.Number) (a b c d k : ℕ) → 0 < b → 0 < d → a * d ≡ c * b → near x a b k → near x c d k
  pub near_round :
      (x : f.Number) (n d k : ℕ)
      → 0 < d
      → n * k < 1125899906842624
      → near x n d k
      → (2 * n ≤ d * (2 * f.round x + 1)) × (d * (2 * f.round x) ≤ 2 * n + d)
