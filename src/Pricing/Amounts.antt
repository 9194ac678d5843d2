-- ===== src/Pricing/Amounts.antt =====
-- The amount of an estimate against the exact cost by the rates of a row.
use tirion_watch.Prelude.{
  ℕ, zero, suc, false, ◌+◌, ◌*◌, ◌≤◌, ◌<◌, Option, none, some, ◌≡◌, eqb, eqb→eq, Bool-cases, inl,
  inr, String, get_or, arith,
}
use tirion_watch.Pricing.Model.{ModelPricing, PricingCatalog}
use tirion_watch.Pricing.Floats.{FloatHost, safe_limit, IsDouble}
use tirion_watch.Pricing.Accounting.{TokenBreakdown}
use tirion_watch.Pricing.Row.{PricingFound}
use tirion_watch.Pricing.Estimate.{
  rounded_price, price_component, non_cached_input, resolve_billed_output_tokens, components,
  build_estimate, estimate_match,
}

-- The price of tokens in thousandths of a billionth of a USD; without a rate it counts nothing.
abbrev pub exact_price : ℕ → Option ℕ → ℕ
exact_price tokens none = 0
exact_price tokens (some rate) = tokens * rate

abbrev pub exact_cost : TokenBreakdown → ModelPricing → ℕ
exact_cost tokens r =
    exact_price (non_cached_input tokens) (some r.input_usd_per_million)
    + exact_price (get_or tokens.cache_read_input_tokens 0) r.cached_input_usd_per_million
    + exact_price (get_or tokens.cache_creation_input_tokens 0) r.cache_creation_usd_per_million
    + exact_price (resolve_billed_output_tokens tokens) (some r.output_usd_per_million)

-- The tokens that are charged, in all categories.
abbrev pub charged_tokens : TokenBreakdown → ℕ
charged_tokens tokens =
    non_cached_input tokens
    + get_or tokens.cache_read_input_tokens 0
    + get_or tokens.cache_creation_input_tokens 0
    + resolve_billed_output_tokens tokens

-- Below it the errors of the roundings stay below a thousandth of a billionth of a USD. It is about
-- 281 USD.
abbrev pub cost_limit : ℕ
cost_limit = 281474976710656

-- The price of one category is at most half a billionth of a USD off.
abbrev IsClose : ℕ → ℕ → Type 0
IsClose nano exact = (1000 * nano ≤ exact + 500) × (exact ≤ 1000 * nano + 500)

-- The rate of a price that is small is small.
rate_small : (t r : ℕ) → eqb t 0 ≡ false → t * r < cost_limit → r < safe_limit
rate_small zero r e h = absurd (ground (arith, e))
rate_small (suc t) r e h = grind arith

module _ (floats : FloatHost) (double : IsDouble floats) where
  in_thousandths :
      (t r : ℕ) → (t * r * 1000000000 * 1) * 1000 ≡ (t * r) * (1 * 1000000 * 1 * 1000000)
  in_thousandths t r = grind arith

  rounded_price-IsClose :
      (t r : ℕ)
      → t < safe_limit
      → r < safe_limit
      → t * r < cost_limit
      → IsClose (rounded_price floats t r) (t * r)
  unfolding rounded_price
  rounded_price-IsClose t r safe published small =
      let count = floats.of_count t in
      let rate = floats.of_rate r in
      let nano = floats.of_count 1000000000 in
      let million = floats.of_count 1000000 in
      let priced =
        double.near_times count rate t 1 r 1000000 0 1 (omega arith, omega arith, omega arith)
          (double.near_count t safe) (double.near_rate r published) in
      let scaled =
        double.near_times (floats.times count rate) nano (t * r) (1 * 1000000) 1000000000 1 2 0
          (omega arith, omega arith, omega arith) priced
          (double.near_count 1000000000 (omega arith)) in
      let quotient =
        double.near_over (floats.times (floats.times count rate) nano) million (t * r * 1000000000)
          (1 * 1000000 * 1) 1000000 1 3 0 (omega arith) (omega arith, omega arith, omega arith)
          scaled (double.near_count 1000000 (omega arith)) in
      let x = floats.over (floats.times (floats.times count rate) nano) million in
      let reduced =
        double.near_equal x (t * r * 1000000000 * 1) (1 * 1000000 * 1 * 1000000) (t * r) 1000 4
          (omega arith) (omega arith) (in_thousandths t r) quotient in
      let (low, high) = double.near_round x (t * r) 1000 4 (omega arith) (omega arith) reduced in
      (omega (arith, low, high), omega (arith, low, high))

  price_component-IsClose :
      (tokens : ℕ) (rate : Option ℕ)
      → tokens < safe_limit
      → exact_price tokens rate < cost_limit
      → IsClose (price_component floats tokens rate).estimated_nano_usd (exact_price tokens rate)
  unfolding price_component
  price_component-IsClose tokens none safe small = elim (Bool-cases (eqb tokens 0)) [
    | inl e ↦ rw e (omega arith, omega arith)
    | inr e ↦ rw e (omega arith, omega arith)
  ]
  price_component-IsClose tokens (some rate) safe small = elim (Bool-cases (eqb tokens 0)) [
    | inl e ↦ rw e (omega arith, nothing (eqb→eq tokens 0 e))
    | inr e ↦ rw e (rounded_price-IsClose tokens rate safe (rate_small tokens rate e small) small)
  ]
    where
      nothing : tokens ≡ 0 → tokens * rate ≤ 1000 * 0 + 500
      nothing z = rw z (omega arith)

  -- In the arithmetic of doubles, for a usage of fewer than 2 to the power of 53 tokens whose exact
  -- cost by the rates of the row is below 281 USD: the amount, counted in thousandths, differs from
  -- the exact cost by at most 2000, half a billionth of a USD for each of the four parts.
  pub estimate_match_bounds :
      (catalog : PricingCatalog) (model : String) (tokens : TokenBreakdown) (found : PricingFound)
      → charged_tokens tokens < safe_limit
      → exact_cost tokens found.pricing < cost_limit
      → (1000 * (estimate_match catalog floats model tokens found).estimated_nano_usd
          ≤ exact_cost tokens found.pricing + 2000)
        × (exact_cost tokens found.pricing
            ≤ 1000 * (estimate_match catalog floats model tokens found).estimated_nano_usd + 2000)
  unfolding estimate_match build_estimate components
  estimate_match_bounds catalog model tokens found safe small =
      let row = found.pricing in
      let a =
        price_component-IsClose (non_cached_input tokens) (some row.input_usd_per_million)
          (omega arith) (omega arith) in
      let b =
        price_component-IsClose (get_or tokens.cache_read_input_tokens 0)
          row.cached_input_usd_per_million (omega arith) (omega arith) in
      let c =
        price_component-IsClose (get_or tokens.cache_creation_input_tokens 0)
          row.cache_creation_usd_per_million (omega arith) (omega arith) in
      let d =
        price_component-IsClose (resolve_billed_output_tokens tokens)
          (some row.output_usd_per_million) (omega arith) (omega arith) in
      (omega (arith, a, b, c, d), omega (arith, a, b, c, d))
