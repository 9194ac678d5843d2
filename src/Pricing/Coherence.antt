-- ===== src/Pricing/Coherence.antt =====
-- The published tables: their ranges of input tokens.
use mathlib.Core.List.{Memᴰ}
use tirion_watch.Prelude.{
  ℕ, suc, String, Option, none, some, List, ◌≡◌, refl, Bool, true, ◌&&◌, ◌||◌, inl, inr, Bool-cases,
  every, any, any-Memᴰ, Memᴰ-any, Memᴰ-every, leb, get_or, ◌===◌, text_comparable, arith,
  option_comparable, number_comparable, option_equal_iff, and_left, and_right,
}
use tirion_watch.Pricing.Model.{
  BillingContextId, github_copilot, openai_direct, anthropic_direct, cursor, ModelPricing,
}
use tirion_watch.Pricing.Accounting.{TokenBreakdown}
use tirion_watch.Pricing.Row.{matches_token_range}
use tirion_watch.Pricing.Catalog.{pricing_catalog_for_billing_context}

-- A row for a pattern with the given bounds.
has_bounds : String → Option ℕ → Option ℕ → ModelPricing → Bool
has_bounds p least most s =
    s.model_pattern === p && s.min_input_tokens === least && s.max_input_tokens === most

-- A row without bounds, or two rows that meet behind `m`.
meets_at : List ModelPricing → ModelPricing → ℕ → Bool
unfolding has_bounds
meets_at table r m =
    any (has_bounds r.model_pattern none (some m)) table
    && any (has_bounds r.model_pattern (some (suc m)) none) table

is_served : List ModelPricing → ModelPricing → Bool
unfolding meets_at has_bounds
is_served table r =
    any (has_bounds r.model_pattern none none) table
    || meets_at table r 200000
    || meets_at table r 272000

catalog-every-is_served :
    (c : BillingContextId)
    → every
        (is_served (pricing_catalog_for_billing_context c).pricing_table)
        (pricing_catalog_for_billing_context c).pricing_table
      ≡ true
unfolding pricing_catalog_for_billing_context is_served
catalog-every-is_served github_copilot = refl
catalog-every-is_served openai_direct = refl
catalog-every-is_served anthropic_direct = refl
catalog-every-is_served cursor = refl

abbrev pub fits : ModelPricing → TokenBreakdown → ModelPricing → Bool
fits r tokens s = s.model_pattern === r.model_pattern && matches_token_range s tokens

has_bounds-fits :
    (r s : ModelPricing) (tokens : TokenBreakdown) (least most : Option ℕ)
    → has_bounds r.model_pattern least most s ≡ true
    → leb (get_or least 0) (get_or tokens.input_tokens 0) ≡ true
    → leb (get_or tokens.input_tokens 0) (get_or most (get_or tokens.input_tokens 0)) ≡ true
    → fits r tokens s ≡ true
unfolding has_bounds matches_token_range
has_bounds-fits r s tokens least most h low high = ground (
  arith,
  option_equal_iff s.min_input_tokens least,
  option_equal_iff s.max_input_tokens most,
  h,
  low,
  high,
)

any-fits :
    (table : List ModelPricing) (r : ModelPricing) (tokens : TokenBreakdown) (least most : Option ℕ)
    → any (has_bounds r.model_pattern least most) table ≡ true
    → leb (get_or least 0) (get_or tokens.input_tokens 0) ≡ true
    → leb (get_or tokens.input_tokens 0) (get_or most (get_or tokens.input_tokens 0)) ≡ true
    → any (fits r tokens) table ≡ true
any-fits table r tokens least most h low high =
    let (s, m, q) = any-Memᴰ (has_bounds r.model_pattern least most) table h in
    Memᴰ-any (fits r tokens) table m (has_bounds-fits r s tokens least most q low high)

meets_at-fits :
    (table : List ModelPricing) (r : ModelPricing) (tokens : TokenBreakdown) (m : ℕ)
    → meets_at table r m ≡ true
    → any (fits r tokens) table ≡ true
unfolding meets_at
meets_at-fits table r tokens m h = elim (Bool-cases (leb (get_or tokens.input_tokens 0) m)) [
  | inl e ↦ any-fits table r tokens none (some m) (and_left _ _ h) (ground arith) e
  | inr e ↦
      any-fits table r tokens (some (suc m)) none (and_right _ _ h) (ground arith) (ground arith)
]

is_served-fits :
    (table : List ModelPricing) (r : ModelPricing) (tokens : TokenBreakdown)
    → is_served table r ≡ true
    → any (fits r tokens) table ≡ true
unfolding is_served
is_served-fits table r tokens h =
    elim (Bool-cases (any (has_bounds r.model_pattern none none) table)) [
      | inl e ↦ any-fits table r tokens none none e (ground arith) (ground arith)
      | inr e ↦
          ground
            (arith, h, meets_at-fits table r tokens 200000, meets_at-fits table r tokens 272000)
    ]

-- For every row of a catalog and every count of input tokens the catalog has a row with the same
-- pattern that the count fits: the tiers leave no gap.
pub tiers_leave_no_gap :
    (c : BillingContextId) (r : ModelPricing) (tokens : TokenBreakdown)
    → Memᴰ r (pricing_catalog_for_billing_context c).pricing_table
    → any (fits r tokens) (pricing_catalog_for_billing_context c).pricing_table ≡ true
tiers_leave_no_gap c r tokens m =
    let table = (pricing_catalog_for_billing_context c).pricing_table in
    is_served-fits table r tokens (Memᴰ-every (is_served table) table m (catalog-every-is_served c))
